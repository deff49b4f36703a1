-- ===== src/Upload/PartRetry.antt =====
-- `uploadPartWithRetry`, `uploadPart` and `wait` of web/src/lib/uploadToS3.ts. What the URL's getter and the
-- browser's request settle to is given by the attempt, and the waiting times are logged.
pub mod Settled
mod Tests
use csg_learning_platform.Prelude.{
  ℕ, zero, suc, ◌+◌, ◌*◌, Bool, true, false, ◌&&◌, Option, none, some, List, [], ◌∷◌, ◌++◌,
  if◌then◌else◌, leb, ltb,
}
use csg_learning_platform.Prelude.Text.{Text, txt, show, is_empty}
use csg_learning_platform.Upload.Mobile.{Result, ok, err}

abbrev pub multipart_max_attempts : ℕ
multipart_max_attempts = 4

-- The event that ends a request; a response has a status, and perhaps an ETag.
pub data UploadAnswer : Type 0 where
  load : ℕ → Option Text → UploadAnswer
  error abort : UploadAnswer

-- What the n-th attempt meets. The abort signal is read at the head of the attempt and in its `catch`
-- block, and it may abort while the function waits.
pub record Attempt : Type 0 where
  pub aborted_at_start : Bool
  pub part_url : Result Text
  pub answer : UploadAnswer
  pub aborted_in_catch : Bool
  pub aborted_in_wait : Bool

abbrev with_etag : Option Text → Result Text
with_etag none = err (
    txt
      "Upload part completed but S3 did not expose an ETag header. Check the bucket CORS exposed headers.")
with_etag (some etag) =
    if is_empty etag
    then err (
        txt
          "Upload part completed but S3 did not expose an ETag header. Check the bucket CORS exposed headers.")
    else ok etag

unfoldable pub upload_blob : UploadAnswer → Result Text
upload_blob (load status etag) =
    if leb 200 status && ltb status 300
    then with_etag etag
    else err (txt "Upload part failed with status " ++ show status)
upload_blob error = err (txt "Network interrupted while uploading a video chunk. Retrying...")
upload_blob abort = err (txt "Upload cancelled")

abbrev pub send_blob : UploadAnswer → Result Text → Result Text
unfolding upload_blob
send_blob answer (err e) = err e
send_blob answer (ok url) = upload_blob answer

-- The `try` block.
unfoldable pub try_upload : Attempt → Result Text
try_upload a =
    if a.aborted_at_start then err (txt "Upload cancelled") else send_blob a.answer a.part_url

abbrev pub pause : ℕ → ℕ
pause attempt = 750 * attempt * attempt

abbrev pub part_failure : ℕ → Text → Text
part_failure number e =
    txt "Part "
    ++ (show number
        ++ (txt " failed after " ++ (show multipart_max_attempts ++ (txt " attempts: " ++ e))))

-- The `catch` block, with the next rounds of the loop as functions of the log.
abbrev pub on_part_error :
    Attempt
    → ℕ
    → List ℕ
    → (List ℕ → Text → Result Text × List ℕ)
    → Result Text
    → Result Text × List ℕ
on_part_error a attempt log next (ok etag) = (ok etag, log)
on_part_error a attempt log next (err e) =
    if a.aborted_in_catch
    then (err e, log)
    else if ltb attempt multipart_max_attempts
    then if a.aborted_in_wait
      then (err (txt "Upload cancelled"), log ++ pause attempt ∷ [])
      else next (log ++ pause attempt ∷ []) e
    else next log e

-- The loop, with the attempts that are left.
unfoldable pub retry_upload :
    (ℕ → Attempt) → (number left attempt : ℕ) → List ℕ → Text → Result Text × List ℕ
unfolding try_upload
retry_upload w number zero attempt log e = (err (part_failure number e), log)
retry_upload w number (suc left) attempt log e =
    on_part_error (w attempt) attempt log
      (λ log' e'. retry_upload w number left (suc attempt) log' e') (try_upload (w attempt))

unfoldable pub upload_part_with_retry : (ℕ → Attempt) → ℕ → Result Text × List ℕ
unfolding retry_upload
upload_part_with_retry w number = retry_upload w number multipart_max_attempts 1 [] []
