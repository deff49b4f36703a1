-- ===== src/Upload/PartRetry/Tests.antt =====
-- A run of `uploadPartWithRetry` in web/src/lib/uploadToS3.ts whose first request storage refuses.
use csg_learning_platform.Prelude.{ℕ, zero, suc, false, some, none, [], ◌∷◌, ◌≡◌, refl}
use csg_learning_platform.Prelude.Text.{txt}
use csg_learning_platform.Upload.Mobile.{ok}
use csg_learning_platform.Upload.PartRetry.{
  UploadAnswer, load, Attempt, upload_blob, try_upload, retry_upload, upload_part_with_retry,
}
use csg_learning_platform.Upload.PartRetry.Settled.{IsSettled, upload_part_with_retry-IsSettled}

abbrev answered : UploadAnswer → Attempt
answered answer = record {
  aborted_at_start = false;
  part_url = ok (txt "https://storage");
  answer = answer;
  aborted_in_catch = false;
  aborted_in_wait = false;
}

abbrev busy_once : ℕ → Attempt
busy_once (suc zero) = answered (load 503 none)
busy_once _ = answered (load 200 (some (txt "etag")))

busy_once_test : upload_part_with_retry busy_once 1 ≡ (ok (txt "etag"), 750 ∷ [])
unfolding upload_part_with_retry retry_upload try_upload upload_blob
busy_once_test = refl

upload_part_with_retry-IsSettled_example :
    IsSettled busy_once 1 (upload_part_with_retry busy_once 1)
upload_part_with_retry-IsSettled_example = upload_part_with_retry-IsSettled busy_once 1
