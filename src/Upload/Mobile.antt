-- ===== src/Upload/Mobile.antt =====
-- mobile/src/lib/recording-upload.ts: a recording is sent to storage in one post or in parts, and
-- then recorded. What the server and storage answer is a parameter; the calls that change something
-- there are logged in order. Progress reports and waiting times are left out.
pub mod Retry
pub mod Stored
pub mod Cleanup
pub mod Order
mod Tests
use csg_learning_platform.Prelude.{
  ℕ, zero, suc, ◌+◌, Bool, true, false, not, ◌&&◌, ◌||◌, Option, none, some, List, [], ◌∷◌, ◌++◌,
  if◌then◌else◌, leb, ltb, nat_beq,
}
use csg_learning_platform.Prelude.Text.{Text, txt, show, trim, is_empty, starts_with}
use csg_learning_platform.Upload.Parts.{Part, multipart_threshold, max_recording_size, mobile_parts}

-- What a promise settles to. Every rejection is an `Error`, and `err` holds its message.
pub data Result (A : Type 0) : Type 0 where
  ok : A → Result A
  err : Text → Result A

pub record Asset : Type 0 where
  pub uri : Text
  pub name : Text
  pub size : ℕ
  pub mime_type : Text

pub record Options : Type 0 where
  pub asset : Asset
  pub title : Text
  pub description : Option Text
  pub recorded_date : Option Text

pub record UploadedPart : Type 0 where
  pub part_number : ℕ
  pub etag : Text

pub record RecordingInput : Type 0 where
  pub title : Text
  pub description : Option Text
  pub recorded_date : Option Text
  pub s3_key : Text
  pub content_type : Text
  pub file_size : ℕ

-- A response of storage: `ok`, `status`, its `etag` header, and `text()`.
pub record StorageResponse : Type 0 where
  pub is_ok : Bool
  pub status : ℕ
  pub etag : Option Text
  pub body : Result Text

-- The server and storage. `part_url` and `put` are asked by part number and attempt.
pub record Remote : Type 0 where
  pub initiate : Result Text  -- the key; the upload id goes with it
  pub part_url : ℕ → ℕ → Result Text
  pub put : Text → ℕ → ℕ → Result StorageResponse
  pub complete : Text → List UploadedPart → Result (Unit {0})
  pub abort : Text → Result (Unit {0})
  pub presign : Result Text
  pub post : Text → Result StorageResponse
  pub create_recording : RecordingInput → Result ℕ
  pub abandon : Text → Result (Unit {0})

-- What became of the request that posts a whole file.
pub data Receipt : Type 0 where
  accepted refused unanswered : Receipt

-- The calls that change what is stored. A Boolean says whether the call succeeded.
pub data Call : Type 0 where
  initiated : Text → Call
  put_part : ℕ → ℕ → Call
  completed : Text → List UploadedPart → Bool → Call
  aborted : Text → Bool → Call
  posted : Text → Receipt → Call
  recorded : Text → Call
  abandoned : Text → Bool → Call

abbrev pub M : Type 0 → Type 0
M A = Result A × List Call

-- `catch` and the rest of an async function, by what came before.
abbrev pub then_do : {A B : Type 0} → M A → (A → M B) → (Text → M B) → M B
then_do (ok a, log) next catch = let (r, more) = next a in (r, log ++ more)
then_do (err e, log) next catch = let (r, more) = catch e in (r, log ++ more)

abbrev pub succeeded : {A : Type 0} → Result A → Bool
succeeded (ok a) = true
succeeded (err e) = false

abbrev pub fail : {A : Type 0} → Text → M A
fail e = (err e, [])

abbrev pub lift : {A : Type 0} → Result A → M A
lift r = (r, [])

infixl 5 ◌>>=◌
abbrev pub ◌>>=◌ : {A B : Type 0} → M A → (A → M B) → M B
m >>= next = then_do m next fail

-- `body.match(/<Code>([^<]+)<\/Code>/)?.[1]`
unfoldable pub until_angle : Text → Text
until_angle [] = []
until_angle (c ∷ s) = let rest = c ∷ until_angle s in if nat_beq c b'<' then [] else rest

unfoldable pub after_angle : Text → Text
after_angle [] = []
after_angle (c ∷ s) = let rest = after_angle s in if nat_beq c b'<' then c ∷ s else rest

abbrev code_at : Text → Option Text
code_at s =
    if not (is_empty (until_angle s)) && starts_with (after_angle s) (txt "</Code>")
    then some (until_angle s)
    else none

abbrev drop_open : Text → Text
drop_open (_ ∷ _ ∷ _ ∷ _ ∷ _ ∷ _ ∷ s) = s
drop_open _ = []

abbrev or_later : Option Text → Option Text → Option Text
or_later none later = later
or_later (some code) later = some code

unfoldable pub find_code : Text → Option Text
unfolding until_angle after_angle
find_code [] = none
find_code (c ∷ s) =
    let later = find_code s in
    if starts_with (c ∷ s) (txt "<Code>")
    then or_later (code_at (drop_open (c ∷ s))) later
    else later

abbrev text_or_empty : Result Text → Text
text_or_empty (ok s) = s
text_or_empty (err e) = []

abbrev bracketed : Option Text → ℕ → Text
bracketed (some code) status = txt " (" ++ (code ++ txt ")")
bracketed none status = txt " (" ++ (show status ++ txt ")")

unfoldable pub storage_error : StorageResponse → Text → Text
storage_error response fallback =
    fallback ++ bracketed (find_code (text_or_empty response.body)) response.status

abbrev max_attempts : ℕ
max_attempts = 4

-- `if (!etag) throw`
abbrev require_etag : Option Text → Result Text
require_etag none = err (txt "Storage did not return the ETag required to finish this upload.")
require_etag (some etag) =
    if is_empty etag
    then err (txt "Storage did not return the ETag required to finish this upload.")
    else ok etag

abbrev check_part : ℕ → Result StorageResponse → Result Text
check_part part (err e) = err e
check_part part (ok response) =
    if response.is_ok
    then require_etag response.etag
    else err (storage_error response (txt "Part " ++ (show part ++ txt " was rejected.")))

abbrev or_null : Text → Option Text
or_null s = if is_empty s then none else some s

abbrev trimmed : Option Text → Option Text
trimmed none = none
trimmed (some s) = or_null (trim s)

-- `recordedDate || undefined`
abbrev present : Option Text → Option Text
present none = none
present (some s) = or_null s

module _ (remote : Remote) where
  -- The body of the loop in `uploadPartWithRetry`.
  unfoldable pub try_part : ℕ → ℕ → M Text
  try_part part attempt = lift (remote.part_url part attempt) >>= λ url.
      (check_part part (remote.put url part attempt), put_part part attempt ∷ [])

  -- The loop, with the attempts that are left and the last error.
  unfoldable pub retry_part : (left part attempt : ℕ) → Text → M Text
  unfolding try_part
  retry_part zero part attempt last_error = fail last_error
  retry_part (suc left) part attempt last_error =
      then_do (try_part part attempt) (λ etag. lift (ok etag))
        (λ e. retry_part left part (attempt + 1) e)

  unfoldable pub upload_part_with_retry : ℕ → M Text
  unfolding retry_part
  upload_part_with_retry part =
      retry_part max_attempts part 1 (txt "Part " ++ (show part ++ txt " failed after 4 attempts."))

  -- The loop over the parts; `done` are those that were uploaded.
  unfoldable pub upload_parts : List Part → List UploadedPart → M (List UploadedPart)
  upload_parts [] done = lift (ok done)
  upload_parts (p ∷ ps) done = upload_part_with_retry p.number >>= λ etag.
      upload_parts ps (done ++ record { part_number = p.number; etag = etag } ∷ [])

  -- `try { … } catch { abort; throw }`, after the upload was initiated.
  unfoldable pub send_parts : Text → ℕ → M Text
  unfolding upload_parts
  send_parts key size =
      then_do
        (upload_parts (mobile_parts size) [] >>= λ parts. (
          remote.complete key parts,
          completed key parts (succeeded (remote.complete key parts)) ∷ [],
        ))
        (λ _. lift (ok key)) (λ e. (err e, aborted key (succeeded (remote.abort key)) ∷ []))

  unfoldable pub upload_multipart : Asset → M Text
  unfolding send_parts
  upload_multipart asset = lift remote.initiate >>= λ key.
      (ok key, initiated key ∷ []) >>= λ key. send_parts key asset.size

  abbrev pub check_post : Text → Result StorageResponse → M Text
  check_post key (err e) = (err e, posted key unanswered ∷ [])
  check_post key (ok response) = if response.is_ok then (ok key, posted key accepted ∷ []) else (
    err (storage_error response (txt "Storage rejected the video.")),
    posted key refused ∷ [],
  )

  unfoldable pub upload_presigned_post : M Text
  upload_presigned_post = lift remote.presign >>= λ key. check_post key (remote.post key)

  abbrev pub recording_input : Options → Text → RecordingInput
  recording_input o key = record {
    title = trim o.title;
    description = trimmed o.description;
    recorded_date = present o.recorded_date;
    s3_key = key;
    content_type = o.asset.mime_type;
    file_size = o.asset.size;
  }

  abbrev pub log_recorded : Text → Result ℕ → M ℕ
  log_recorded key (ok id) = (ok id, recorded key ∷ [])
  log_recorded key (err e) = fail e

  -- `if (uploadedKey) await api.abandonUpload(uploadedKey).catch(() => undefined)`
  abbrev pub give_up : Text → Text → M ℕ
  give_up key e =
      (err e, if is_empty key then [] else abandoned key (succeeded (remote.abandon key)) ∷ [])

  -- What follows the upload itself.
  unfoldable pub publish : Options → Text → M ℕ
  publish o key =
      then_do (log_recorded key (remote.create_recording (recording_input o key)))
        (λ id. lift (ok id)) (give_up key)

  unfoldable pub upload_recording : Options → M ℕ
  upload_recording o =
      if leb o.asset.size 0
      then fail (txt "The selected video is empty.")
      else if ltb max_recording_size o.asset.size
      then fail (txt "Recordings must be 5 GB or smaller.")
      else if not (starts_with o.asset.mime_type (txt "video/"))
      then fail (txt "Choose a video file.")
      else (if leb multipart_threshold o.asset.size
          then upload_multipart o.asset
          else upload_presigned_post)
        >>= publish o
