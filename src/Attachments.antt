-- ===== src/Attachments.antt =====
-- Attachments of messages: mobile/src/lib/attachments.ts. What the server and the object store answer is a
-- parameter, and the calls are logged. A file's size is a natural number.
pub mod Laws
mod Tests
use csg_learning_platform.Prelude.{
  ℕ, ◌+◌, ◌*◌, Bool, true, false, not, ◌||◌, ◌⊎◌, inl, inr, Option, none, some, List, [], ◌∷◌, ◌++◌,
  if◌then◌else◌, ◌==◌, any, leb, ltb, nat_beq,
}
use csg_learning_platform.Prelude.Text.{Text, txt, text_eq, is_empty, starts_with, trim}

-- 25 * 1024 * 1024
abbrev pub max_attachment_size : ℕ
max_attachment_size = 26214400

abbrev pub allowed_attachment_types : List Text
allowed_attachment_types =
    txt "image/jpeg"
    ∷ txt "image/png"
    ∷ txt "image/webp"
    ∷ txt "image/gif"
    ∷ txt "application/pdf"
    ∷ txt "text/plain"
    ∷ txt "application/zip"
    ∷ txt "application/x-zip-compressed"
    ∷ []

pub record LocalAttachmentAsset : Type 0 where
  pub uri : Text
  pub name : Option Text
  pub size : Option ℕ
  pub mime_type : Option Text

-- The errors that are thrown, each with the name of the file.
pub data AttachmentError : Type 0 where
  unsupported unknown_size too_large above_server_limit : (filename : Text) → AttachmentError
  presign_failed upload_failed : (message : Text) → AttachmentError

pub record ValidAttachment : Type 0 where
  pub filename : Text
  pub content_type : Text
  pub byte_size : ℕ

-- `value?.trim() || other`
abbrev pub or_text : Text → Text → Text
or_text [] other = other
or_text (c ∷ s) other = c ∷ s

abbrev pub trimmed_or : Option Text → Text → Text
trimmed_or none other = other
trimmed_or (some s) other = or_text (trim s) other

abbrev pub lower_trimmed : (Text → Text) → Option Text → Text
lower_trimmed lower none = []
lower_trimmed lower (some s) = trim (lower s)

abbrev pub or_zero : Option ℕ → ℕ
or_zero none = 0
or_zero (some n) = n

abbrev pub is_allowed : Text → Bool
is_allowed type = any (λ t. t == type) allowed_attachment_types

-- `lower` is toLowerCase.
module _ (lower : Text → Text) where
  unfoldable pub validate_attachment : LocalAttachmentAsset → AttachmentError ⊎ ValidAttachment
  unfolding trim
  validate_attachment asset =
      let filename = trimmed_or asset.name (txt "attachment") in
      let content_type = lower_trimmed lower asset.mime_type in
      let byte_size = or_zero asset.size in
      if not (is_allowed content_type)
      then inl (unsupported filename)
      else if leb byte_size 0
      then inl (unknown_size filename)
      else if ltb max_attachment_size byte_size
      then inl (too_large filename)
      else inr record { filename = filename; content_type = content_type; byte_size = byte_size }

pub data AttachmentStatus : Type 0 where
  queued uploading uploaded failed : AttachmentStatus

pub record UploadInput : Type 0 where
  pub s3_key : Text
  pub filename : Text
  pub content_type : Text
  pub byte_size : ℕ

pub record PendingAttachment : Type 0 where
  pub local_id : Text
  pub uri : Text
  pub filename : Text
  pub content_type : Text
  pub byte_size : ℕ
  pub image : Bool
  pub status : AttachmentStatus
  pub progress : ℕ
  pub error : Option Text
  pub uploaded_input : Option UploadInput

abbrev pub pending_of :
    Text → Text → AttachmentError ⊎ ValidAttachment → AttachmentError ⊎ PendingAttachment
pending_of local_id uri (inl e) = inl e
pending_of local_id uri (inr valid) = inr record {
  local_id = local_id;
  uri = uri;
  filename = valid.filename;
  content_type = valid.content_type;
  byte_size = valid.byte_size;
  image = starts_with valid.content_type (txt "image/");
  status = queued;
  progress = 0;
  error = none;
  uploaded_input = none;
}

-- `local_id` is made of the time and a random number.
unfoldable pub pending_attachment :
    (Text → Text) → (local_id : Text) → LocalAttachmentAsset → AttachmentError ⊎ PendingAttachment
unfolding validate_attachment
pending_attachment lower local_id asset =
    pending_of local_id asset.uri (validate_attachment lower asset)

pub record Presign : Type 0 where
  pub upload_url : Text
  pub s3_key : Text
  pub max_size : ℕ

-- The calls of the server and of the object store.
pub data Call : Type 0 where
  presigned : (filename content_type : Text) → Call
  posted : (url : Text) (byte_size : ℕ) → Call

-- What the two calls settle to; a rejection has its message.
pub record Answers : Type 0 where
  pub presign : Text ⊎ Presign
  pub post : Option Text

abbrev pub posted_result : PendingAttachment → Presign → Option Text → AttachmentError ⊎ UploadInput
posted_result a presign none = inr record {
  s3_key = presign.s3_key;
  filename = a.filename;
  content_type = a.content_type;
  byte_size = a.byte_size;
}
posted_result a presign (some message) = inl (upload_failed message)

abbrev pub on_presign :
    PendingAttachment → Answers → Text ⊎ Presign → (AttachmentError ⊎ UploadInput) × List Call
on_presign a answers (inl message) =
    (inl (presign_failed message), presigned a.filename a.content_type ∷ [])
on_presign a answers (inr presign) =
    if ltb presign.max_size a.byte_size
    then (inl (above_server_limit a.filename), presigned a.filename a.content_type ∷ [])
    else (
      posted_result a presign answers.post,
      presigned a.filename a.content_type ∷ posted presign.upload_url a.byte_size ∷ [],
    )

abbrev pub unless_uploaded :
    PendingAttachment → Answers → Option UploadInput → (AttachmentError ⊎ UploadInput) × List Call
unless_uploaded a answers none = on_presign a answers answers.presign
unless_uploaded a answers (some input) = (inr input, [])

unfoldable pub upload_attachment :
    PendingAttachment → Answers → (AttachmentError ⊎ UploadInput) × List Call
upload_attachment a answers = unless_uploaded a answers a.uploaded_input
