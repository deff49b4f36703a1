-- ===== src/Attachments/Laws.antt =====
-- What mobile/src/lib/attachments.ts accepts, and what it sends.
use csg_learning_platform.Prelude.{
  ℕ, ◌≤◌, ◌<◌, Bool, true, false, ◌&&◌, ◌⊎◌, inl, inr, Option, none, some, [], ◌∷◌, ◌≡◌, refl,
  arith, leb, ltb, All, Bool-cases,
}
use csg_learning_platform.Prelude.Text.{Text, txt, text_eq, is_empty, trim}
use csg_learning_platform.Attachments.{
  max_attachment_size, LocalAttachmentAsset, AttachmentError, ValidAttachment, or_text, trimmed_or,
  lower_trimmed, or_zero, is_allowed, validate_attachment, PendingAttachment, Presign, Call,
  presigned, posted, Answers, on_presign, unless_uploaded, upload_attachment, UploadInput,
}

abbrev pub is_accepted {ℓ} : {A : Type ℓ} → AttachmentError ⊎ A → Bool
is_accepted (inl e) = false
is_accepted (inr a) = true

-- An accepted file has a name, a type of the list, and between 1 byte and 25 MiB.
abbrev pub IsUsable : AttachmentError ⊎ ValidAttachment → Type 0
IsUsable (inl e) = Unit
IsUsable (inr v) =
    ((is_empty v.filename ≡ false) × (is_allowed v.content_type ≡ true))
    × ((0 < v.byte_size) × (v.byte_size ≤ max_attachment_size))

or_text_full : (s : Text) → is_empty (or_text s (txt "attachment")) ≡ false
or_text_full [] = refl
or_text_full (c ∷ s) = refl

trimmed_or_full : (o : Option Text) → is_empty (trimmed_or o (txt "attachment")) ≡ false
trimmed_or_full none = refl
trimmed_or_full (some s) = or_text_full (trim s)

abbrev in_bounds : ℕ → Bool
in_bounds size = ltb 0 size && leb size max_attachment_size

empty_size : (size : ℕ) → leb size 0 ≡ true → false ≡ in_bounds size
empty_size size f = ground arith

oversized : (size : ℕ) → ltb max_attachment_size size ≡ true → false ≡ in_bounds size
oversized size g = ground arith

positive : (size : ℕ) → leb size 0 ≡ false → 0 < size
positive size f = ground arith

within : (size : ℕ) → ltb max_attachment_size size ≡ false → size ≤ max_attachment_size
within size g = ground arith

sized_within :
    (size : ℕ) → leb size 0 ≡ false → ltb max_attachment_size size ≡ false → true ≡ in_bounds size
sized_within size f g = ground arith

-- A file is accepted exactly if its type is one of the list and it has between 1 byte and 25 MiB, and what
-- is accepted has a name, too.
pub validate_attachment_correct :
    (lower : Text → Text) (asset : LocalAttachmentAsset)
    → (is_accepted (validate_attachment lower asset) ≡ (
        is_allowed (lower_trimmed lower asset.mime_type)
        && (ltb 0 (or_zero asset.size) && leb (or_zero asset.size) max_attachment_size)))
      × IsUsable (validate_attachment lower asset)
unfolding validate_attachment
validate_attachment_correct lower asset =
    let size = or_zero asset.size in
    elim (Bool-cases (is_allowed (lower_trimmed lower asset.mime_type))) [
      | inr e ↦ rw e (refl, tt)
      | inl e ↦ elim (Bool-cases (leb size 0)) [
        | inl f ↦ rw e (rw f (empty_size size f, tt))
        | inr f ↦ elim (Bool-cases (ltb max_attachment_size size)) [
          | inl g ↦ rw e (rw f (rw g (oversized size g, tt)))
          | inr g ↦ rw e (
              rw f (
                rw g (
                  sized_within size f g,
                  ((trimmed_or_full asset.name, e), (positive size f, within size g)),
                )))
        ]
      ]
    ]

not_above : (limit size : ℕ) → ltb limit size ≡ false → leb size limit ≡ true
not_above limit size e = ground arith

-- A call that stays within the server's limit.
abbrev is_within : ℕ → Call → Bool
is_within limit (presigned filename content_type) = true
is_within limit (posted url size) = leb size limit

abbrev limit_of : Text ⊎ Presign → ℕ
limit_of (inl message) = 0
limit_of (inr presign) = presign.max_size

on_presign-is_within :
    (a : PendingAttachment) (answers : Answers) (p : Text ⊎ Presign)
    → All (λ c. is_within (limit_of p) c ≡ true) (on_presign a answers p).1
on_presign-is_within a answers (inl message) = (refl, tt)
on_presign-is_within a answers (inr presign) =
    elim (Bool-cases (ltb presign.max_size a.byte_size)) [
      | inl e ↦ rw e (refl, tt)
      | inr e ↦ rw e (refl, (not_above presign.max_size a.byte_size e, tt))
    ]

-- Nothing larger than the server's limit is posted, and an attachment that was uploaded before makes no
-- call and gives the same input.
upload_attachment_correct :
    (a : PendingAttachment) (answers : Answers) (input : UploadInput)
    → All (λ c. is_within (limit_of answers.presign) c ≡ true) (upload_attachment a answers).1
      × (upload_attachment (record a { uploaded_input = some input }) answers ≡ (inr input, []))
unfolding upload_attachment
upload_attachment_correct a answers input = (calls a.uploaded_input, refl)
  where
    calls :
        (o : Option UploadInput)
        → All (λ c. is_within (limit_of answers.presign) c ≡ true) (unless_uploaded a answers o).1
    calls none = on_presign-is_within a answers answers.presign
    calls (some given) = tt
