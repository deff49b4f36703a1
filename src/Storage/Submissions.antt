-- ===== src/Storage/Submissions.antt =====
-- Drafts of submissions, mobile/src/lib/submission-storage.ts, and the learning cache,
-- mobile/src/lib/learning-cache.ts, whose table has the columns `cache_key` (its primary key) and
-- `payload`; the time of a row is not read.
use csg_learning_platform.Prelude.{
  ℕ, Bool, true, false, Option, none, some, [], ◌∷◌, if◌then◌else◌, ◌==◌, filter, ◌&&◌,
}
use csg_learning_platform.Prelude.Int.{ℤ, pos, negsuc, int_eq}
use csg_learning_platform.Prelude.Text.{Text, txt, text_eq, is_empty, starts_with, trim}
use csg_learning_platform.Json.{Json, null, num, negsuc as neg_num, str, obj, end, field, property}
use csg_learning_platform.Storage.{KeyValueStore}
use csg_learning_platform.Storage.Keys.{submission_name, user_key, submission_draft_key}
use csg_learning_platform.Storage.Conversations.{remove_keys}

-- Other properties of a stored object, which nothing reads, are left out.
pub record SubmissionDraft : Type 0 where
  pub text : Text
  pub base_submission_id : Option ℤ
  pub base_submission_updated_at : Option Text
  pub saved_at : Text

abbrev pub same_option {ℓ} : {A : Type ℓ} → (A → A → Bool) → Option A → Option A → Bool
same_option same none none = true
same_option same (some a) (some b) = same a b
same_option same _ _ = false

unfoldable pub submission_draft_matches : SubmissionDraft → Option ℤ → Option Text → Bool
submission_draft_matches draft id updated_at =
    same_option (λ a b. a == b) draft.base_submission_id id
    && same_option (λ a b. a == b) draft.base_submission_updated_at updated_at

-- The checks of one property each; `none` where an error is thrown.
abbrev pub as_text : Option Json → Option Text
as_text (some (str s)) = some s
as_text _ = none

abbrev pub as_id : Option Json → Option (Option ℤ)
as_id (some null) = some none
as_id (some (num n)) = some (some (pos n))
as_id (some (neg_num n)) = some (some (negsuc n))
as_id _ = none

-- `undefined` and null are both a draft without a version.
abbrev pub as_version : Option Json → Option (Option Text)
as_version none = some none
as_version (some null) = some none
as_version (some (str s)) = some (some s)
as_version _ = none

abbrev pub draft_of_parts :
    Option Text → Option (Option ℤ) → Option (Option Text) → Option Text → Option SubmissionDraft
draft_of_parts (some t) (some id) (some version) (some time) = some record {
  text = t;
  base_submission_id = id;
  base_submission_updated_at = version;
  saved_at = time;
}
draft_of_parts _ _ _ _ = none

-- Reading a property of null throws, as a check that fails does.
unfoldable pub draft_of : Option Json → Option SubmissionDraft
draft_of none = none
draft_of (some v) =
    draft_of_parts (as_text (property (txt "text") v))
      (as_id (property (txt "base_submission_id") v))
      (as_version (property (txt "base_submission_updated_at") v))
      (as_text (property (txt "saved_at") v))

abbrev pub id_json : Option ℤ → Json
id_json none = null
id_json (some (pos n)) = num n
id_json (some (negsuc n)) = neg_num n

abbrev pub text_json : Option Text → Json
text_json none = null
text_json (some s) = str s

abbrev pub draft_json : SubmissionDraft → Json
draft_json draft = obj (
    field (txt "text") (str draft.text) (
      field (txt "base_submission_id") (id_json draft.base_submission_id) (
        field (txt "base_submission_updated_at") (text_json draft.base_submission_updated_at)
          (field (txt "saved_at") (str draft.saved_at) end))))

module _ {S : Type 0} ⦃d : KeyValueStore S⦄ where
  module _ (parse : Text → Option Json) where
    abbrev pub loaded_draft : Text → Option SubmissionDraft → S → Option SubmissionDraft × S
    loaded_draft key none s = (none, d.remove key s)
    loaded_draft key (some draft) s = (some draft, s)

    abbrev pub load_draft : Text → Option Text → S → Option SubmissionDraft × S
    load_draft key none s = (none, s)
    load_draft key (some []) s = (none, s)
    load_draft key (some (c ∷ v)) s = loaded_draft key (draft_of (parse (c ∷ v))) s

    unfoldable pub load_submission_draft : ℕ → ℕ → S → Option SubmissionDraft × S
    load_submission_draft user block s =
        let key = submission_draft_key user block in load_draft key (d.get key s) s

  module _ (stringify : Json → Text) (now : Text) where
    unfoldable pub save_submission_draft : ℕ → ℕ → Text → Option ℤ → Option Text → S → S
    save_submission_draft user block body id updated_at s =
        let key = submission_draft_key user block in
        if is_empty (trim body)
        then d.remove key s
        else d.set key
            (stringify (
              draft_json record {
                text = body;
                base_submission_id = id;
                base_submission_updated_at = updated_at;
                saved_at = now;
              }))
            s

  unfoldable pub clear_submission_draft : ℕ → ℕ → S → S
  clear_submission_draft user block s = d.remove (submission_draft_key user block) s

  unfoldable pub clear_user_submission_drafts : ℕ → S → S
  clear_user_submission_drafts user s =
      remove_keys
        (filter (λ key. starts_with key (user_key submission_name user [])) (d.all_keys s)) s
