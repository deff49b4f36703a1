-- ===== src/Storage.antt =====
-- What the mobile app keeps on the device: the drafts and failed messages of
-- mobile/src/lib/conversation-storage.ts, the drafts of mobile/src/lib/submission-storage.ts, and
-- the learning cache of mobile/src/lib/learning-cache.ts.
--
-- AsyncStorage is an interface, and a call of it takes a state to a state; a call that it refuses
-- is left out.
pub mod Keys
pub mod Conversations
pub mod Submissions
pub mod Cache
pub mod ConversationLaws
pub mod FailedLaws
pub mod SubmissionLaws
pub mod Memory
mod Tests
use csg_learning_platform.Prelude.{
  Bool, true, false, Option, none, some, List, ◌≡◌, if◌then◌else◌, ◌==◌, is_some, any,
}
use csg_learning_platform.Prelude.Text.{Text, text_eq}

-- AsyncStorage: what it documents of getItem, setItem, removeItem, getAllKeys and multiRemove.
pub record KeyValueStore (S : Type 0) : Type 0 where
  pub get : Text → S → Option Text
  pub set : Text → Text → S → S
  pub remove : Text → S → S
  pub all_keys : S → List Text
  pub multi_remove : List Text → S → S
  pub get-set :
      (k other v : Text) (s : S)
      → get other (set k v s) ≡ (if k == other then some v else get other s)
  pub get-remove :
      (k other : Text) (s : S) → get other (remove k s) ≡ (if k == other then none else get other s)
  pub get-multi_remove :
      (ks : List Text) (other : Text) (s : S)
      → get other (multi_remove ks s) ≡ (if any (λ k. k == other) ks then none else get other s)
  pub all_keys-get : (k : Text) (s : S) → any (λ j. j == k) (all_keys s) ≡ is_some (get k s)

-- `value || ''`
abbrev pub or_empty : Option Text → Text
or_empty none = List.[]
or_empty (some v) = v
