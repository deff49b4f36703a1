-- ===== src/Queue.antt =====
-- The queue of submissions that staff grade: web/src/lib/submissionQueue.ts.
pub mod Laws
pub mod Members
pub mod Latest
pub mod Shown
mod Tests
use csg_learning_platform.Prelude.{
  ℕ, Bool, true, false, not, String, Option, none, some, List, [], ◌∷◌, ◌++◌, map, if◌then◌else◌,
  ◌==◌, string_eq, filter, any, nat_beq,
}
use csg_learning_platform.Prelude.Int.{ℤ, pos, ◌-ℤ◌, is_negative}
use csg_learning_platform.Prelude.Text.{Text, text_eq, show}
use csg_learning_platform.Prelude.Sort.{sort}
use csg_learning_platform.Prelude.Assoc.{get_item, set_item}
use csg_learning_platform.Chat.{time_difference, or_else}

pub data SubmissionQueueFilter : Type 0 where
  ungraded redo all : SubmissionQueueFilter

pub record QueueSubmission : Type 0 where
  pub id : ℕ
  pub user_id : ℕ
  pub content_block_id : ℕ
  pub grade : Option String
  pub created_at : String

-- `${user_id}:${content_block_id}`
unfoldable pub assignment_key : (user block : ℕ) → Text
assignment_key user block = show user ++ (b':' ∷ show block)

abbrev pub key_of : QueueSubmission → Text
key_of s = assignment_key s.user_id s.content_block_id

abbrev pub is_grade : String → Option String → Bool
is_grade g none = false
is_grade g (some h) = h == g

abbrev pub is_null {ℓ} : {A : Type ℓ} → Option A → Bool
is_null none = true
is_null (some a) = false

-- Whether a filter shows a submission.
unfoldable pub is_shown : SubmissionQueueFilter → QueueSubmission → Bool
is_shown ungraded s = is_null s.grade
is_shown redo s = is_grade "R" s.grade
is_shown all s = true

-- The values of a `Map`, in its order.
abbrev pub values {ℓ κ} : {K : Type ℓ} {V : Type κ} → List (K × V) → List V
values [] = []
values ((k, v) ∷ m) = v ∷ values m

-- `new Date(s).getTime()` is the platform's: milliseconds since 1970, or `none` for NaN.
module _ (get_time : String → Option ℤ) where
  unfoldable pub compare_newest_first : QueueSubmission → QueueSubmission → ℤ
  compare_newest_first a b =
      or_else (time_difference (get_time b.created_at) (get_time a.created_at))
        (pos b.id -ℤ pos a.id)

  abbrev pub newer : QueueSubmission → QueueSubmission → Bool
  newer a b = is_negative (compare_newest_first a b)

  abbrev pub put_latest :
      QueueSubmission
      → Option QueueSubmission
      → List (Text × QueueSubmission)
      → List (Text × QueueSubmission)
  put_latest s none latest = set_item (key_of s) s latest
  put_latest s (some current) latest =
      if newer s current then set_item (key_of s) s latest else latest

  -- The `forEach` of `getLatestSubmissionIds`, from a map.
  unfoldable pub latest_from :
      List (Text × QueueSubmission) → List QueueSubmission → List (Text × QueueSubmission)
  latest_from latest [] = latest
  latest_from latest (s ∷ ss) = latest_from (put_latest s (get_item (key_of s) latest) latest) ss

  unfoldable pub get_latest_submission_ids : List QueueSubmission → List ℕ
  unfolding latest_from
  get_latest_submission_ids submissions = map (λ s. s.id) (values (latest_from [] submissions))

  abbrev pub is_latest : List ℕ → QueueSubmission → Bool
  is_latest ids s = any (λ i. nat_beq i s.id) ids

  -- "The comparator of a and b is negative".
  abbrev pub goes_first : (a_latest b_latest : Bool) → QueueSubmission → QueueSubmission → Bool
  goes_first true false a b = true
  goes_first false true a b = false
  goes_first _ _ a b = newer a b

  abbrev pub in_queue_order : List ℕ → QueueSubmission → QueueSubmission → Bool
  in_queue_order ids a b = goes_first (is_latest ids a) (is_latest ids b) a b

  unfoldable pub order_submission_queue :
      List QueueSubmission → SubmissionQueueFilter → List QueueSubmission
  unfolding get_latest_submission_ids is_shown
  order_submission_queue submissions shown =
      sort (in_queue_order (get_latest_submission_ids submissions))
        (filter (is_shown shown) submissions)
