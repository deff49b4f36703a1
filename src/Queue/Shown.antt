-- ===== src/Queue/Shown.antt =====
-- In which order web/src/lib/submissionQueue.ts shows the queue.
use mathlib.Core.List.{Perm}
use csg_learning_platform.Prelude.{
  String, Bool, true, false, not, Option, List, [], ◌∷◌, ◌≡◌, refl, nat_eq, if◌then◌else◌, filter,
  All, All-filter, Bool-cases, inl, inr,
}
use csg_learning_platform.Prelude.Int.{ℤ}
use csg_learning_platform.Prelude.Sort.{IsSorted, All-sort}
use csg_learning_platform.Prelude.Keyed.{UniqueKeys}
use csg_learning_platform.Queue.{
  SubmissionQueueFilter, QueueSubmission, is_shown, goes_first, in_queue_order,
  get_latest_submission_ids, order_submission_queue,
}
use csg_learning_platform.Queue.Laws.{HasTime, order_submission_queue-IsSorted}
use csg_learning_platform.Queue.Members.{IsIn}
use csg_learning_platform.Queue.Latest.{
  submission_id, is_newer, is_superseded, newer-is_newer, is_latest-is_superseded, All-of,
}

All-agree :
    {A : Type 0} (lt lt' : A → A → Bool) (P : A → Type 0)
    → ((a b : A) → P a → P b → lt a b ≡ lt' a b)
    → (x : A) (xs : List A) → P x
    → All P xs
    → All (λ y. lt y x ≡ false) xs
    → All (λ y. lt' y x ≡ false) xs
All-agree lt lt' P same x [] p h k = tt
All-agree lt lt' P same x (y ∷ ys) p (q, h) (e, k) =
    (rw (same y x q p) at e, All-agree lt lt' P same x ys p h k)

IsSorted-agree :
    {A : Type 0} (lt lt' : A → A → Bool) (P : A → Type 0)
    → ((a b : A) → P a → P b → lt a b ≡ lt' a b)
    → (xs : List A) → All P xs
    → IsSorted lt xs
    → IsSorted lt' xs
IsSorted-agree lt lt' P same [] h k = tt
IsSorted-agree lt lt' P same (x ∷ xs) (p, h) (e, k) =
    (All-agree lt lt' P same x xs p h e, IsSorted-agree lt lt' P same xs h k)

module _ (get_time : String → Option ℤ) where
  -- Whether one submission stands before another in the queue: an attempt with no newer one of its user
  -- for its block before one that was superseded, and then the newer one first.
  abbrev pub stands_before : List QueueSubmission → QueueSubmission → QueueSubmission → Bool
  stands_before submissions a b =
      if is_superseded get_time submissions a
      then if is_superseded get_time submissions b then is_newer get_time a b else false
      else if is_superseded get_time submissions b
      then true
      else is_newer get_time a b

  goes_first-stands_before :
      (submissions : List QueueSubmission) (a b : QueueSubmission)
      → goes_first get_time
          (not (is_superseded get_time submissions a))
          (not (is_superseded get_time submissions b))
          a
          b
        ≡ stands_before submissions a b
  goes_first-stands_before submissions a b =
      elim (Bool-cases (is_superseded get_time submissions a)) [
        | inl e ↦ elim (Bool-cases (is_superseded get_time submissions b)) [
          | inl f ↦ rw (e, f) (newer-is_newer get_time a b)
          | inr f ↦ rw (e, f) refl
        ]
        | inr e ↦ elim (Bool-cases (is_superseded get_time submissions b)) [
          | inl f ↦ rw (e, f) refl
          | inr f ↦ rw (e, f) (newer-is_newer get_time a b)
        ]
      ]

  -- The queue has the submissions that the filter shows, each as often as it occurs. First come the
  -- latest attempts, of which the same user has no newer one for the same block among all submissions,
  -- and then those that are not; in both groups the newer ones first, by time and then by id. Every time
  -- stamp is valid, and no id occurs twice.
  pub order_submission_queue_correct :
      (submissions : List QueueSubmission) (shown : SubmissionQueueFilter)
      → All (HasTime get_time) submissions
      → UniqueKeys submission_id submissions
      → Perm
          (order_submission_queue get_time submissions shown)
          (filter (is_shown shown) submissions)
        × IsSorted (stands_before submissions) (order_submission_queue get_time submissions shown)
  unfolding order_submission_queue
  order_submission_queue_correct submissions shown times unique =
      let (same, sorted) = order_submission_queue-IsSorted get_time submissions shown times in
      let inside : All (λ s. IsIn s submissions) submissions =
        All-of (λ s. IsIn s submissions) submissions (λ s i. i) in
      let ids = get_latest_submission_ids get_time submissions in
      (
        same,
        IsSorted-agree (in_queue_order get_time ids) (stands_before submissions)
            (λ s. IsIn s submissions)
            (λ a b i j.
              rw
                (
                  is_latest-is_superseded get_time submissions times unique a i,
                  is_latest-is_superseded get_time submissions times unique b j,
                )
                (goes_first-stands_before submissions a b))
            _
            (All-sort (in_queue_order get_time ids) (λ s. IsIn s submissions) _
              (All-filter (λ s. IsIn s submissions) (is_shown shown) submissions inside))
            sorted,
      )
