-- ===== src/Queue/Tests.antt =====
-- A run of the queue, with the submissions of web/src/lib/submissionQueue.test.ts.
use csg_learning_platform.Prelude.{
  nat_eq, ℕ, String, Option, none, some, List, [], ◌∷◌, map, ◌≡◌, refl, filter, ◌==◌, string_eq,
  if◌then◌else◌,
}
use mathlib.Core.List.{Perm}
use csg_learning_platform.Prelude.Int.{ℤ, pos, ◌-ℤ◌}
use csg_learning_platform.Prelude.Sort.{IsSorted, sort}
use csg_learning_platform.Prelude.Assoc.{get_item, set_item}
use csg_learning_platform.Prelude.Text.{show, text_eq}
use csg_learning_platform.Queue.{
  QueueSubmission, redo, is_shown, latest_from, assignment_key, compare_newest_first,
  order_submission_queue,
}
use csg_learning_platform.Queue.Shown.{stands_before, order_submission_queue_correct}

abbrev attempt : (id user block : ℕ) → String → QueueSubmission
attempt id user block at = record {
  id = id;
  user_id = user;
  content_block_id = block;
  grade = some "R";
  created_at = at;
}

-- Days of January.
abbrev clock : String → Option ℤ
clock at =
    if at == "Jan 1"
    then some (pos 1)
    else if at == "Jan 2"
    then some (pos 2)
    else if at == "Jan 3"
    then some (pos 3)
    else none

abbrev attempts : List QueueSubmission
attempts = attempt 1 4 8 "Jan 1" ∷ attempt 2 4 8 "Jan 3" ∷ attempt 3 5 9 "Jan 2" ∷ []

order_test : map (λ s. s.id) (order_submission_queue clock attempts redo) ≡ 2 ∷ 3 ∷ 1 ∷ []
unfolding order_submission_queue sort get_item set_item assignment_key show compare_newest_first
    ◌-ℤ◌
order_test = refl

order_submission_queue_correct_example :
    Perm (order_submission_queue clock attempts redo) (filter (is_shown redo) attempts)
    × IsSorted (stands_before clock attempts) (order_submission_queue clock attempts redo)
order_submission_queue_correct_example =
    order_submission_queue_correct clock attempts redo (refl, (refl, (refl, tt)))
      (refl, (refl, (refl, tt)))

latest_test :
    get_item (assignment_key 4 8) (latest_from clock [] attempts) ≡ some (attempt 2 4 8 "Jan 3")
unfolding latest_from get_item set_item assignment_key show compare_newest_first ◌-ℤ◌
latest_test = refl
