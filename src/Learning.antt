-- ===== src/Learning.antt =====
-- Progress in a lesson and the state of submissions: mobile/src/lib/learning.ts over the types of
-- mobile/src/lib/types.ts, of which a block and a submission have the fields that are read there.
mod Tests
use csg_learning_platform.Prelude.{
  ℕ, String, Bool, true, false, not, ◌&&◌, ◌||◌, Option, none, some, List, [], ◌∷◌, if◌then◌else◌,
  ◌==◌, string_eq, nat_beq, ltb, length, filter,
}
use csg_learning_platform.Prelude.Int.{ℤ, ltb_ℤ, int_eq}
use csg_learning_platform.Prelude.Text.{Text, txt, is_empty, trim, text_eq}

pub record Submission : Type 0 where
  pub id : ℕ
  pub grade : Option String
  pub created_at : String

-- `completion_required` is false where it is absent; `progress` holds the status.
pub record Block : Type 0 where
  pub block_type : String
  pub completion_required : Bool
  pub submission_type : Option String
  pub progress : Option String

pub record Completion : Type 0 where
  pub completed : ℕ
  pub total : ℕ
  pub percentage : ℕ

abbrev is_present {ℓ} : {A : Type ℓ} → Option A → Bool
is_present none = false
is_present (some a) = true

abbrev pub is_required : Block → Bool
is_required b = b.completion_required

abbrev pub is_completable : Block → Bool
is_completable b = not (b.block_type == "text") || is_present b.progress

abbrev pub is_completed : Block → Bool
is_completed b = elim b.progress [ none ↦ false | some status ↦ status == "completed" ]

-- `explicitlyRequired.length ? explicitlyRequired : …`
abbrev required_or : List Block → List Block → List Block
required_or [] other = other
required_or (b ∷ bs) other = b ∷ bs

unfoldable pub completable : List Block → List Block
completable blocks = required_or (filter is_required blocks) (filter is_completable blocks)

-- `Math.round((completed / total) * 100)` is a rounding of floating-point numbers and a parameter.
module _ (round_percentage : (completed total : ℕ) → ℕ) where
  -- The rounded percentage, or 0 of nothing.
  unfoldable pub percentage_of : (completed total : ℕ) → ℕ
  percentage_of completed total = if nat_beq total 0 then 0 else round_percentage completed total

  unfoldable pub lesson_completion : List Block → Completion
  unfolding completable percentage_of
  lesson_completion blocks =
      let total = length (completable blocks) in
      let completed = length (filter is_completed (completable blocks)) in
      record { completed = completed; total = total; percentage = percentage_of completed total }

-- `block.submission_type || …`
unfoldable pub submission_type_for : Block → Bool → String
submission_type_for block requires_github =
    let inferred =
      if requires_github
      then "prework_github_sync"
      else if block.block_type == "exercise" || block.block_type == "code_challenge"
      then "text_submission"
      else "manual_complete" in
    elim block.submission_type [ none ↦ inferred | some t ↦ if t == "" then inferred else t ]

-- `Date.parse` gives milliseconds or `none` for NaN.
module _ (parse : String → Option ℤ) where
  abbrev newer_by_time : Option ℤ → Option ℤ → Submission → Submission → Submission
  newer_by_time (some s) (some t) latest submission =
      if s == t
      then if ltb latest.id submission.id then submission else latest
      else if ltb_ℤ s t
      then submission
      else latest
  newer_by_time (some s) none latest submission =
      if ltb latest.id submission.id then submission else latest
  newer_by_time none t latest submission =
      if ltb latest.id submission.id then submission else latest

  unfoldable pub newer : Submission → Submission → Submission
  newer latest submission =
      newer_by_time (parse latest.created_at) (parse submission.created_at) latest submission

  abbrev step : Option Submission → Submission → Option Submission
  step none submission = some submission
  step (some latest) submission = some (newer latest submission)

  -- `submissions.reduce(…)`, from what was the latest before.
  unfoldable pub latest_from : Option Submission → List Submission → Option Submission
  unfolding newer
  latest_from latest [] = latest
  latest_from latest (s ∷ ss) = latest_from (step latest s) ss

  unfoldable pub latest_submission : List Submission → Option Submission
  unfolding latest_from
  latest_submission submissions = latest_from none submissions

pub record SubmissionState : Type 0 where
  pub latest : Option Submission
  pub passed : Bool
  pub redo : Bool
  pub editable : Bool

abbrev is_grade : Option String → Bool
is_grade none = false
is_grade (some g) = not (g == "") && not (g == "R")

abbrev is_redo : Option String → Bool
is_redo none = false
is_redo (some g) = g == "R"

unfoldable pub state_of : Option Submission → SubmissionState
state_of none = record { latest = none; passed = false; redo = false; editable = false }
state_of (some s) = record {
  latest = some s;
  passed = is_grade s.grade;
  redo = is_redo s.grade;
  editable = not (is_present s.grade);
}

unfoldable pub submission_state : (String → Option ℤ) → List Submission → SubmissionState
unfolding latest_submission state_of
submission_state parse submissions = state_of (latest_submission parse submissions)

pub record WorkValues : Type 0 where
  pub text : Text
  pub repo_url : Text
  pub live_url : Text

abbrev is_filled : Text → Bool
is_filled s = not (is_empty (trim s))

unfoldable pub can_submit_work : String → WorkValues → Bool
unfolding trim
can_submit_work kind values =
    if kind == "text_submission"
    then is_filled values.text
    else if kind == "repo_url_submission"
    then is_filled values.repo_url
    else if kind == "repo_and_live_url_submission"
    then is_filled values.repo_url && is_filled values.live_url
    else false
