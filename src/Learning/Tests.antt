-- ===== src/Learning/Tests.antt =====
-- A lesson with two blocks of which one is completed.
use csg_learning_platform.Prelude.{ℕ, ◌*◌, List, [], ◌∷◌, ◌≡◌, refl, true, none, some}
use csg_learning_platform.Learning.{Block, lesson_completion}

abbrev lesson : List Block
lesson =
    record {
      block_type = "video";
      completion_required = true;
      submission_type = none;
      progress = some "completed";
    }
    ∷ record {
      block_type = "exercise";
      completion_required = true;
      submission_type = none;
      progress = none;
    }
    ∷ []

-- The roundings of 0 of 2, 1 of 2 and 2 of 2.
abbrev halves : (completed total : ℕ) → ℕ
halves completed total = 50 * completed

half : (lesson_completion halves lesson).percentage ≡ 50
unfolding lesson_completion
half = refl
