-- ===== src/Upload/Pool/Tests.antt =====
-- An interleaving of the workers of web/src/lib/uploadToS3.ts.
use csg_learning_platform.Prelude.{false, List, [], ◌∷◌, refl}
use csg_learning_platform.Prelude.Text.{txt}
use csg_learning_platform.Upload.Parts.{Part}
use csg_learning_platform.Upload.Pool.{
  Pool, start, turn, resolve, get_elem?, uploaded, Reach, started, next, turned, resolved,
}

abbrev first : Part
first = record { number = 1; start = 0; finish = 10 }

abbrev second : Part
second = record { number = 2; start = 10; finish = 15 }

abbrev two : List Part
two = first ∷ second ∷ []

-- The second part is uploaded before the first.
abbrev ended : Pool
ended = record {
  cursor = 2;
  waiting = [];
  completed_parts = uploaded second (txt "b") ∷ uploaded first (txt "a") ∷ [];
  idle = 0;
  exited = 2;
  failed = false;
}

run : Reach two ended
unfolding start turn get_elem? resolve
run =
    next
      (next
        (next (next (next (next started (turned refl)) (turned refl)) (resolved 0 (txt "b") refl))
          (turned refl))
        (resolved 0 (txt "a") refl))
      (turned refl)
