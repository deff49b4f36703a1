-- ===== src/Upload/Tests.antt =====
-- The parts of small and large files.
use csg_learning_platform.Prelude.{ℕ, ◌+◌, [], ◌∷◌, ◌≡◌, refl}
use csg_learning_platform.Upload.Parts.{build_parts, mobile_parts, part_size, parts_from}
use csg_learning_platform.Upload.Covering.{Covers, build_parts-Covers, mobile_parts-eq}

abbrev video : ℕ
video = 40000000

two_parts :
    build_parts (part_size + 1)
    ≡ record { number = 1; start = 0; finish = part_size }
      ∷ record { number = 2; start = part_size; finish = part_size + 1 }
      ∷ []
unfolding build_parts parts_from
two_parts = refl

build_parts-Covers_example : Covers 1 0 video (build_parts video)
build_parts-Covers_example = build_parts-Covers video

mobile_parts-eq_example : mobile_parts video ≡ build_parts video
mobile_parts-eq_example = mobile_parts-eq video
