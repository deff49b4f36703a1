-- ===== src/Upload/Parts.antt =====
-- The parts of a multipart upload: `buildParts` of web/src/lib/uploadToS3.ts, and the loop bounds of
-- `uploadMultipart` in mobile/src/lib/recording-upload.ts. Both cut a file into parts of 16 MiB.
use csg_learning_platform.Prelude.{
  ℕ, zero, suc, ◌+◌, ◌-◌, ◌*◌, ◌/◌, List, [], ◌∷◌, ltb, min, if◌then◌else◌,
}

-- 16 * 1024 * 1024, 100 * 1024 * 1024 and 5 * 1024 * 1024 * 1024.
abbrev pub part_size : ℕ
part_size = 16777216

abbrev pub multipart_threshold : ℕ
multipart_threshold = 104857600

abbrev pub max_recording_size : ℕ
max_recording_size = 5368709120

pub record Part : Type 0 where
  pub number : ℕ
  pub start : ℕ
  pub finish : ℕ

abbrev pub part_of : (start number size : ℕ) → Part
part_of start number size = record {
  number = number;
  start = start;
  finish = min (start + part_size) size;
}

-- The web client's loop. Each round moves `start` by a part, so a round for each part is enough fuel.
unfoldable pub parts_from : (fuel start number size : ℕ) → List Part
parts_from zero start number size = []
parts_from (suc fuel) start number size =
    let rest = part_of start number size ∷ parts_from fuel (start + part_size) (number + 1) size in
    if ltb start size then rest else []

unfoldable pub build_parts : ℕ → List Part
unfolding parts_from
build_parts size = parts_from (size / part_size + 1) 0 1 size

-- `Math.ceil(asset.size / PART_SIZE)`
unfoldable pub total_parts : ℕ → ℕ
total_parts size = (size + (part_size - 1)) / part_size

-- The part of a round of the mobile client's loop.
unfoldable pub part_at : (size index : ℕ) → Part
part_at size index = record {
  number = index + 1;
  start = index * part_size;
  finish = min (index * part_size + part_size) size;
}

-- The rounds from `index` on, by the number that is left.
unfoldable pub mobile_parts_from : (left index size : ℕ) → List Part
unfolding part_at
mobile_parts_from zero index size = []
mobile_parts_from (suc left) index size =
    part_at size index ∷ mobile_parts_from left (index + 1) size

unfoldable pub mobile_parts : ℕ → List Part
unfolding mobile_parts_from total_parts
mobile_parts size = mobile_parts_from (total_parts size) 0 size
