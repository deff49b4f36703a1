-- ===== src/Upload/Covering.antt =====
-- The parts of a file cover it.
use mathlib.Core.Path.{subst}
use csg_learning_platform.Prelude.{
  ℕ, zero, suc, ◌+◌, ◌-◌, ◌*◌, ◌/◌, ◌<◌, ◌≤◌, List, [], ◌∷◌, ◌≡◌, ◌↔◌, lt→ltb, refl, ap, sym, ◌∙◌,
  arith, ltb, length, true, Bool-cases, inl, inr,
}
use csg_learning_platform.Upload.Parts.{
  part_size, part_of, max_recording_size, Part, parts_from, build_parts, total_parts, part_at,
  mobile_parts_from, mobile_parts,
}

-- From a position on, parts numbered from `number` follow one another without a gap or an overlap,
-- none empty or larger than 16 MiB, up to the end of the file.
abbrev pub Covers : (number at size : ℕ) → List Part → Type 0
Covers number at size [] = at ≡ size
Covers number at size (p ∷ ps) =
    (p.number ≡ number)
    × (p.start ≡ at)
    × (at < p.finish)
    × (p.finish ≤ at + part_size)
    × Covers (number + 1) p.finish size ps

parts_from_done :
    (fuel start number size : ℕ) → size ≤ start → parts_from fuel start number size ≡ []
unfolding parts_from
parts_from_done zero start number size h = refl
parts_from_done (suc fuel) start number size h = ground arith

Covers-at :
    (number at at' size : ℕ) (ps : List Part)
    → at ≡ at'
    → Covers number at size ps
    → Covers number at' size ps
Covers-at number at at' size ps e h = subst (λ k. Covers number k size ps) e h

-- Enough fuel is one round for each part that begins before the end.
parts_from-Covers :
    (fuel start number size : ℕ)
    → start ≤ size
    → size < start + fuel * part_size + 1
    → Covers number start size (parts_from fuel start number size)
unfolding parts_from
parts_from-Covers zero start number size h f = omega arith
parts_from-Covers (suc fuel) start number size h f = elim (Bool-cases (ltb start size)) [
  | inr done ↦ rw done (ground arith)
  | inl more ↦ rw more (
    refl,
    refl,
    ground arith,
    ground arith,
    elim (Bool-cases (ltb (start + part_size) size)) [
      | inl again ↦ Covers-at _ (start + part_size) _ size _ (ground arith) (
          parts_from-Covers fuel (start + part_size) (number + 1) size (ground arith) (omega arith))
      | inr last ↦
          rw (parts_from_done fuel (start + part_size) (number + 1) size (ground arith))
            (ground arith)
    ],
  )
]

mobile_parts_from-eq :
    (left fuel index size : ℕ)
    → left ≤ fuel
    → size ≤ (index + left) * part_size
    → (index + left) * part_size < size + part_size
    → parts_from fuel (index * part_size) (index + 1) size ≡ mobile_parts_from left index size
unfolding mobile_parts_from parts_from part_at
mobile_parts_from-eq zero fuel index size f h k =
    parts_from_done fuel (index * part_size) (index + 1) size (omega arith)
mobile_parts_from-eq (suc left) zero index size f h k = absurd (omega arith)
mobile_parts_from-eq (suc left) (suc fuel) index size f h k =
    let more : ltb (index * part_size) size ≡ true = lt→ltb _ _ (omega arith) in
    let next : index * part_size + part_size ≡ (index + 1) * part_size = omega arith in
    rw more (
      ap (λ ps. part_of (index * part_size) (index + 1) size ∷ ps)
        (ap (λ at. parts_from fuel at (index + 1 + 1) size) next
          ∙ mobile_parts_from-eq left fuel (index + 1) size (omega arith) (omega arith)
              (omega arith)))

length-mobile_parts_from : (left index size : ℕ) → length (mobile_parts_from left index size) ≡ left
unfolding mobile_parts_from
length-mobile_parts_from zero index size = refl
length-mobile_parts_from (suc left) index size =
    ap suc (length-mobile_parts_from left (index + 1) size)

-- The web client's parts, numbered from 1, follow one another from the first byte of the file to its
-- end without a gap or an overlap; none is empty or larger than 16 MiB.
pub build_parts-Covers : (size : ℕ) → Covers 1 0 size (build_parts size)
unfolding build_parts
build_parts-Covers size =
    parts_from-Covers (size / part_size + 1) 0 1 size (omega arith) (omega arith)

-- The two clients cut every file into the same parts.
pub mobile_parts-eq : (size : ℕ) → mobile_parts size ≡ build_parts size
unfolding build_parts mobile_parts total_parts
mobile_parts-eq size = sym (
    mobile_parts_from-eq ((size + (part_size - 1)) / part_size) (size / part_size + 1) 0 size
      (omega arith) (omega arith) (omega arith))

-- A recording that the mobile client accepts has at most 320 parts (the storage service's limit is
-- 10,000), and an empty file has none.
mobile_parts_bounds :
    (size : ℕ)
    → size ≤ max_recording_size
    → (length (mobile_parts size) ≤ 320) × ((length (mobile_parts size) ≡ 0) ↔ (size ≡ 0))
unfolding mobile_parts total_parts
mobile_parts_bounds size h =
    let n = length-mobile_parts_from ((size + (part_size - 1)) / part_size) 0 size in
    (rw n (omega arith), ((λ e. omega arith), (λ e. rw n (omega arith))))
