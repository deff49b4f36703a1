-- ===== src/Upload/Pool.antt =====
-- The workers of `uploadMultipartToS3` in web/src/lib/uploadToS3.ts: up to three upload at a time, and
-- share a cursor into the parts. A worker runs without interruption until it waits for an upload, so
-- the program is the interleaving of the steps below. Progress reports are left out.
pub mod Picking
pub mod Order
mod Tests
use csg_learning_platform.Prelude.{
  ℕ, zero, suc, ◌+◌, ◌-◌, ◌≡◌, Bool, true, false, Option, none, some, List, [], ◌∷◌, ◌++◌,
  if◌then◌else◌, ltb, leb, length, min,
}
use csg_learning_platform.Prelude.Text.{Text}
use csg_learning_platform.Upload.Parts.{Part}
use csg_learning_platform.Upload.Mobile.{UploadedPart}

abbrev pub concurrency : ℕ
concurrency = 3

-- `waiting` holds the part of each worker that waits for its upload, `idle` counts the workers at the
-- head of their loop, and `exited` those that left it.
pub record Pool : Type 0 where
  pub cursor : ℕ
  pub waiting : List Part
  pub completed_parts : List UploadedPart
  pub idle : ℕ
  pub exited : ℕ
  pub failed : Bool

-- `Array.from({ length: Math.min(MULTIPART_CONCURRENCY, parts.length) }, …)`
abbrev pub workers : List Part → ℕ
workers parts = min concurrency (length parts)

unfoldable pub start : List Part → Pool
start parts = record {
  cursor = 0;
  waiting = [];
  completed_parts = [];
  idle = workers parts;
  exited = 0;
  failed = false;
}

-- `parts[i]`
unfoldable pub get_elem? : List Part → ℕ → Option Part
get_elem? [] i = none
get_elem? (p ∷ ps) zero = some p
get_elem? (p ∷ ps) (suc i) = get_elem? ps i

abbrev keep : Part → Option (Part × List Part) → Option (Part × List Part)
keep p none = none
keep p (some (q, qs)) = some (q, p ∷ qs)

-- The i-th element of a list, and the others.
unfoldable pub pick : ℕ → List Part → Option (Part × List Part)
pick i [] = none
pick zero (p ∷ ps) = some (p, ps)
pick (suc i) (p ∷ ps) = keep p (pick i ps)

abbrev pub take_part : Pool → Option Part → Option Pool
take_part s none = none
take_part s (some p) =
    some (record s { cursor = s.cursor + 1; idle = s.idle - 1; waiting = p ∷ s.waiting })

-- An idle worker takes the part at the cursor, or leaves its loop at the end of the parts.
unfoldable pub turn : List Part → Pool → Option Pool
turn parts s =
    if leb s.idle 0
    then none
    else if ltb s.cursor (length parts)
    then take_part s (get_elem? parts s.cursor)
    else some (record s { idle = s.idle - 1; exited = s.exited + 1 })

abbrev pub uploaded : Part → Text → UploadedPart
uploaded p etag = record { part_number = p.number; etag = etag }

abbrev pub finish : Text → Pool → Option (Part × List Part) → Option Pool
finish etag s none = none
finish etag s (some (p, rest)) = some (record s {
  waiting = rest;
  completed_parts = s.completed_parts ++ uploaded p etag ∷ [];
  idle = s.idle + 1;
})

-- The upload of a waiting worker's part resolves to its tag.
unfoldable pub resolve : ℕ → Text → Pool → Option Pool
unfolding pick
resolve i etag s = finish etag s (pick i s.waiting)

abbrev pub drop_part : Pool → Option (Part × List Part) → Option Pool
drop_part s none = none
drop_part s (some (p, rest)) = some (record s { waiting = rest; failed = true })

-- It rejects, after its attempts: the worker ends, and `Promise.all` rejects.
unfoldable pub reject : ℕ → Pool → Option Pool
unfolding pick
reject i s = drop_part s (pick i s.waiting)

pub data Step (parts : List Part) (s : Pool) : Pool → Type 0 where
  turned : {t : Pool} → turn parts s ≡ some t → Step parts s t
  resolved : {t : Pool} (i : ℕ) (etag : Text) → resolve i etag s ≡ some t → Step parts s t
  rejected : {t : Pool} (i : ℕ) → reject i s ≡ some t → Step parts s t

-- What the interleavings reach.
pub data Reach (parts : List Part) : Pool → Type 0 where
  started : Reach parts (start parts)
  next : {s t : Pool} → Reach parts s → Step parts s t → Reach parts t
