-- ===== src/Voice/Draft.antt =====
-- mobile/src/lib/voice-draft.ts: a transcript goes into the draft at the selection, is found again
-- after the user's edits, and can be put back as it was dictated.
use csg_learning_platform.Prelude.{
  ℕ, ◌+◌, ◌-◌, ◌*◌, Bool, true, false, not, ◌&&◌, ◌||◌, Option, none, some, List, [], ◌∷◌, ◌++◌,
  if◌then◌else◌, ◌==◌, nat_beq, leb, length, take, drop, any, filter, min, max,
}
use csg_learning_platform.Prelude.Text.{
  Text, text_eq, is_empty, starts_with, ends_with, slice, is_space, trim,
}

pub record Review : Type 0 where
  pub raw_text : Text
  pub suggested_text : Text
  pub prefix : Text
  pub suffix : Text

pub record Selection : Type 0 where
  pub start : ℕ
  pub finish : ℕ

pub record Inserted : Type 0 where
  pub value : Text
  pub selection : Selection
  pub prefix : Text
  pub suffix : Text

pub record Restored : Type 0 where
  pub value : Text
  pub selection : Selection

abbrev pub blank_line : Text
blank_line = 10 ∷ 10 ∷ []

-- `text.includes('\n')`
abbrev pub is_multiline : Text → Bool
is_multiline text = any (nat_beq 10) text

-- `/\s$/.test(s)` and `/^\s/.test(s)`.
unfoldable pub ends_in_space : Text → Bool
ends_in_space [] = false
ends_in_space (c ∷ []) = is_space c
ends_in_space (_ ∷ d ∷ s) = ends_in_space (d ∷ s)

unfoldable pub begins_in_space : Text → Bool
begins_in_space [] = false
begins_in_space (c ∷ _) = is_space c

-- What goes between the text before the selection and the transcript, and between it and the rest.
unfoldable pub leading : Text → Text → Text
leading prefix text =
    if is_empty prefix
    then []
    else if is_multiline text
    then (if ends_with prefix blank_line then [] else blank_line)
    else if ends_in_space prefix
    then []
    else b' ' ∷ []

unfoldable pub trailing : Text → Text → Text
trailing suffix text =
    if is_empty suffix
    then []
    else if is_multiline text
    then (if starts_with suffix blank_line then [] else blank_line)
    else if begins_in_space suffix
    then []
    else b' ' ∷ []

abbrev pub at : ℕ → Selection
at n = record { start = n; finish = n }

abbrev pub place : (prefix suffix text lead trail : Text) → Inserted
place prefix suffix text lead trail = record {
  value = prefix ++ (lead ++ text ++ trail) ++ suffix;
  selection = at (length prefix + length (lead ++ text ++ trail));
  prefix = prefix ++ lead;
  suffix = trail ++ suffix;
}

-- The ends of the selection within the draft.
abbrev pub from : Text → Selection → ℕ
from draft s = min s.start (length draft)

abbrev pub to : Text → Selection → ℕ
to draft s = max (from draft s) (min s.finish (length draft))

unfoldable pub insert_voice_draft : Text → Selection → Text → Inserted
unfolding leading trailing
insert_voice_draft draft selection text =
    let prefix = take (from draft selection) draft in
    let suffix = drop (to draft selection) draft in
    place prefix suffix text (leading prefix text) (trailing suffix text)

-- `draft.slice(start, end || undefined)`: an end of 0 is the end of the draft.
abbrev pub slice_to : Text → ℕ → ℕ → Text
slice_to draft start finish =
    if nat_beq finish 0 then drop start draft else slice draft start finish

-- The end is `draft.length - suffix.length`, which is not negative after the test.
unfoldable pub voice_draft_segment : Text → Review → Option Text
voice_draft_segment draft review =
    if not (starts_with draft review.prefix) || not (ends_with draft review.suffix)
    then none
    else some (slice_to draft (length review.prefix) (length draft - length review.suffix))

abbrev pub restored : Review → Option Text → Option Restored
restored review none = none
restored review (some current) = some record {
  value = review.prefix ++ review.raw_text ++ review.suffix;
  selection = at (length review.prefix + length review.raw_text);
}

unfoldable pub restore_raw_voice_draft : Text → Review → Option Restored
unfolding voice_draft_segment
restore_raw_voice_draft draft review = restored review (voice_draft_segment draft review)

pub data Distance : Type 0 where
  unedited light substantial : Distance

abbrev pub is_word_char : ℕ → Bool
is_word_char c = (leb b'a' c && leb c b'z') || (leb b'0' c && leb c b'9')

-- `value.replace(/[^a-z0-9]+/g, ' ')`; the flag says that the run before has its blank.
unfoldable pub collapse : Bool → Text → Text
collapse in_run [] = []
collapse in_run (c ∷ s) =
    let word = c ∷ collapse false s in
    let run = collapse true s in if is_word_char c then word else if in_run then run else b' ' ∷ run

-- `value.split(' ')`: the pieces, the first one apart.
unfoldable pub split_blank : Text → Text × List Text
split_blank [] = ([], [])
split_blank (c ∷ s) =
    let (piece, pieces) = split_blank s in
    if nat_beq c b' ' then ([], piece ∷ pieces) else (c ∷ piece, pieces)

abbrev pub pieces : Text × List Text → List Text
pieces (piece, rest) = piece ∷ rest

abbrev pub contains : List Text → Text → Bool
contains ws w = any (λ v. v == w) ws

-- `shared / max ≥ 0.75`
abbrev pub bucket_of : (original edited : List Text) → Distance
bucket_of original edited =
    let shared = length (filter (contains edited) original) in
    if leb (3 * max (length original) (length edited)) (4 * shared) then light else substantial

-- `toLowerCase` is the platform's.
module _ (to_lower_case : Text → Text) where
  unfoldable pub normalize : Text → Text
  unfolding collapse trim
  normalize value = trim (collapse false (to_lower_case (trim value)))

  abbrev compare_texts : Text → Text → Distance
  compare_texts original edited =
      if original == edited
      then unedited
      else if is_empty original || is_empty edited
      then substantial
      else bucket_of (pieces (split_blank original)) (pieces (split_blank edited))

  abbrev distance_of : Review → Option Text → Distance
  distance_of review none = substantial
  distance_of review (some current) =
      compare_texts (normalize review.suggested_text) (normalize current)

  unfoldable pub voice_edit_distance_bucket : Review → Text → Distance
  unfolding normalize voice_draft_segment split_blank
  voice_edit_distance_bucket review draft = distance_of review (voice_draft_segment draft review)
