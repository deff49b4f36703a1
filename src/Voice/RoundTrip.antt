-- ===== src/Voice/RoundTrip.antt =====
-- A transcript that is inserted by mobile/src/lib/voice-draft.ts can be found and put back.
use mathlib.Core.List.{append_assoc}
use csg_learning_platform.Prelude.{
  ℕ, ◌+◌, length-take, every, ◌-◌, true, false, some, [], ◌∷◌, ◌++◌, ◌≡◌, refl, sym, ap, arith,
  if◌then◌else◌, nat_beq, length, take, drop, beq_refl, length-append, take-append, drop-append,
}
use csg_learning_platform.Prelude.Text.{
  Text, text_eq, is_empty, starts_with, is_space, starts_with_append, ends_with_append,
}
use csg_learning_platform.Voice.Draft.{
  Review, Selection, Restored, unedited, leading, trailing, from, to, insert_voice_draft, slice_to,
  restored, voice_draft_segment, restore_raw_voice_draft, normalize, voice_edit_distance_bucket,
}

full-length : (s : Text) → is_empty s ≡ false → nat_beq (length s) 0 ≡ false
full-length [] h = ground arith
full-length (c ∷ s) h = ground arith

slice_between :
    (p t s : Text)
    → slice_to (p ++ t ++ s) (length p) (length (p ++ t))
      ≡ (if nat_beq (length (p ++ t)) 0 then t ++ s else t)
slice_between p t s =
    let d : drop (length p) (p ++ t ++ s) ≡ t ++ s = rw append_assoc (drop-append p (t ++ s)) in
    let n : length (p ++ t) - length p ≡ length t = omega (arith, length-append p t) in
    rw (d, n, take-append t s) refl

-- The text between the ends of a draft: whatever the user made of the transcript there, as long as
-- the draft is not the end alone.
segment_between :
    (review : Review) (text : Text)
    → is_empty (review.prefix ++ text) ≡ false
    → voice_draft_segment (review.prefix ++ text ++ review.suffix) review ≡ some text
unfolding voice_draft_segment
segment_between review text full =
    let p = review.prefix in
    let s = review.suffix in
    let begins : starts_with (p ++ text ++ s) p ≡ true =
      rw append_assoc (starts_with_append p (text ++ s)) in
    let n : length (p ++ text ++ s) - length s ≡ length (p ++ text) =
      omega (arith, length-append (p ++ text) s) in
    rw
      (
        begins,
        ends_with_append (p ++ text) s,
        n,
        slice_between p text s,
        full-length (p ++ text) full,
      )
      refl

take_first : (n : ℕ) (p m s : Text) → n ≡ length p → take n (p ++ m ++ s) ≡ p
take_first n p m s e = rw (e, append_assoc) (take-append p (m ++ s))

drop_both : (p m s : Text) → drop (length p + length m) (p ++ m ++ s) ≡ s
drop_both p m s = rw (sym (length-append p m)) (drop-append (p ++ m) s)

regroup : (p l t r s : Text) → p ++ (l ++ t ++ r) ++ s ≡ (p ++ l) ++ t ++ (r ++ s)
regroup p l t r s = simp append_assoc

leading_blank : (prefix text : Text) → every is_space (leading prefix text) ≡ true
unfolding leading is_space
leading_blank prefix text = ground arith

trailing_blank : (suffix text : Text) → every is_space (trailing suffix text) ≡ true
unfolding trailing is_space
trailing_blank suffix text = ground arith

length-before : (draft : Text) (s : Selection) → length (take (from draft s) draft) ≡ from draft s
length-before draft s = omega (arith, length-take (from draft s) draft)

-- An inserted transcript: the text before the selection stays before it, the text behind the selection
-- follows the new cursor, and between the transcript and either there is white space at most.
pub insert_voice_draft_correct :
    (draft : Text) (selection : Selection) (text : Text)
    → let r = insert_voice_draft draft selection text in
      (take (from draft selection) r.value ≡ take (from draft selection) draft)
      × (drop r.selection.finish r.value ≡ drop (to draft selection) draft)
      × (r.value ≡ r.prefix ++ text ++ r.suffix)
      × (lead : Text) × (trail : Text) × (r.prefix ≡ take (from draft selection) draft ++ lead)
      × (r.suffix ≡ trail ++ drop (to draft selection) draft)
      × (every is_space lead ≡ true)
      × (every is_space trail ≡ true)
unfolding insert_voice_draft
insert_voice_draft_correct draft selection text =
    let b : Text = take (from draft selection) draft in
    let a : Text = drop (to draft selection) draft in
    let lead : Text = leading b text in
    let trail : Text = trailing a text in
    (
      take_first (from draft selection) b (lead ++ text ++ trail) a
          (sym (length-before draft selection)),
      drop_both b (lead ++ text ++ trail) a,
      regroup b lead text trail a,
      lead,
      trail,
      refl,
      refl,
      leading_blank b text,
      trailing_blank a text,
    )

is_empty-append : (s t : Text) → is_empty t ≡ false → is_empty (s ++ t) ≡ false
is_empty-append [] t h = h
is_empty-append (c ∷ s) t h = refl

-- While the user edits the transcript only, whatever non-empty text they make of it is found, and
-- restoring puts the original transcript in its place and the cursor behind it.
pub restore_raw_voice_draft_between :
    (review : Review) (edited : Text)
    → is_empty edited ≡ false
    → (voice_draft_segment (review.prefix ++ edited ++ review.suffix) review ≡ some edited)
      × (r : Restored) × (restore_raw_voice_draft (review.prefix ++ edited ++ review.suffix) review
          ≡ some r)
      × (r.value ≡ review.prefix ++ review.raw_text ++ review.suffix)
      × (drop r.selection.finish r.value ≡ review.suffix)
unfolding restore_raw_voice_draft
restore_raw_voice_draft_between review edited full =
    let found = segment_between review edited (is_empty-append review.prefix edited full) in
    (
      found,
      _,
      ap (restored review) found,
      refl,
      drop_both review.prefix review.raw_text review.suffix,
    )

-- A transcript that was not edited counts as unedited.
voice_edit_distance_bucket_unedited :
    (to_lower_case : Text → Text) (review : Review)
    → is_empty review.suggested_text ≡ false
    → voice_edit_distance_bucket to_lower_case review
        (review.prefix ++ review.suggested_text ++ review.suffix)
      ≡ unedited
unfolding voice_edit_distance_bucket
voice_edit_distance_bucket_unedited to_lower_case review full =
    rw
      (
        segment_between review review.suggested_text
            (is_empty-append review.prefix review.suggested_text full),
        beq_refl (normalize to_lower_case review.suggested_text),
      )
      refl
