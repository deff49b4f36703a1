-- ===== src/Voice/Tests.antt =====
-- A dictated word in the middle of a draft.
use csg_learning_platform.Prelude.{◌++◌, ◌≡◌, refl, true, some, [], every, take, drop}
use csg_learning_platform.Prelude.Text.{Text, txt, is_space}
use csg_learning_platform.Voice.Draft.{
  Review, Selection, Restored, insert_voice_draft, voice_draft_segment, restore_raw_voice_draft,
  begins_in_space, ends_in_space,
}
use csg_learning_platform.Voice.RoundTrip.{
  insert_voice_draft_correct, restore_raw_voice_draft_between,
}

abbrev caret : Selection
caret = record { start = 2; finish = 2 }

insert_test : (insert_voice_draft (txt "to be") caret (txt "dictate")).value ≡ txt "to dictate be"
unfolding insert_voice_draft ends_in_space begins_in_space is_space
insert_test = refl

insert_voice_draft_correct_example :
    let r = insert_voice_draft (txt "to be") caret (txt "dictate") in
    (take 2 r.value ≡ txt "to")
    × (drop r.selection.finish r.value ≡ txt " be")
    × (r.value ≡ r.prefix ++ txt "dictate" ++ r.suffix)
    × (lead : Text) × (trail : Text) × (r.prefix ≡ txt "to" ++ lead)
    × (r.suffix ≡ trail ++ txt " be")
    × (every is_space lead ≡ true)
    × (every is_space trail ≡ true)
insert_voice_draft_correct_example = insert_voice_draft_correct (txt "to be") caret (txt "dictate")

abbrev dictated : Review
dictated = record {
  raw_text = txt "dick tate";
  suggested_text = txt "dictate";
  prefix = txt "to ";
  suffix = txt " be";
}

restore_raw_voice_draft_between_example :
    (voice_draft_segment (txt "to say be") dictated ≡ some (txt "say"))
    × (r : Restored) × (restore_raw_voice_draft (txt "to say be") dictated ≡ some r)
    × (r.value ≡ txt "to dick tate be")
    × (drop r.selection.finish r.value ≡ txt " be")
restore_raw_voice_draft_between_example = restore_raw_voice_draft_between dictated (txt "say") refl

-- A transcript at the start of the draft that was deleted: the text behind it is taken for it.
deleted_transcript :
    voice_draft_segment (txt " be") (record dictated { prefix = [] }) ≡ some (txt " be")
unfolding voice_draft_segment
deleted_transcript = refl
