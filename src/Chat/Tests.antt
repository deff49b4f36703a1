-- ===== src/Chat/Tests.antt =====
-- Runs of the functions of mobile/src/lib/message-state.ts on small lists.
use mathlib.Core.List.{Perm}
use csg_learning_platform.Prelude.{
  ◌++◌, filter, String, true, false, not, ◌&&◌, ◌||◌, Option, some, none, List, [], ◌∷◌, map, ◌≡◌,
  ◌≢◌, refl, if◌then◌else◌, ◌==◌, string_eq, arith,
}
use csg_learning_platform.Prelude.Int.{ℤ, pos, negsuc, int_eq, ◌-ℤ◌}
use csg_learning_platform.Prelude.Sort.{IsSorted, sort}
use csg_learning_platform.Prelude.Keyed.{has_key, UniqueKeys}
use csg_learning_platform.Chat.{
  Person, MessageReaction, Message, MessageEvent, created, message_id, sort_messages,
  compare_messages, merge_message_event, reconcile_optimistic, toggle_own_reaction,
}
use csg_learning_platform.Chat.Order.{is_before}
use csg_learning_platform.Chat.Merge.{occurs_after, merge_message_event_correct}
use csg_learning_platform.Chat.Merge.{merge_message_event_idempotent}
use csg_learning_platform.Chat.Reconcile.{reconcile_optimistic_correct}
use csg_learning_platform.Chat.Reactions.{
  reaction_of, has_reacted, IsTidy, toggle_own_reaction_correct,
}
use csg_learning_platform.Chat.Undo.{toggle_own_reaction_twice}

abbrev ana : Person
ana = record { id = 7; full_name = "Ana"; email = "ana@x.org"; role = "student"; avatar_url = none }

abbrev thumbs : MessageReaction
thumbs = record { emoji = "+1"; count = 1; reacted = false; users = ana ∷ [] }

abbrev message : ℤ → String → Message
message id at = record {
  id = id;
  channel_id = some 1;
  direct_conversation_id = none;
  parent_message_id = none;
  body = "hi";
  mention_user_ids = [];
  edited_at = none;
  deleted_at = none;
  pinned_at = some "t2";
  pinned_by_id = none;
  created_at = at;
  updated_at = at;
  mine = true;
  blocked = none;
  reactions = thumbs ∷ [];
  attachments = [];
  read_receipts = none;
  client_status = none;
  client_error = none;
  client_uploads = none;
  reply_count = none;
  author = ana;
}

abbrev bo : Person
bo = record { id = 8; full_name = "Bo"; email = "bo@x.org"; role = "student"; avatar_url = none }

-- The times of the runs.
abbrev time_of : String → Option ℤ
time_of s = if s == "t1" then some (pos 1) else if s == "t2" then some (pos 2) else none

abbrev late : List Message
late = message (pos 3) "t2" ∷ message (negsuc 0) "t1" ∷ []

abbrev sent_now : MessageEvent
sent_now = record {
  event = created;
  channel_id = some 1;
  direct_conversation_id = none;
  message = message (pos 5) "t1";
}

sort_messages_test : map message_id (sort_messages time_of late) ≡ negsuc 0 ∷ pos 3 ∷ []
unfolding sort_messages sort compare_messages ◌-ℤ◌
sort_messages_test = refl

merge_message_event_test :
    map message_id (merge_message_event time_of late sent_now) ≡ negsuc 0 ∷ pos 5 ∷ pos 3 ∷ []
unfolding merge_message_event sort_messages sort compare_messages ◌-ℤ◌
merge_message_event_test = refl

merge_message_event_correct_example :
    ((j : ℤ)
      → has_key message_id j (merge_message_event time_of late sent_now) ≡ (
          if j == pos 5
          then occurs_after created (has_key message_id j late)
          else has_key message_id j late))
    × UniqueKeys message_id (merge_message_event time_of late sent_now)
merge_message_event_correct_example =
    merge_message_event_correct time_of late sent_now (refl, (refl, tt))

merge_message_event_idempotent_example :
    merge_message_event time_of (merge_message_event time_of late sent_now) sent_now
    ≡ merge_message_event time_of late sent_now
merge_message_event_idempotent_example = merge_message_event_idempotent time_of late sent_now

reconcile_optimistic_correct_example :
    ((j : ℤ)
      → has_key message_id j (reconcile_optimistic time_of late (negsuc 0) (message (pos 5) "t1"))
        ≡ (j == pos 5 || (not (j == negsuc 0) && has_key message_id j late)))
    × Perm
        (reconcile_optimistic time_of late (negsuc 0) (message (pos 5) "t1"))
        (filter (λ m. not (m.id == negsuc 0 || m.id == pos 5)) late ++ message (pos 5) "t1" ∷ [])
    × UniqueKeys message_id (reconcile_optimistic time_of late (negsuc 0) (message (pos 5) "t1"))
    × IsSorted
        (is_before time_of)
        (reconcile_optimistic time_of late (negsuc 0) (message (pos 5) "t1"))
reconcile_optimistic_correct_example =
    reconcile_optimistic_correct time_of late (negsuc 0) (message (pos 5) "t1") (refl, (refl, tt))
      (refl, (refl, tt)) refl

thumbs-IsTidy : IsTidy (thumbs ∷ [])
thumbs-IsTidy = record { unique = (refl, tt); counted = (omega arith, tt) }

toggle_own_reaction_correct_example :
    ((has_reacted (reaction_of "+1" (toggle_own_reaction (message (pos 3) "t1") "+1" bo).reactions)
        ≡ not (has_reacted (some thumbs)))
      × ((k : String)
          → k ≢ "+1"
          → reaction_of k (toggle_own_reaction (message (pos 3) "t1") "+1" bo).reactions
            ≡ reaction_of k (thumbs ∷ [])))
    × IsTidy (toggle_own_reaction (message (pos 3) "t1") "+1" bo).reactions
toggle_own_reaction_correct_example =
    toggle_own_reaction_correct (message (pos 3) "t1") "+1" bo thumbs-IsTidy

toggle_own_reaction_twice_example :
    toggle_own_reaction (toggle_own_reaction (message (pos 3) "t1") "+1" bo) "+1" bo
    ≡ message (pos 3) "t1"
toggle_own_reaction_twice_example =
    toggle_own_reaction_twice (message (pos 3) "t1") "+1" bo thumbs-IsTidy refl refl
