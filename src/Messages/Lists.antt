-- ===== src/Messages/Lists.antt =====
-- The lists of the web client's messages page (web/src/pages/shared/Messages.tsx) over the types of
-- web/src/types/api.ts: the conversation, its pinned messages, and the event that changes both.
use csg_learning_platform.Prelude.{
  ℕ, zero, suc, String, Bool, true, false, not, ◌&&◌, ◌||◌, Option, none, some, List, [], ◌∷◌, ◌++◌,
  map, if◌then◌else◌, ◌==◌, nat_beq, nat_eq, string_eq, ltb, find, filter,
}
use csg_learning_platform.Prelude.Int.{ℤ, pos, ◌-ℤ◌, is_negative, is_zero, ltb_ℤ, int_eq}
use csg_learning_platform.Prelude.Sort.{sort}
use csg_learning_platform.Prelude.Keyed.{has_key}

pub record MessageAttachment : Type 0 where
  pub id : ℕ
  pub filename : String
  pub content_type : String
  pub byte_size : ℕ
  pub image : Bool
  pub url : Option String

pub record Member : Type 0 where
  pub id : ℕ
  pub full_name : String
  pub avatar_url : Option String

pub record MessageReaction : Type 0 where
  pub emoji : String
  pub count : ℕ
  pub reacted : Bool
  pub users : List Member

pub record ReadReceipts : Type 0 where
  pub count : ℕ
  pub users : List Member

pub record Author : Type 0 where
  pub id : ℕ
  pub full_name : String
  pub email : String
  pub role : String
  pub avatar_url : Option String

-- Ids are integers: a message that is being sent has a negative one.
pub record ChannelMessage : Type 0 where
  pub id : ℤ
  pub channel_id : Option ℕ
  pub direct_conversation_id : Option ℕ
  pub parent_message_id : Option ℤ
  pub body : String
  pub mention_user_ids : List ℕ
  pub edited_at : Option String
  pub deleted_at : Option String
  pub pinned_at : Option String
  pub pinned_by_id : Option ℕ
  pub created_at : String
  pub updated_at : String
  pub mine : Bool
  pub blocked : Option Bool
  pub attachments : List MessageAttachment
  pub reactions : List MessageReaction
  pub read_receipts : Option ReadReceipts
  pub author : Author

pub record LatestMessage : Type 0 where
  pub id : ℕ
  pub body : String
  pub created_at : String
  pub author_name : String

pub data WorkspaceType : Type 0 where
  cohort community : WorkspaceType

pub data Visibility : Type 0 where
  everyone_in_cohort staff_only : Visibility

pub data ConversationStatus : Type 0 where
  active archived : ConversationStatus

pub record ChannelSummary : Type 0 where
  pub id : ℕ
  pub workspace_id : ℕ
  pub workspace_name : String
  pub workspace_type : WorkspaceType
  pub cohort_id : Option ℕ
  pub cohort_name : Option String
  pub name : String
  pub description : Option String
  pub visibility : Visibility
  pub status : ConversationStatus
  pub position : ℕ
  pub muted : Bool
  pub unread_count : ℕ
  pub last_read_at : Option String
  pub latest_message : Option LatestMessage
  pub created_at : String
  pub updated_at : String

pub record UserSummary : Type 0 where
  pub id : ℕ
  pub full_name : String
  pub email : String
  pub role : String
  pub avatar_url : Option String
  pub archived_at : Option (Option String)
  pub is_admin : Bool
  pub is_staff : Bool

pub record DirectConversationSummary : Type 0 where
  pub id : ℕ
  pub workspace_id : ℕ
  pub workspace_name : String
  pub workspace_type : WorkspaceType
  pub cohort_id : Option ℕ
  pub cohort_name : Option String
  pub title : String
  pub status : ConversationStatus
  pub muted : Bool
  pub unread_count : ℕ
  pub last_read_at : Option String
  pub latest_message : Option LatestMessage
  pub users : List UserSummary
  pub created_at : String
  pub updated_at : String

pub data Target : Type 0 where
  channel dm : ℕ → Target

pub data EventKind : Type 0 where
  created updated deleted : EventKind

abbrev pub message_id : ChannelMessage → ℤ
message_id m = m.id

-- A text that is neither null nor empty.
abbrev pub is_set : Option String → Bool
is_set none = false
is_set (some s) = not (s == "")

abbrev string_or : Option String → String → String
string_or none other = other
string_or (some s) other = if s == "" then other else s

-- `existingReaction?.reacted`
abbrev pub was_reacted : String → List MessageReaction → Bool
was_reacted emoji reactions = elim (find (λ r. r.emoji == emoji) reactions) [
  | none ↦ false
  | some r ↦ r.reacted
]

abbrev pub keep_own : List MessageReaction → MessageReaction → MessageReaction
keep_own existing r =
    if was_reacted r.emoji existing && not r.reacted then record r { reacted = true } else r

unfoldable pub merge_incoming_message : ChannelMessage → ChannelMessage → ChannelMessage
merge_incoming_message existing incoming = record incoming {
  reactions = map (keep_own existing.reactions) incoming.reactions;
}

-- The comparator's result is negative: NaN is not, and a difference of 0 leaves it to the ids.
abbrev pub delta_negative : Option ℤ → Option ℤ → ℤ → ℤ → Bool
delta_negative (some a) (some b) i j =
    if is_zero (a -ℤ b) then is_negative (i -ℤ j) else is_negative (a -ℤ b)
delta_negative (some a) none i j = false
delta_negative none b i j = false

-- `while (current?.parent_message_id) current = messagesById.get(…)`, by fuel: `none` if it runs out,
-- and else what `current` is then.
unfoldable pub find_root :
    (fuel : ℕ) → List ChannelMessage → Option ChannelMessage → Option (Option ChannelMessage)
find_root fuel messages none = some none
find_root zero messages (some current) = none
find_root (suc fuel) messages (some current) = elim current.parent_message_id [
  | none ↦ some (some current)
  | some parent ↦
      if is_zero parent
      then some (some current)
      else find_root fuel messages (find (λ m. m.id == parent) messages)
]

-- `current?.id || message.id`
abbrev pub id_or : ℤ → Option ChannelMessage → ℤ
id_or id none = id
id_or id (some m) = if is_zero m.id then id else m.id

abbrev pub map_id : ℤ → Option (Option ChannelMessage) → Option ℤ
map_id id none = none
map_id id (some root) = some (id_or id root)

unfoldable pub root_message_id_for : ℕ → ChannelMessage → List ChannelMessage → Option ℤ
unfolding find_root
root_message_id_for fuel message messages =
    map_id message.id (find_root fuel messages (some message))

-- `getTime` gives milliseconds or `none` for NaN; `toDateString` is the day in the local time.
module _ (get_time : String → Option ℤ) (to_date_string : String → String) where
  abbrev distance : Option ℤ → Option ℤ → Bool
  distance (some a) (some b) =
      not (ltb_ℤ (pos 300000) (a -ℤ b)) && not (ltb_ℤ (pos 300000) (b -ℤ a))
  distance (some a) none = false
  distance none b = false

  unfoldable pub close_in_time : String → String → Bool
  close_in_time left right = distance (get_time left) (get_time right)

  unfoldable pub should_compact_message : ChannelMessage → Option ChannelMessage → Bool
  unfolding close_in_time
  should_compact_message message none = false
  should_compact_message message (some previous) =
      nat_beq previous.author.id message.author.id
      && not (is_set previous.pinned_at)
      && not (is_set message.pinned_at)
      && to_date_string previous.created_at == to_date_string message.created_at
      && close_in_time previous.created_at message.created_at

  abbrev pub is_earlier : ChannelMessage → ChannelMessage → Bool
  is_earlier a b = delta_negative (get_time a.created_at) (get_time b.created_at) a.id b.id

  unfoldable pub sort_chronological_messages : List ChannelMessage → List ChannelMessage
  sort_chronological_messages items = sort is_earlier items

  abbrev pin_time : ChannelMessage → Option ℤ
  pin_time m = get_time (string_or m.pinned_at m.created_at)

  abbrev pub is_pinned_later : ChannelMessage → ChannelMessage → Bool
  is_pinned_later a b = delta_negative (pin_time b) (pin_time a) b.id a.id

  unfoldable pub sort_pinned_messages : List ChannelMessage → List ChannelMessage
  sort_pinned_messages items = sort is_pinned_later items

  abbrev pub replaced : ChannelMessage → ChannelMessage → ChannelMessage
  replaced incoming item =
      if item.id == incoming.id then merge_incoming_message item incoming else item

  -- Both lists replace the message that they have, or add it.
  abbrev pub upsert : List ChannelMessage → ChannelMessage → List ChannelMessage
  upsert items incoming =
      if has_key message_id incoming.id items
      then map (replaced incoming) items
      else items ++ incoming ∷ []

  unfoldable pub upsert_pinned_message : List ChannelMessage → ChannelMessage → List ChannelMessage
  upsert_pinned_message items incoming =
      if not (is_set incoming.pinned_at) || is_set incoming.deleted_at
      then filter (λ m. not (m.id == incoming.id)) items
      else sort_pinned_messages (upsert items incoming)

  -- The updates of `setMessages` and `setPinnedMessages` on an event.
  unfoldable pub receive_message :
      EventKind → List ChannelMessage → ChannelMessage → List ChannelMessage
  receive_message deleted items incoming = filter (λ m. not (m.id == incoming.id)) items
  receive_message created items incoming = sort_chronological_messages (upsert items incoming)
  receive_message updated items incoming = sort_chronological_messages (upsert items incoming)

  unfoldable pub receive_pinned :
      EventKind → List ChannelMessage → ChannelMessage → List ChannelMessage
  unfolding upsert_pinned_message
  receive_pinned deleted items incoming = filter (λ m. not (m.id == incoming.id)) items
  receive_pinned created items incoming = upsert_pinned_message items incoming
  receive_pinned updated items incoming = upsert_pinned_message items incoming

  abbrev time_of : Option LatestMessage → Option ℤ
  time_of none = some (pos 0)
  time_of (some m) = get_time m.created_at

  abbrev channel_target : ChannelSummary → Target × Option ℤ
  channel_target c = (channel c.id, time_of c.latest_message)

  abbrev dm_target : DirectConversationSummary → Target × Option ℤ
  dm_target c = (dm c.id, time_of c.latest_message)

  abbrev is_later : Target × Option ℤ → Target × Option ℤ → Bool
  is_later left right = delta_negative right.1 left.1 (pos 0) (pos 0)

  abbrev first_dm : List DirectConversationSummary → Option Target
  first_dm [] = none
  first_dm (d ∷ ds) = some (dm d.id)

  abbrev first_target : List ChannelSummary → List DirectConversationSummary → Option Target
  first_target [] dms = first_dm dms
  first_target (c ∷ cs) dms = some (channel c.id)

  abbrev target_or : List (Target × Option ℤ) → Option Target → Option Target
  target_or [] other = other
  target_or ((t, at) ∷ ts) other = some t

  unfoldable pub initial_message_target :
      List ChannelSummary → List DirectConversationSummary → Option Target
  initial_message_target channels dms =
      target_or
        (sort is_later (
          map channel_target (filter (λ c. ltb 0 c.unread_count) channels)
          ++ map dm_target (filter (λ c. ltb 0 c.unread_count) dms)))
        (first_target channels dms)
