-- ===== src/Chat.antt =====
-- The mobile app's list of messages: mobile/src/lib/message-state.ts over the types of
-- mobile/src/lib/types.ts.
pub mod Order
pub mod Merge
pub mod Reconcile
pub mod Reactions
pub mod Undo
mod Tests
use csg_learning_platform.Prelude.{
  ℕ, ◌+◌, ◌-◌, String, Bool, true, false, not, ◌&&◌, ◌||◌, Option, none, some, List, [], ◌∷◌, ◌++◌,
  map, if◌then◌else◌, ◌==◌, nat_beq, nat_eq, string_eq, filter, any, find,
}
use csg_learning_platform.Prelude.Int.{ℤ, int_eq, ◌-ℤ◌, is_negative, is_zero}
use csg_learning_platform.Prelude.Sort.{sort}
use csg_learning_platform.Prelude.Keyed.{has_key}

-- `Pick<UserSummary, …>`.
pub record Person : Type 0 where
  pub id : ℕ
  pub full_name : String
  pub email : String
  pub role : String
  pub avatar_url : Option String

pub record MessageReaction : Type 0 where
  pub emoji : String
  pub count : ℕ
  pub reacted : Bool
  pub users : List Person

pub record Attachment : Type 0 where
  pub id : ℤ
  pub filename : String
  pub content_type : String
  pub byte_size : ℕ
  pub image : Bool
  pub url : Option String

pub record ReadReceipts : Type 0 where
  pub count : ℕ
  pub users : List Person

pub record UploadAttachmentInput : Type 0 where
  pub s3_key : String
  pub filename : String
  pub content_type : String
  pub byte_size : ℕ

pub data ClientStatus : Type 0 where
  sending failed : ClientStatus

-- An optional property (`blocked?: …`) is an `Option`, and `none` means that the property is absent.
-- Ids are integers: the app gives a message that is being sent a negative one.
pub record Message : Type 0 where
  pub id : ℤ
  pub channel_id : Option ℕ
  pub direct_conversation_id : Option ℕ
  pub parent_message_id : Option ℤ
  pub body : String
  pub mention_user_ids : List ℕ
  pub edited_at : Option String
  pub deleted_at : Option String
  pub pinned_at : Option String
  pub pinned_by_id : Option (Option ℕ)
  pub created_at : String
  pub updated_at : String
  pub mine : Bool
  pub blocked : Option Bool
  pub reactions : List MessageReaction
  pub attachments : List Attachment
  pub read_receipts : Option ReadReceipts
  pub client_status : Option ClientStatus
  pub client_error : Option String
  pub client_uploads : Option (List UploadAttachmentInput)
  pub reply_count : Option ℕ
  pub author : Person

pub data EventKind : Type 0 where
  created updated deleted : EventKind

-- The two ids of the conversation are read by other code.
pub record MessageEvent : Type 0 where
  pub event : EventKind
  pub channel_id : Option ℕ
  pub direct_conversation_id : Option ℕ
  pub message : Message

abbrev pub or_present {ℓ} : {A : Type ℓ} → Option A → Option A → Option A
or_present old none = old
or_present old (some a) = some a

-- `{ ...message, ...incoming }`: a property that `incoming` lacks keeps its value.
unfoldable pub spread : Message → Message → Message
spread old new = record new {
  pinned_by_id = or_present old.pinned_by_id new.pinned_by_id;
  blocked = or_present old.blocked new.blocked;
  read_receipts = or_present old.read_receipts new.read_receipts;
  client_status = or_present old.client_status new.client_status;
  client_error = or_present old.client_error new.client_error;
  client_uploads = or_present old.client_uploads new.client_uploads;
  reply_count = or_present old.reply_count new.reply_count;
}

abbrev pub message_id : Message → ℤ
message_id m = m.id

-- `pinned_at` is truthy: neither null nor empty.
abbrev pub is_truthy : Option String → Bool
is_truthy none = false
is_truthy (some s) = not (s == "")

-- The difference of two times, where `none` is NaN.
abbrev pub time_difference : Option ℤ → Option ℤ → Option ℤ
time_difference (some a) (some b) = some (a -ℤ b)
time_difference (some a) none = none
time_difference none b = none

-- `time || ids`: NaN and 0 are falsy.
abbrev pub or_else : Option ℤ → ℤ → ℤ
or_else none ids = ids
or_else (some time) ids = if is_zero time then ids else time

-- `messages.map((message) => message.id === incoming.id ? { ...message, ...incoming } : message)`
unfoldable pub replace_message : Message → Message → Message
replace_message incoming message =
    if message.id == incoming.id then spread message incoming else message

-- `new Date(s).getTime()` is the platform's: milliseconds since 1970, or `none` for NaN.
module _ (get_time : String → Option ℤ) where
  -- The comparator of `sortMessages`.
  unfoldable pub compare_messages : Message → Message → ℤ
  compare_messages left right =
      or_else (time_difference (get_time left.created_at) (get_time right.created_at))
        (left.id -ℤ right.id)

  abbrev pub precedes : Message → Message → Bool
  precedes a b = is_negative (compare_messages a b)

  unfoldable pub sort_messages : List Message → List Message
  sort_messages messages = sort precedes messages

  unfoldable pub merge_event : EventKind → Message → List Message → List Message
  merge_event created incoming messages =
      if has_key message_id incoming.id messages
      then map (replace_message incoming) messages
      else sort_messages (messages ++ incoming ∷ [])
  merge_event deleted incoming messages = filter (λ m. not (m.id == incoming.id)) messages
  merge_event updated incoming messages = map (replace_message incoming) messages

  unfoldable pub merge_message_event : List Message → MessageEvent → List Message
  unfolding merge_event
  merge_message_event messages payload = merge_event payload.event payload.message messages

  unfoldable pub reconcile_optimistic : List Message → ℤ → Message → List Message
  reconcile_optimistic messages optimistic_id canonical = sort_messages (
      filter (λ m. not (m.id == optimistic_id) && not (m.id == canonical.id)) messages
      ++ canonical ∷ [])

  unfoldable pub prepend_older_messages : List Message → List Message → List Message
  prepend_older_messages current older =
      sort_messages (filter (λ m. not (has_key message_id m.id current)) older ++ current)

abbrev pub is_deleted : EventKind → Bool
is_deleted deleted = true
is_deleted _ = false

unfoldable pub merge_pinned_message_event : List Message → MessageEvent → List Message
merge_pinned_message_event messages payload =
    let without = filter (λ m. not (m.id == payload.message.id)) messages in
    if not (is_deleted payload.event) && is_truthy payload.message.pinned_at
    then payload.message ∷ without
    else without

abbrev pub reaction_emoji : MessageReaction → String
reaction_emoji r = r.emoji

abbrev pub person_id : Person → ℕ
person_id p = p.id

-- The reaction of the emoji, when the user takes it back and others remain.
unfoldable pub without_own : Person → ℕ → MessageReaction → MessageReaction
without_own user count r = record r {
  count = count;
  reacted = false;
  users = filter (λ p. not (p.id == user.id)) r.users;
}

unfoldable pub with_own : Person → MessageReaction → MessageReaction
with_own user r = record r {
  count = r.count + 1;
  reacted = true;
  users = if any (λ p. p.id == user.id) r.users then r.users else r.users ++ user ∷ [];
}

abbrev pub on_emoji :
    String → (MessageReaction → MessageReaction) → MessageReaction → MessageReaction
on_emoji emoji f r = if r.emoji == emoji then f r else r

-- The branches of `toggleOwnReaction`, on the reaction that `find` gives. Counts are numbers from
-- 0 on, so `Math.max(0, count - 1)` is the difference that stops at 0.
unfoldable pub toggle_selected :
    Option MessageReaction → String → Person → List MessageReaction → List MessageReaction
unfolding without_own with_own
toggle_selected none emoji user reactions =
    reactions ++ record { emoji = emoji; count = 1; reacted = true; users = user ∷ [] } ∷ []
toggle_selected (some selected) emoji user reactions =
    if selected.reacted
    then (if nat_beq (selected.count - 1) 0
        then filter (λ r. not (r.emoji == emoji)) reactions
        else map (on_emoji emoji (without_own user (selected.count - 1))) reactions)
    else map (on_emoji emoji (with_own user)) reactions

unfoldable pub toggle_own_reaction : Message → String → Person → Message
unfolding toggle_selected
toggle_own_reaction message emoji user = record message {
  reactions =
      toggle_selected (find (λ r. r.emoji == emoji) message.reactions) emoji user message.reactions;
}
