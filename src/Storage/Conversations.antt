-- ===== src/Storage/Conversations.antt =====
-- Drafts and failed messages: mobile/src/lib/conversation-storage.ts. A message object is its JSON
-- fields; JSON.parse gives `none` where it throws.
use csg_learning_platform.Prelude.{
  ℕ, Bool, false, Option, none, some, List, [], ◌∷◌, map, if◌then◌else◌, ◌==◌, filter, any,
}
use csg_learning_platform.Prelude.Text.{Text, txt, text_eq, is_empty, starts_with, trim}
use csg_learning_platform.Json.{Json, null, str, arr, obj, Fields, items, of_list, property}
use csg_learning_platform.Storage.{KeyValueStore, or_empty}
use csg_learning_platform.Storage.Keys.{
  ConversationKind, draft_name, failed_name, thread_name, user_key, conversation_draft_key,
  failed_messages_key, thread_draft_key,
}

-- `message.client_status === 'failed'`; reading a property of null throws.
abbrev pub is_text : Text → Option Json → Bool
is_text s (some (str t)) = t == s
is_text s _ = false

abbrev pub has_failed : Json → Bool
has_failed m = is_text (txt "failed") (property (txt "client_status") m)

-- `messages.filter(…)` over values of any kind; `none` where it throws.
abbrev pub keep_message : Json → Option (List Json) → Option (List Json)
keep_message null rest = none
keep_message m none = none
keep_message m (some ms) = some (if has_failed m then m ∷ ms else ms)

abbrev pub filter_failed : List Json → Option (List Json)
filter_failed [] = some []
filter_failed (m ∷ ms) = keep_message m (filter_failed ms)

-- What has no method `filter` throws.
abbrev pub failed_of : Option Json → Option (List Json)
failed_of (some (arr ms)) = filter_failed (items ms)
failed_of _ = none

abbrev pub user_prefixes : ℕ → List Text
user_prefixes user =
    user_key draft_name user [] ∷ user_key thread_name user [] ∷ user_key failed_name user [] ∷ []

-- `prefixes.some((prefix) => key.startsWith(prefix))`
abbrev pub has_prefix : List Text → Text → Bool
has_prefix prefixes key = any (λ prefix. starts_with key prefix) prefixes

module _ {S : Type 0} ⦃d : KeyValueStore S⦄ where
  -- `if (body.trim()) await AsyncStorage.setItem(key, body); else await AsyncStorage.removeItem(key);`
  unfoldable pub save_draft : Text → Text → S → S
  save_draft key body s = if is_empty (trim body) then d.remove key s else d.set key body s

  unfoldable pub load_conversation_draft : ℕ → ConversationKind → ℕ → S → Text
  load_conversation_draft user kind id s = or_empty (d.get (conversation_draft_key user kind id) s)

  unfoldable pub save_conversation_draft : ℕ → ConversationKind → ℕ → Text → S → S
  unfolding save_draft
  save_conversation_draft user kind id body s =
      save_draft (conversation_draft_key user kind id) body s

  unfoldable pub load_thread_draft : ℕ → ℕ → S → Text
  load_thread_draft user root s = or_empty (d.get (thread_draft_key user root) s)

  unfoldable pub save_thread_draft : ℕ → ℕ → Text → S → S
  unfolding save_draft
  save_thread_draft user root body s = save_draft (thread_draft_key user root) body s

  -- `if (keys.length) await AsyncStorage.multiRemove(keys);`
  abbrev pub remove_keys : List Text → S → S
  remove_keys [] s = s
  remove_keys (k ∷ ks) s = d.multi_remove (k ∷ ks) s

  unfoldable pub clear_user_conversation_storage : ℕ → S → S
  clear_user_conversation_storage user s =
      remove_keys (filter (has_prefix (user_prefixes user)) (d.all_keys s)) s

  module _ (parse : Text → Option Json) where
    -- The messages, and the store behind the call.
    abbrev pub loaded : Text → Option (List Json) → S → List Json × S
    loaded key none s = ([], d.remove key s)
    loaded key (some ms) s = (ms, s)

    abbrev pub load_failed : Text → Option Text → S → List Json × S
    load_failed key none s = ([], s)
    load_failed key (some []) s = ([], s)
    load_failed key (some (c ∷ v)) s = loaded key (failed_of (parse (c ∷ v))) s

    unfoldable pub load_failed_messages : ℕ → ConversationKind → ℕ → S → List Json × S
    load_failed_messages user kind id s =
        let key = failed_messages_key user kind id in load_failed key (d.get key s) s

  module _ (stringify : Json → Text) where
    abbrev pub store_failed : Text → List Json → S → S
    store_failed key [] s = d.remove key s
    store_failed key (m ∷ ms) s = d.set key (stringify (arr (of_list (m ∷ ms)))) s

    unfoldable pub save_failed_messages : ℕ → ConversationKind → ℕ → List Fields → S → S
    save_failed_messages user kind id messages s =
        store_failed (failed_messages_key user kind id) (filter has_failed (map obj messages)) s
