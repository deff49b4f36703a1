-- ===== src/Storage/FailedLaws.antt =====
-- What loadFailedMessages and saveFailedMessages of mobile/src/lib/conversation-storage.ts promise.
use csg_learning_platform.Prelude.{
  ℕ, true, false, Option, none, some, List, [], ◌∷◌, map, filter, ◌≡◌, refl, arith, ◌∙◌, inl, inr,
  All, Option-cases, beq_refl,
}
use csg_learning_platform.Prelude.Text.{Text, text_eq, is_empty}
use csg_learning_platform.Json.{Json, null, arr, obj, Fields, items, of_list, items-of_list}
use csg_learning_platform.Storage.{KeyValueStore}
use csg_learning_platform.Storage.Keys.{ConversationKind, failed_messages_key}
use csg_learning_platform.Storage.Conversations.{
  has_failed, filter_failed, failed_of, keep_message, load_failed, store_failed,
  load_failed_messages, save_failed_messages,
}

abbrev pub AllFailed : Option (List Json) → Type 0
AllFailed none = Unit
AllFailed (some ms) = All (λ m. has_failed m ≡ true) ms

keep_message-AllFailed :
    (m : Json) (rest : Option (List Json)) → AllFailed rest → AllFailed (keep_message m rest)
keep_message-AllFailed null rest h = tt
keep_message-AllFailed m none h = tt
keep_message-AllFailed m (some ms) h = ground arith

filter_failed-AllFailed : (ms : List Json) → AllFailed (filter_failed ms)
filter_failed-AllFailed [] = tt
filter_failed-AllFailed (m ∷ ms) = keep_message-AllFailed m _ (filter_failed-AllFailed ms)

failed_of-AllFailed : (v : Option Json) → AllFailed (failed_of v)
failed_of-AllFailed none = tt
failed_of-AllFailed (some (arr ms)) = filter_failed-AllFailed (items ms)
failed_of-AllFailed (some v) = tt

-- Filtering what was filtered.
filter_failed_again :
    (ms : List Fields)
    → filter_failed (filter has_failed (map obj ms)) ≡ some (filter has_failed (map obj ms))
filter_failed_again [] = refl
filter_failed_again (m ∷ ms) = ground (arith, filter_failed_again ms)

module _ {S : Type 0} ⦃d : KeyValueStore S⦄ where
  get_removed : (k : Text) (s : S) → d.get k (d.remove k s) ≡ none
  get_removed k s = d.get-remove k k s ∙ rw (beq_refl k) refl

  get_stored : (k v : Text) (s : S) → d.get k (d.set k v s) ≡ some v
  get_stored k v s = d.get-set k k v s ∙ rw (beq_refl k) refl

  module _ (parse : Text → Option Json) where
    -- A load that found `o`: all it gives has failed, and a second load gives the same.
    abbrev Recovers : Text → List Json × S → Type 0
    Recovers k r = All (λ m. has_failed m ≡ true) r.0 × (load_failed parse k (d.get k r.1) r.1 ≡ r)

    load_failed-Recovers :
        (k : Text) (o : Option Text) (s : S) → d.get k s ≡ o → Recovers k (load_failed parse k o s)
    load_failed-Recovers k none s e = (tt, rw e refl)
    load_failed-Recovers k (some []) s e = (tt, rw e refl)
    load_failed-Recovers k (some (c ∷ v)) s e = elim (Option-cases (failed_of (parse (c ∷ v)))) [
      | inl f ↦ rw f (tt, rw (get_removed k s) refl)
      | inr (ms, f) ↦ rw f ((rw f at (failed_of-AllFailed (parse (c ∷ v)))), rw e (rw f refl))
    ]

    -- Whatever is stored, text that is no JSON or values of another kind included: every message
    -- that is loaded has failed, and the store is left so that a second load gives the same
    -- messages and changes nothing.
    pub load_failed_messages_recovers :
        (user : ℕ) (kind : ConversationKind) (id : ℕ) (s : S)
        → All (λ m. has_failed m ≡ true) (load_failed_messages parse user kind id s).0
          × (load_failed_messages parse user kind id (load_failed_messages parse user kind id s).1
              ≡ load_failed_messages parse user kind id s)
    unfolding load_failed_messages
    load_failed_messages_recovers user kind id s =
        load_failed-Recovers (failed_messages_key user kind id) _ s refl

  module _ (parse : Text → Option Json) (stringify : Json → Text) where
    -- A text that is not empty and is parsed as an array of failed messages is loaded as they are.
    load_failed-array :
        (k : Text) (v : Text) (ms : List Json) (s : S)
        → is_empty v ≡ false
        → parse v ≡ some (arr (of_list ms))
        → filter_failed ms ≡ some ms
        → load_failed parse k (some v) s ≡ (ms, s)
    load_failed-array k [] ms s e p f = absurd (ground arith)
    load_failed-array k (c ∷ v) ms s e p f = rw (p, items-of_list ms, f) refl

    load-store_failed :
        (k : Text) (ms : List Json) (s : S)
        → filter_failed ms ≡ some ms
        → is_empty (stringify (arr (of_list ms))) ≡ false
        → parse (stringify (arr (of_list ms))) ≡ some (arr (of_list ms))
        → load_failed parse k
            (d.get k (store_failed stringify k ms s))
            (store_failed stringify k ms s)
          ≡ (ms, store_failed stringify k ms s)
    load-store_failed k [] s f e p = rw (get_removed k s) refl
    load-store_failed k (m ∷ ms) s f e p =
        rw (get_stored k (stringify (arr (of_list (m ∷ ms)))) s)
          (load_failed-array k _ (m ∷ ms) _ e p f)

    -- The failed messages of a list that is saved are loaded as they were, and loading them does not
    -- change the store. JSON reads back the array that it wrote, which is not the empty text.
    load-save_failed_messages :
        (user : ℕ) (kind : ConversationKind) (id : ℕ) (messages : List Fields) (s : S)
        → is_empty (stringify (arr (of_list (filter has_failed (map obj messages))))) ≡ false
        → parse (stringify (arr (of_list (filter has_failed (map obj messages)))))
          ≡ some (arr (of_list (filter has_failed (map obj messages))))
        → load_failed_messages parse user kind id
            (save_failed_messages stringify user kind id messages s)
          ≡ (
            filter has_failed (map obj messages),
            save_failed_messages stringify user kind id messages s,
          )
    unfolding load_failed_messages save_failed_messages
    load-save_failed_messages user kind id messages s e p =
        load-store_failed (failed_messages_key user kind id) _ s (filter_failed_again messages) e p
