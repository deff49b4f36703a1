-- ===== src/Chat/Merge.antt =====
-- Which messages the operations of mobile/src/lib/message-state.ts leave in the list.
use csg_learning_platform.Prelude.{
  String, Bool, true, false, not, Option, some, none, List, [], ◌∷◌, ◌++◌, map, ◌≡◌, refl, ◌∙◌,
  arith, All, All-append, filter, map-eq_self, if◌then◌else◌, ◌==◌, Bool-cases, inl, inr, beq_refl,
  beq_sym,
}
use csg_learning_platform.Prelude.Int.{ℤ, int_eq, beq_ℤ_iff}
use csg_learning_platform.Prelude.Sort.{All-sort}
use csg_learning_platform.Prelude.Keyed.{
  has_key, UniqueKeys, has_key-append, has_key-filter, has_key-map, has_key-sort, UniqueKeys-filter,
  UniqueKeys-map, UniqueKeys-append, UniqueKeys-sort,
}
use csg_learning_platform.Chat.{
  Message, MessageEvent, EventKind, created, updated, deleted, message_id, or_present, spread,
  precedes, sort_messages, replace_message, merge_event, merge_message_event,
}

or_present_twice {ℓ} :
    {A : Type ℓ} (a b : Option A) → or_present (or_present a b) b ≡ or_present a b
or_present_twice a none = refl
or_present_twice a (some b) = refl

or_present_self {ℓ} : {A : Type ℓ} (a : Option A) → or_present a a ≡ a
or_present_self none = refl
or_present_self (some a) = refl

spread_twice : (m p : Message) → spread (spread m p) p ≡ spread m p
unfolding spread
spread_twice m p = simp or_present_twice

spread_self : (p : Message) → spread p p ≡ p
unfolding spread
spread_self p = simp or_present_self

replace-id : (p m : Message) → (replace_message p m).id ≡ m.id
unfolding replace_message spread
replace-id p m = ground (arith, beq_ℤ_iff m.id p.id)

replace_other : (p m : Message) → (m.id == p.id) ≡ false → replace_message p m ≡ m
unfolding replace_message
replace_other p m h = rw h

replace_twice : (p m : Message) → replace_message p (replace_message p m) ≡ replace_message p m
unfolding replace_message spread
replace_twice p m = elim (Bool-cases (m.id == p.id)) [
  | inl e ↦ rw e (rw (beq_refl p.id) (spread_twice m p))
  | inr e ↦ rw e (rw e)
]

replace_all_twice :
    (p : Message) (ms : List Message)
    → map (replace_message p) (map (replace_message p) ms) ≡ map (replace_message p) ms
replace_all_twice p [] = refl
replace_all_twice p (m ∷ ms) = rw (replace_twice p m, replace_all_twice p ms)

-- Where no message has the id, replacing changes nothing.
replace_absent :
    (p : Message) (ms : List Message)
    → has_key message_id p.id ms ≡ false
    → All (λ m. replace_message p m ≡ m) ms
replace_absent p [] h = tt
replace_absent p (m ∷ ms) h = (replace_other p m (ground arith), replace_absent p ms (ground arith))

replace_self : (p : Message) → replace_message p p ≡ p
unfolding replace_message
replace_self p = rw (beq_refl p.id) (spread_self p)

filter_twice {ℓ} : {A : Type ℓ} (p : A → Bool) (xs : List A) → filter p (filter p xs) ≡ filter p xs
filter_twice p [] = refl
filter_twice p (x ∷ xs) = ground (arith, filter_twice p xs)

-- Whether the id of an event occurs after it, from whether it occurred before.
abbrev pub occurs_after : EventKind → Bool → Bool
occurs_after created before = true
occurs_after updated before = before
occurs_after deleted before = false

module _ (get_time : String → Option ℤ) where
  merge_event-has_key :
      (kind : EventKind) (p : Message) (ms : List Message) (j : ℤ)
      → has_key message_id j (merge_event get_time kind p ms) ≡ (
          if j == p.id
          then occurs_after kind (has_key message_id j ms)
          else has_key message_id j ms)
  unfolding merge_event sort_messages
  merge_event-has_key created p ms j = ground (
    arith,
    beq_ℤ_iff j p.id,
    beq_ℤ_iff p.id j,
    has_key-map message_id j (replace_message p) (replace-id p) ms,
    has_key-sort message_id (precedes get_time) j (ms ++ p ∷ []),
    has_key-append message_id j ms (p ∷ []),
  )
  merge_event-has_key updated p ms j =
      rw (has_key-map message_id j (replace_message p) (replace-id p) ms) (ground arith)
  merge_event-has_key deleted p ms j =
      has_key-filter message_id j (λ k. not (k == p.id)) ms ∙ ground arith

  -- Which ids a list has after an event.
  merge_message_event-has_key :
      (messages : List Message) (payload : MessageEvent) (j : ℤ)
      → has_key message_id j (merge_message_event get_time messages payload) ≡ (
          if j == payload.message.id
          then occurs_after payload.event (has_key message_id j messages)
          else has_key message_id j messages)
  unfolding merge_message_event
  merge_message_event-has_key ms e j = merge_event-has_key e.event e.message ms j

  disjoint_of_absent :
      (p : Message) (ms : List Message)
      → has_key message_id p.id ms ≡ false
      → All (λ m. has_key message_id m.id (p ∷ []) ≡ false) ms
  disjoint_of_absent p [] h = tt
  disjoint_of_absent p (m ∷ ms) h =
      (ground (arith, beq_sym p.id m.id), disjoint_of_absent p ms (ground arith))

  add-UniqueKeys :
      (p : Message) (ms : List Message)
      → has_key message_id p.id ms ≡ false
      → UniqueKeys message_id ms
      → UniqueKeys message_id (sort_messages get_time (ms ++ p ∷ []))
  unfolding sort_messages
  add-UniqueKeys p ms f h =
      UniqueKeys-sort message_id (precedes get_time) (ms ++ p ∷ [])
        (UniqueKeys-append message_id ms (p ∷ []) h (refl, tt) (disjoint_of_absent p ms f))

  merge_event-UniqueKeys :
      (kind : EventKind) (p : Message) (ms : List Message)
      → UniqueKeys message_id ms
      → UniqueKeys message_id (merge_event get_time kind p ms)
  unfolding merge_event
  merge_event-UniqueKeys created p ms h = elim (Bool-cases (has_key message_id p.id ms)) [
    | inl e ↦ rw e (UniqueKeys-map message_id (replace_message p) (replace-id p) ms h)
    | inr e ↦ rw e (add-UniqueKeys p ms e h)
  ]
  merge_event-UniqueKeys updated p ms h =
      UniqueKeys-map message_id (replace_message p) (replace-id p) ms h
  merge_event-UniqueKeys deleted p ms h = UniqueKeys-filter message_id (λ k. not (k == p.id)) ms h

  merge_message_event-UniqueKeys :
      (messages : List Message) (payload : MessageEvent)
      → UniqueKeys message_id messages
      → UniqueKeys message_id (merge_message_event get_time messages payload)
  unfolding merge_message_event
  merge_message_event-UniqueKeys ms e h = merge_event-UniqueKeys e.event e.message ms h

  -- After an event its message's id occurs if the event created it, does not if it deleted it, and
  -- as before if it updated it; every other id occurs exactly if it did. No id occurs twice if none did.
  pub merge_message_event_correct :
      (messages : List Message) (payload : MessageEvent)
      → UniqueKeys message_id messages
      → ((j : ℤ)
          → has_key message_id j (merge_message_event get_time messages payload) ≡ (
              if j == payload.message.id
              then occurs_after payload.event (has_key message_id j messages)
              else has_key message_id j messages))
        × UniqueKeys message_id (merge_message_event get_time messages payload)
  merge_message_event_correct messages payload h = (
    merge_message_event-has_key messages payload,
    merge_message_event-UniqueKeys messages payload h,
  )

  added_unchanged :
      (p : Message) (ms : List Message)
      → has_key message_id p.id ms ≡ false
      → map (replace_message p) (sort_messages get_time (ms ++ p ∷ []))
        ≡ sort_messages get_time (ms ++ p ∷ [])
  unfolding sort_messages
  added_unchanged p ms f = map-eq_self (replace_message p) _ (
      All-sort (precedes get_time) _ (ms ++ p ∷ [])
        (All-append _ ms (p ∷ []) (replace_absent p ms f) (replace_self p, tt)))

  merge_event_twice :
      (kind : EventKind) (p : Message) (ms : List Message)
      → merge_event get_time kind p (merge_event get_time kind p ms)
        ≡ merge_event get_time kind p ms
  unfolding merge_event
  merge_event_twice created p ms = elim (Bool-cases (has_key message_id p.id ms)) [
    | inl e ↦ rw e (
        rw (has_key-map message_id p.id (replace_message p) (replace-id p) ms ∙ e)
          (replace_all_twice p ms))
    | inr e ↦ rw e (rw (present e) (added_unchanged p ms e))
  ]
    where
      present :
          has_key message_id p.id ms ≡ false
          → has_key message_id p.id (sort_messages get_time (ms ++ p ∷ [])) ≡ true
      present e = ground (arith, merge_event-has_key created p ms p.id, beq_refl p.id)
  merge_event_twice updated p ms = replace_all_twice p ms
  merge_event_twice deleted p ms = filter_twice _ ms

  -- An event that is delivered twice in a row has the effect of one delivery.
  pub merge_message_event_idempotent :
      (messages : List Message) (payload : MessageEvent)
      → merge_message_event get_time (merge_message_event get_time messages payload) payload
        ≡ merge_message_event get_time messages payload
  unfolding merge_message_event
  merge_message_event_idempotent ms e = merge_event_twice e.event e.message ms
