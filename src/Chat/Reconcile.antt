-- ===== src/Chat/Reconcile.antt =====
-- The answer to a sent message, older pages, and pinned messages (mobile/src/lib/message-state.ts).
use mathlib.Core.List.{Perm}
use csg_learning_platform.Prelude.{
  String, Bool, true, false, not, ◌&&◌, ◌||◌, Option, List, [], ◌∷◌, ◌++◌, ◌≡◌, refl, sym, arith,
  All, filter, if◌then◌else◌, ◌==◌, beq_refl, ◌∷◌, beq_sym, All-append, All-filter,
}
use csg_learning_platform.Prelude.Int.{ℤ, int_eq}
use csg_learning_platform.Prelude.Sort.{IsSorted, sort-perm}
use csg_learning_platform.Prelude.Keyed.{
  has_key, UniqueKeys, has_key-append, has_key-filter, has_key-sort, UniqueKeys-filter,
  UniqueKeys-append, UniqueKeys-sort,
}
use csg_learning_platform.Chat.{
  Message, MessageEvent, message_id, precedes, sort_messages, reconcile_optimistic,
  prepend_older_messages, merge_pinned_message_event, is_deleted, is_truthy,
}
use csg_learning_platform.Chat.Order.{
  HasTime, is_before, IsSorted-is_before, sort_messages-IsSorted,
}

-- Of two lists where the ids of the first are filtered by absence from the second.
disjoint_of_filter :
    (test : ℤ → Bool) (xs ys : List Message)
    → ((k : ℤ) → test k ≡ true → has_key message_id k ys ≡ false)
    → All (λ m. has_key message_id m.id ys ≡ false) (filter (λ m. test m.id) xs)
disjoint_of_filter test [] ys h = tt
disjoint_of_filter test (m ∷ xs) ys h = ground (arith, h m.id, disjoint_of_filter test xs ys h)

module _ (get_time : String → Option ℤ) where
  -- Once a sent message is answered, its optimistic copy is gone (unless the server used its id), the
  -- list has the server's message as it came and all other messages as they were, no id occurs twice, and
  -- the messages are in the order of their times, and of their ids at one time. No id of the list
  -- occurred twice before, and all time stamps are valid.
  pub reconcile_optimistic_correct :
      (messages : List Message) (optimistic_id : ℤ) (canonical : Message)
      → UniqueKeys message_id messages
      → All (HasTime get_time) messages
      → HasTime get_time canonical
      → ((j : ℤ)
          → has_key message_id j (reconcile_optimistic get_time messages optimistic_id canonical)
            ≡ (j == canonical.id || (not (j == optimistic_id) && has_key message_id j messages)))
        × Perm (reconcile_optimistic get_time messages optimistic_id canonical) (
            filter (λ m. not (m.id == optimistic_id || m.id == canonical.id)) messages
            ++ canonical ∷ [])
        × UniqueKeys message_id (reconcile_optimistic get_time messages optimistic_id canonical)
        × IsSorted
            (is_before get_time)
            (reconcile_optimistic get_time messages optimistic_id canonical)
  unfolding reconcile_optimistic
  reconcile_optimistic_correct ms o c u times time = (ids, content, unique, order)
    where
      test : ℤ → Bool
      test k = not (k == o) && not (k == c.id)

      ids :
          (j : ℤ)
          → has_key message_id j (reconcile_optimistic get_time ms o c)
            ≡ (j == c.id || (not (j == o) && has_key message_id j ms))
      ids j =
          unfold sort_messages in
          ground (
            arith,
            has_key-sort message_id (precedes get_time) j (filter (λ m. test m.id) ms ++ c ∷ []),
            has_key-append message_id j (filter (λ m. test m.id) ms) (c ∷ []),
            has_key-filter message_id j test ms,
            beq_sym c.id j,
          )

      same_test :
          (ms : List Message)
          → filter (λ m. test m.id) ms ≡ filter (λ m. not (m.id == o || m.id == c.id)) ms
      same_test [] = refl
      same_test (m ∷ ms) = ground (arith, same_test ms)

      content :
          Perm
            (reconcile_optimistic get_time ms o c)
            (filter (λ m. not (m.id == o || m.id == c.id)) ms ++ c ∷ [])
      content =
          unfold sort_messages in
          rw (sym (same_test ms))
            (sort-perm (precedes get_time) (filter (λ m. test m.id) ms ++ c ∷ []))

      apart : (k : ℤ) → test k ≡ true → has_key message_id k (c ∷ []) ≡ false
      apart k h = ground (arith, beq_sym c.id k)

      unique : UniqueKeys message_id (reconcile_optimistic get_time ms o c)
      unique =
          unfold sort_messages in
          UniqueKeys-sort message_id (precedes get_time) _ (
            UniqueKeys-append message_id (filter (λ m. test m.id) ms) (c ∷ [])
              (UniqueKeys-filter message_id test ms u) (refl, tt)
              (disjoint_of_filter test ms (c ∷ []) apart))

      order : IsSorted (is_before get_time) (reconcile_optimistic get_time ms o c)
      order = IsSorted-is_before get_time _ (
          sort_messages-IsSorted get_time _ (
            All-append _ (filter (λ m. test m.id) ms) (c ∷ []) (All-filter _ _ ms times)
              (time, tt)))

  -- A page of older messages adds exactly its ids, and no id occurs twice, also where the page
  -- overlaps the messages shown.
  prepend_older_messages_correct :
      (current older : List Message)
      → UniqueKeys message_id current
      → UniqueKeys message_id older
      → ((j : ℤ)
          → has_key message_id j (prepend_older_messages get_time current older)
            ≡ (has_key message_id j older || has_key message_id j current))
        × UniqueKeys message_id (prepend_older_messages get_time current older)
  unfolding prepend_older_messages sort_messages
  prepend_older_messages_correct current older u v = (ids, unique)
    where
      test : ℤ → Bool
      test k = not (has_key message_id k current)

      ids :
          (j : ℤ)
          → has_key message_id j (prepend_older_messages get_time current older)
            ≡ (has_key message_id j older || has_key message_id j current)
      ids j = ground (
        arith,
        has_key-sort message_id (precedes get_time) j (filter (λ m. test m.id) older ++ current),
        has_key-append message_id j (filter (λ m. test m.id) older) current,
        has_key-filter message_id j test older,
      )

      apart : (k : ℤ) → test k ≡ true → has_key message_id k current ≡ false
      apart k h = ground arith

      unique : UniqueKeys message_id (prepend_older_messages get_time current older)
      unique = UniqueKeys-sort message_id (precedes get_time) _ (
          UniqueKeys-append message_id (filter (λ m. test m.id) older) current
            (UniqueKeys-filter message_id test older v) u
            (disjoint_of_filter test older current apart))

-- After an event its message stands among the pinned ones exactly if it is pinned and was not
-- deleted; the other pinned messages stay, and no id occurs twice.
merge_pinned_message_event_correct :
    (pinned : List Message) (payload : MessageEvent)
    → UniqueKeys message_id pinned
    → ((j : ℤ)
        → has_key message_id j (merge_pinned_message_event pinned payload) ≡ (
            if j == payload.message.id
            then not (is_deleted payload.event) && is_truthy payload.message.pinned_at
            else has_key message_id j pinned))
      × UniqueKeys message_id (merge_pinned_message_event pinned payload)
unfolding merge_pinned_message_event
merge_pinned_message_event_correct pinned payload u = (ids, unique)
  where
    test : ℤ → Bool
    test k = not (k == payload.message.id)

    ids :
        (j : ℤ)
        → has_key message_id j (merge_pinned_message_event pinned payload) ≡ (
            if j == payload.message.id
            then not (is_deleted payload.event) && is_truthy payload.message.pinned_at
            else has_key message_id j pinned)
    ids j = ground (arith, has_key-filter message_id j test pinned, beq_sym payload.message.id j)

    unique : UniqueKeys message_id (merge_pinned_message_event pinned payload)
    unique = ground (
      arith,
      UniqueKeys-filter message_id test pinned u,
      has_key-filter message_id payload.message.id test pinned,
      beq_refl payload.message.id,
    )
