-- ===== src/Chat/Order.antt =====
-- The order of `sortMessages`: by time, and by id at one time.
use mathlib.Core.List.{Perm}
use mathlib.Core.Path.{subst}
use csg_learning_platform.Prelude.{
  String, Bool, none, Option-cases, inl, inr, true, false, ◌||◌, ◌&&◌, not, Option, some, List, ◌≡◌,
  arith, All, is_some, is_some-value,
}
use csg_learning_platform.Prelude.Int.{ℤ, ltb_ℤ, is_negative-sub, is_zero-sub}
use csg_learning_platform.Prelude.Sort.{IsSorted, sort-IsSorted, sort-perm}
use csg_learning_platform.Chat.{Message, compare_messages, precedes, sort_messages}

-- By two times, and by the ids where the times are equal or a time is invalid.
abbrev pub by_time : Option ℤ → Option ℤ → Bool → Bool
by_time (some s) (some t) ids = ltb_ℤ s t || (not (ltb_ℤ t s) && ids)
by_time (some s) none ids = ids
by_time none t ids = ids

module _ (get_time : String → Option ℤ) where
  -- The message has a valid time stamp.
  abbrev pub HasTime : Message → Type 0
  HasTime m = is_some (get_time m.created_at) ≡ true

  pub HasTime-time : (m : Message) → HasTime m → (t : ℤ) × (get_time m.created_at ≡ some t)
  HasTime-time m h = is_some-value _ h

  precedes_lem :
      (a b : Message) (s t : ℤ)
      → get_time a.created_at ≡ some s
      → get_time b.created_at ≡ some t
      → precedes get_time a b ≡ (ltb_ℤ s t || (not (ltb_ℤ t s) && ltb_ℤ a.id b.id))
  unfolding compare_messages
  precedes_lem a b s t p q =
      rw (p, q) (ground (arith, is_negative-sub s t, is_zero-sub s t, is_negative-sub a.id b.id))

  precedes_asym :
      (a b : Message)
      → HasTime a
      → HasTime b
      → precedes get_time a b ≡ true
      → precedes get_time b a ≡ false
  precedes_asym a b ha hb h =
      let (s, p) = HasTime-time a ha in
      let (t, q) = HasTime-time b hb in
      ground (arith, precedes_lem a b s t p q, precedes_lem b a t s q p)

  precedes_chain :
      (a b c : Message)
      → HasTime a
      → HasTime b
      → HasTime c
      → precedes get_time b a ≡ false
      → precedes get_time c b ≡ false
      → precedes get_time c a ≡ false
  precedes_chain a b c ha hb hc h k =
      let (s, p) = HasTime-time a ha in
      let (t, q) = HasTime-time b hb in
      let (u, r) = HasTime-time c hc in
      ground (arith, precedes_lem b a t s q p, precedes_lem c b u t r q, precedes_lem c a u s r p)

  -- Whether one message goes before another in a conversation: it was sent earlier, or at the same time
  -- and has the smaller id.
  abbrev pub is_before : Message → Message → Bool
  is_before a b = by_time (get_time a.created_at) (get_time b.created_at) (ltb_ℤ a.id b.id)

  precedes-is_before : (a b : Message) → precedes get_time a b ≡ is_before a b
  unfolding compare_messages
  precedes-is_before a b = elim (Option-cases (get_time a.created_at)) [
    | inl p ↦ rw p (is_negative-sub a.id b.id)
    | inr (s, p) ↦ elim (Option-cases (get_time b.created_at)) [
      | inl q ↦ rw (p, q) (is_negative-sub a.id b.id)
      | inr (t, q) ↦
          rw (p, q)
            (ground (arith, is_negative-sub s t, is_zero-sub s t, is_negative-sub a.id b.id))
    ]
  ]

  pub IsSorted-is_before :
      (ms : List Message) → IsSorted (precedes get_time) ms → IsSorted is_before ms
  IsSorted-is_before ms h = subst (λ lt. IsSorted lt ms) (λ i a b. precedes-is_before a b i) h

  pub sort_messages-IsSorted :
      (messages : List Message)
      → All HasTime messages
      → IsSorted (precedes get_time) (sort_messages get_time messages)
  unfolding sort_messages
  sort_messages-IsSorted = sort-IsSorted (precedes get_time) HasTime precedes_asym precedes_chain

  -- Sorting keeps every message as often as it occurs, and when every time stamp is valid no message
  -- of the result precedes an earlier one by time, or by id at the same time.
  sort_messages_correct :
      (messages : List Message)
      → All HasTime messages
      → Perm (sort_messages get_time messages) messages
        × IsSorted (precedes get_time) (sort_messages get_time messages)
  unfolding sort_messages
  sort_messages_correct messages h =
      (sort-perm (precedes get_time) messages, sort_messages-IsSorted messages h)
