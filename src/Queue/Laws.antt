-- ===== src/Queue/Laws.antt =====
-- What the queue of web/src/lib/submissionQueue.ts shows, in which order, and what is latest.
use mathlib.Core.List.{Perm}
use csg_learning_platform.Prelude.{
  ℕ, Bool, true, false, not, ◌&&◌, ◌||◌, String, Option, none, some, List, [], ◌∷◌, map, ◌≡◌, refl,
  arith, ◌∙◌, ap, if◌then◌else◌, ◌==◌, filter, any, nat_beq, All, All-filter, is_some,
  is_some-value, Bool-cases, Option-cases, inl, inr, ltb, sym, beq→eq,
}
use csg_learning_platform.Prelude.Int.{
  ℤ, pos, ltb_ℤ, is_negative-sub, is_zero-sub, pos_part, neg_part,
}
use csg_learning_platform.Prelude.Text.{Text, text_eq, text_beq, show}
use csg_learning_platform.Prelude.Decimal.{text_beq-show, show_beq}
use csg_learning_platform.Prelude.Sort.{IsSorted, sort-IsSorted, sort-perm}
use csg_learning_platform.Prelude.Assoc.{get_item, get_item-set_item}
use csg_learning_platform.Queue.{
  SubmissionQueueFilter, QueueSubmission, assignment_key, key_of, is_shown, compare_newest_first,
  newer, put_latest, latest_from, values, get_latest_submission_ids, is_latest, in_queue_order,
  order_submission_queue,
}

pub assignment_key_beq :
    (u v b c : ℕ)
    → text_beq (assignment_key u b) (assignment_key v c) ≡ (nat_beq u v && nat_beq b c)
unfolding assignment_key
assignment_key_beq u v b c =
    text_beq-show b':' u v (show b) (show c) refl ∙ ap (λ x. nat_beq u v && x) (show_beq b c)

same_lookup :
    (j k : Text) (latest : List (Text × QueueSubmission))
    → (j == k) ≡ true
    → get_item k latest ≡ get_item j latest
same_lookup j k latest h = ap (λ i. get_item i latest) (sym (beq→eq j k h))

some_inj {ℓ} : {A : Type ℓ} (a b : A) → some a ≡ some b → a ≡ b
some_inj a b h = cc

filter_same {ℓ} :
    {A : Type ℓ} (p q : A → Bool)
    → ((a : A) → p a ≡ q a)
    → (xs : List A) → filter p xs ≡ filter q xs
filter_same p q same [] = refl
filter_same p q same (x ∷ xs) = ground (arith, same x, filter_same p q same xs)

pub values-id :
    (k : Text) (e : QueueSubmission) (m : List (Text × QueueSubmission))
    → get_item k m ≡ some e
    → any (λ i. nat_beq i e.id) (map (λ s. s.id) (values m)) ≡ true
unfolding get_item
values-id k e [] q = cc
values-id k e ((j, v) ∷ m) q = elim (Bool-cases (j == k)) [
  | inl h ↦ let same : v ≡ e = some_inj v e (rw h at q) in rw same (ground arith)
  | inr h ↦ ground (arith, values-id k e m (rw h at q))
]

pub ltb_pos : (a b : ℕ) → ltb_ℤ (pos a) (pos b) ≡ ltb a b
unfolding pos_part neg_part
ltb_pos a b = ground arith

module _ (get_time : String → Option ℤ) where
  abbrev pub HasTime : QueueSubmission → Type 0
  HasTime s = is_some (get_time s.created_at) ≡ true

  -- Later first, and the greater id at one time.
  pub newer_lem :
      (a b : QueueSubmission) (s t : ℤ)
      → get_time a.created_at ≡ some s
      → get_time b.created_at ≡ some t
      → newer get_time a b ≡ (ltb_ℤ t s || (not (ltb_ℤ s t) && ltb b.id a.id))
  unfolding compare_newest_first
  newer_lem a b s t p q =
      rw (p, q)
        (ground (
          arith,
          is_negative-sub t s,
          is_zero-sub t s,
          is_negative-sub (pos b.id) (pos a.id),
          ltb_pos b.id a.id,
        ))

  newer_asym :
      (a b : QueueSubmission)
      → HasTime a
      → HasTime b
      → newer get_time a b ≡ true
      → newer get_time b a ≡ false
  newer_asym a b ha hb h =
      let (s, p) = is_some-value (get_time a.created_at) ha in
      let (t, q) = is_some-value (get_time b.created_at) hb in
      ground (arith, newer_lem a b s t p q, newer_lem b a t s q p)

  newer_irrefl : (a : QueueSubmission) → HasTime a → newer get_time a a ≡ false
  newer_irrefl a ha =
      let (s, p) = is_some-value (get_time a.created_at) ha in ground (arith, newer_lem a a s s p p)

  newer_chain :
      (a b c : QueueSubmission)
      → HasTime a
      → HasTime b
      → HasTime c
      → newer get_time b a ≡ false
      → newer get_time c b ≡ false
      → newer get_time c a ≡ false
  newer_chain a b c ha hb hc h k =
      let (s, p) = is_some-value (get_time a.created_at) ha in
      let (t, q) = is_some-value (get_time b.created_at) hb in
      let (u, r) = is_some-value (get_time c.created_at) hc in
      ground (arith, newer_lem b a t s q p, newer_lem c b u t r q, newer_lem c a u s r p)

  module _ (ids : List ℕ) where
    in_queue_order_asym :
        (a b : QueueSubmission)
        → HasTime a
        → HasTime b
        → in_queue_order get_time ids a b ≡ true
        → in_queue_order get_time ids b a ≡ false
    in_queue_order_asym a b ha hb h = ground (arith, newer_asym a b ha hb)

    in_queue_order_chain :
        (a b c : QueueSubmission)
        → HasTime a
        → HasTime b
        → HasTime c
        → in_queue_order get_time ids b a ≡ false
        → in_queue_order get_time ids c b ≡ false
        → in_queue_order get_time ids c a ≡ false
    in_queue_order_chain a b c ha hb hc h k = ground (arith, newer_chain a b c ha hb hc)

  -- The queue has the submissions that the filter shows, in the order of the comparator.
  pub order_submission_queue-IsSorted :
      (submissions : List QueueSubmission) (shown : SubmissionQueueFilter)
      → All HasTime submissions
      → Perm
          (order_submission_queue get_time submissions shown)
          (filter (is_shown shown) submissions)
        × IsSorted
            (in_queue_order get_time (get_latest_submission_ids get_time submissions))
            (order_submission_queue get_time submissions shown)
  unfolding order_submission_queue
  order_submission_queue-IsSorted submissions shown h =
      let ids = get_latest_submission_ids get_time submissions in
      (
        sort-perm (in_queue_order get_time ids) (filter (is_shown shown) submissions),
        sort-IsSorted (in_queue_order get_time ids) HasTime (in_queue_order_asym ids)
            (in_queue_order_chain ids) (filter (is_shown shown) submissions)
            (All-filter HasTime (is_shown shown) submissions h),
      )

  -- The newer of an attempt and the one found before.
  abbrev pub newer_of : QueueSubmission → Option QueueSubmission → QueueSubmission
  newer_of s none = s
  newer_of s (some current) = if newer get_time s current then s else current

  -- The newest of a list, from one found before.
  abbrev pub newest_from : Option QueueSubmission → List QueueSubmission → Option QueueSubmission
  newest_from found [] = found
  newest_from found (s ∷ ss) = newest_from (some (newer_of s found)) ss

  get_item-put_latest :
      (k : Text) (s : QueueSubmission) (latest : List (Text × QueueSubmission))
      → get_item k (put_latest get_time s (get_item (key_of s) latest) latest)
        ≡ (if key_of s == k then some (newer_of s (get_item k latest)) else get_item k latest)
  get_item-put_latest k s latest = elim (Option-cases (get_item (key_of s) latest)) [
    | inl e ↦
        rw e ground
          (arith, e, get_item-set_item (key_of s) k s latest, same_lookup (key_of s) k latest)
    | inr (current, e) ↦
        rw e ground
          (arith, e, get_item-set_item (key_of s) k s latest, same_lookup (key_of s) k latest)
  ]

  -- What the map has for a key is the newest of that key's submissions.
  pub get_item-latest_from :
      (k : Text) (ss : List QueueSubmission) (latest : List (Text × QueueSubmission))
      → get_item k (latest_from get_time latest ss)
        ≡ newest_from (get_item k latest) (filter (λ s. key_of s == k) ss)
  unfolding latest_from
  get_item-latest_from k [] latest = refl
  get_item-latest_from k (s ∷ ss) latest =
      get_item-latest_from k ss (put_latest get_time s (get_item (key_of s) latest) latest)
      ∙ elim (Bool-cases (key_of s == k)) [
        | inl e ↦ rw (get_item-put_latest k s latest) (rw e refl)
        | inr e ↦ rw (get_item-put_latest k s latest) (rw e refl)
      ]

  -- A newest attempt is newer than the one found before, and than every other.
  newest_from_newest :
      (c e : QueueSubmission) (ss : List QueueSubmission)
      → HasTime c
      → All HasTime ss
      → newest_from (some c) ss ≡ some e
      → HasTime e × ((newer get_time c e ≡ false) × All (λ t. newer get_time t e ≡ false) ss)
  newest_from_newest c e [] hc h q =
      let same : c ≡ e = cc in rw (sym same) (hc, (newer_irrefl c hc, tt))
  newest_from_newest c e (s ∷ ss) hc (hs, h) q = elim (Bool-cases (newer get_time s c)) [
    | inl n ↦
        let (he, (l, r)) = newest_from_newest s e ss hs h (rw n at q) in
        (he, (newer_chain e s c he hs hc l (newer_asym s c hs hc n), (l, r)))
    | inr n ↦
        let (he, (l, r)) = newest_from_newest c e ss hc h (rw n at q) in
        (he, (l, (newer_chain e c s he hc hs l n, r)))
  ]

  pub newest_of_none :
      (e : QueueSubmission) (ss : List QueueSubmission)
      → All HasTime ss
      → newest_from none ss ≡ some e
      → All (λ t. newer get_time t e ≡ false) ss
  newest_of_none e [] h q = tt
  newest_of_none e (s ∷ ss) (hs, h) q = (newest_from_newest s e ss hs h q).1

  -- The attempt that the map holds for a user and a block is one whose id counts as latest, and
  -- no submission of that user for that block is newer, when every time stamp is valid.
  latest_from-newest :
      (submissions : List QueueSubmission) (user block : ℕ) (e : QueueSubmission)
      → All HasTime submissions
      → get_item (assignment_key user block) (latest_from get_time [] submissions) ≡ some e
      → (is_latest get_time (get_latest_submission_ids get_time submissions) e ≡ true)
        × All
            (λ t. newer get_time t e ≡ false)
            (filter (λ t. nat_beq t.user_id user && nat_beq t.content_block_id block) submissions)
  unfolding get_latest_submission_ids get_item
  latest_from-newest submissions user block e h q = (
    values-id (assignment_key user block) e (latest_from get_time [] submissions) q,
    rw
        (sym (
          filter_same _ _ (λ t. assignment_key_beq t.user_id user t.content_block_id block)
            submissions))
        (newest_of_none e _ (All-filter HasTime _ submissions h)
          (sym (get_item-latest_from (assignment_key user block) submissions []) ∙ q)),
  )
