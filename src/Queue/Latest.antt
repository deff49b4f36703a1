-- ===== src/Queue/Latest.antt =====
-- Which submissions `getLatestSubmissionIds` (web/src/lib/submissionQueue.ts) counts as latest.
use csg_learning_platform.Prelude.{
  ℕ, String, Bool, true, false, not, ◌&&◌, Option, none, some, List, [], ◌∷◌, map, ◌≡◌, refl, arith,
  ◌⊎◌, inl, inr, sym, ap, ◌∙◌, ◌==◌, filter, any, nat_beq, nat_eq, nat_beq_iff, ltb, All,
  Bool-cases, Option-cases, beq_refl, is_some-value, All-filter,
}
use csg_learning_platform.Prelude.Int.{ℤ, is_negative-sub, is_zero-sub, pos}
use csg_learning_platform.Prelude.Text.{Text, text_eq}
use csg_learning_platform.Prelude.Assoc.{get_item}
use csg_learning_platform.Prelude.Keyed.{has_key, UniqueKeys}
use csg_learning_platform.Chat.Order.{by_time}
use csg_learning_platform.Queue.{
  QueueSubmission, key_of, newer, latest_from, values, get_latest_submission_ids, is_latest,
  compare_newest_first,
}
use csg_learning_platform.Queue.Laws.{
  assignment_key_beq, values-id, HasTime, newer_lem, newest_from, newer_of, newest_of_none,
  get_item-latest_from, ltb_pos,
}
use csg_learning_platform.Queue.Members.{
  IsIn, All_in, IsIn-filter, IsIn-of_filter, first, Map, get_item_in, IsEntry, latest_from-entries,
}

abbrev pub submission_id : QueueSubmission → ℕ
submission_id s = s.id

has_key_in :
    (s : QueueSubmission) (xs : List QueueSubmission)
    → IsIn s xs
    → has_key submission_id s.id xs ≡ true
has_key_in s [] i = absurd i
has_key_in s (x ∷ xs) (inl e) = rw e (ground (arith, nat_beq_iff x.id x.id))
has_key_in s (x ∷ xs) (inr i) = ground (arith, has_key_in s xs i)

-- A submission is known by its id.
same_of_id :
    (v s : QueueSubmission) (xs : List QueueSubmission)
    → UniqueKeys submission_id xs
    → IsIn v xs
    → IsIn s xs
    → v.id ≡ s.id
    → v ≡ s
same_of_id v s [] u i j h = absurd i
same_of_id v s (x ∷ xs) (fresh, u) (inl e) (inl d) h = e ∙ sym d
same_of_id v s (x ∷ xs) (fresh, u) (inr i) (inr j) h = same_of_id v s xs u i j h
same_of_id v s (x ∷ xs) (fresh, u) (inl e) (inr j) h =
    let a : s.id ≡ x.id = sym h ∙ ap submission_id e in
    absurd (ground (arith, rw a at (has_key_in s xs j), fresh))
same_of_id v s (x ∷ xs) (fresh, u) (inr i) (inl d) h =
    let a : v.id ≡ x.id = h ∙ ap submission_id d in
    absurd (ground (arith, rw a at (has_key_in v xs i), fresh))

-- A value of a map has its key.
value-IsIn :
    (n : ℕ) (m : Map)
    → any (λ i. nat_beq i n) (map (λ s. s.id) (values m)) ≡ true
    → (k : Text) × (v : QueueSubmission) × IsIn (k, v) m × (v.id ≡ n)
value-IsIn n [] h = absurd (ground arith)
value-IsIn n ((k, v) ∷ m) h = elim (Bool-cases (nat_beq v.id n)) [
  | inl e ↦ (k, v, inl refl, (nat_beq_iff v.id n).0 e)
  | inr e ↦ let (j, w, i, d) = value-IsIn n m (rw e at h) in (j, w, inr i, d)
]

none_of_any {ℓ} :
    {A : Type ℓ} (p : A → Bool) (xs : List A) → All (λ x. p x ≡ false) xs → any p xs ≡ false
none_of_any p [] h = refl
none_of_any p (x ∷ xs) (e, h) = rw e (none_of_any p xs h)

any_in :
    {A : Type 0} (p : A → Bool) (x : A) (xs : List A) → IsIn x xs → any p xs ≡ false → p x ≡ false
any_in p x [] i h = absurd i
any_in p x (y ∷ ys) (inl e) h = rw e (ground arith)
any_in p x (y ∷ ys) (inr i) h = any_in p x ys i (ground arith)

pub All-of {κ} :
    {A : Type 0} (P : A → Type κ) (xs : List A) → ((x : A) → IsIn x xs → P x) → All P xs
All-of P [] h = tt
All-of P (x ∷ xs) h = (h x (inl refl), All-of P xs (λ y i. h y (inr i)))

module _ (get_time : String → Option ℤ) where
  -- Whether one submission is newer than another: it was sent later, or at the same time and has the
  -- greater id.
  abbrev pub is_newer : QueueSubmission → QueueSubmission → Bool
  is_newer a b = by_time (get_time b.created_at) (get_time a.created_at) (ltb b.id a.id)

  -- Whether a newer submission of the same user for the same block is among them.
  abbrev pub is_superseded : List QueueSubmission → QueueSubmission → Bool
  is_superseded submissions s =
      any
        (λ t.
          (nat_beq t.user_id s.user_id && nat_beq t.content_block_id s.content_block_id)
          && is_newer t s)
        submissions

  pub newer-is_newer : (a b : QueueSubmission) → newer get_time a b ≡ is_newer a b
  unfolding compare_newest_first
  newer-is_newer a b = elim (Option-cases (get_time a.created_at)) [
    | inl p ↦ elim (Option-cases (get_time b.created_at)) [
      | inl q ↦ rw (p, q) (ground (arith, is_negative-sub (pos b.id) (pos a.id), ltb_pos b.id a.id))
      | inr (t, q) ↦
          rw (p, q) (ground (arith, is_negative-sub (pos b.id) (pos a.id), ltb_pos b.id a.id))
    ]
    | inr (s, p) ↦ elim (Option-cases (get_time b.created_at)) [
      | inl q ↦ rw (p, q) (ground (arith, is_negative-sub (pos b.id) (pos a.id), ltb_pos b.id a.id))
      | inr (t, q) ↦
          rw (p, q)
            (ground (
              arith,
              is_negative-sub t s,
              is_zero-sub t s,
              is_negative-sub (pos b.id) (pos a.id),
              ltb_pos b.id a.id,
            ))
    ]
  ]

  -- Of two submissions neither of which is newer the ids are equal.
  ids_equal :
      (a b : QueueSubmission)
      → HasTime get_time a
      → HasTime get_time b
      → newer get_time a b ≡ false
      → newer get_time b a ≡ false
      → a.id ≡ b.id
  ids_equal a b ha hb h k =
      let (s, p) = is_some-value (get_time a.created_at) ha in
      let (t, q) = is_some-value (get_time b.created_at) hb in
      ground (arith, newer_lem get_time a b s t p q, newer_lem get_time b a t s q p)

  newest_some :
      (c : QueueSubmission) (ss : List QueueSubmission)
      → (e : QueueSubmission) × (newest_from get_time (some c) ss ≡ some e) × ((e ≡ c) ⊎ IsIn e ss)
  newest_some c [] = (c, refl, inl refl)
  newest_some c (s ∷ ss) =
      let (e, h, i) = newest_some (newer_of get_time s (some c)) ss in
      (e, h, chosen e i (Bool-cases (newer get_time s c)))
    where
      chosen :
          (e : QueueSubmission)
          → (e ≡ newer_of get_time s (some c)) ⊎ IsIn e ss
          → (newer get_time s c ≡ true) ⊎ (newer get_time s c ≡ false)
          → (e ≡ c) ⊎ ((e ≡ s) ⊎ IsIn e ss)
      chosen e (inr i) d = inr (inr i)
      chosen e (inl h) (inl d) = inr (inl (rw d at h))
      chosen e (inl h) (inr d) = inl (rw d at h)

  newest-IsIn :
      (s : QueueSubmission) (ss : List QueueSubmission)
      → IsIn s ss
      → (e : QueueSubmission) × (newest_from get_time none ss ≡ some e) × IsIn e ss
  newest-IsIn s [] i = absurd i
  newest-IsIn s (x ∷ xs) i = newest_some x xs

  module _ (submissions : List QueueSubmission) (times : All (HasTime get_time) submissions)
      (unique : UniqueKeys submission_id submissions) where
    entries :
        UniqueKeys first (latest_from get_time [] submissions)
        × All (IsEntry get_time submissions) (latest_from get_time [] submissions)
    entries =
        latest_from-entries get_time submissions submissions [] (All-of _ submissions (λ x i. i))
          (tt, tt)

    abbrev rivals : QueueSubmission → List QueueSubmission
    rivals s = filter (λ t. key_of t == key_of s) submissions

    same_assignment :
        (t s : QueueSubmission)
        → (key_of t == key_of s)
          ≡ (nat_beq t.user_id s.user_id && nat_beq t.content_block_id s.content_block_id)
    same_assignment t s =
        assignment_key_beq t.user_id s.user_id t.content_block_id s.content_block_id

    latest_of_current :
        (s : QueueSubmission)
        → IsIn s submissions
        → is_superseded submissions s ≡ false
        → is_latest get_time (get_latest_submission_ids get_time submissions) s ≡ true
    unfolding get_latest_submission_ids get_item
    latest_of_current s i h =
        let (e, found, in_rivals) =
          newest-IsIn s (rivals s)
            (IsIn-filter (λ t. key_of t == key_of s) s submissions i (beq_refl (key_of s))) in
        let (j, same) = IsIn-of_filter (λ t. key_of t == key_of s) e submissions in_rivals in
        let least =
          All_in (λ t. newer get_time t e ≡ false) s (rivals s)
            (newest_of_none get_time e (rivals s)
              (All-filter (HasTime get_time) (λ t. key_of t == key_of s) submissions times) found)
            (IsIn-filter (λ t. key_of t == key_of s) s submissions i (beq_refl (key_of s))) in
        let beaten =
          any_in
            (λ t.
              (nat_beq t.user_id s.user_id && nat_beq t.content_block_id s.content_block_id)
              && is_newer t s)
            e submissions j h in
        let one : e.id ≡ s.id =
          ids_equal e s (All_in (HasTime get_time) e submissions times j)
            (All_in (HasTime get_time) s submissions times i)
            (ground (arith, beaten, same_assignment e s, same, newer-is_newer e s)) least in
        rw one at (
          values-id (key_of s) e (latest_from get_time [] submissions)
            (get_item-latest_from get_time (key_of s) submissions [] ∙ found))

    current_of_latest :
        (s : QueueSubmission)
        → IsIn s submissions
        → is_latest get_time (get_latest_submission_ids get_time submissions) s ≡ true
        → is_superseded submissions s ≡ false
    unfolding get_latest_submission_ids get_item
    current_of_latest s i h =
        let (k, v, inside, one) = value-IsIn s.id (latest_from get_time [] submissions) h in
        let (j, named) = All_in (IsEntry get_time submissions) (k, v) _ entries.1 inside in
        let same : v ≡ s = same_of_id v s submissions unique j i one in
        let key : k ≡ key_of s = sym named ∙ ap key_of same in
        let found : get_item (key_of s) (latest_from get_time [] submissions) ≡ some s =
          ap (λ c. get_item c (latest_from get_time [] submissions)) (sym key)
          ∙ get_item_in k v _ entries.0 inside
          ∙ ap some same in
        let newest : newest_from get_time none (rivals s) ≡ some s =
          sym (get_item-latest_from get_time (key_of s) submissions []) ∙ found in
        let least =
          newest_of_none get_time s (rivals s)
            (All-filter (HasTime get_time) (λ t. key_of t == key_of s) submissions times) newest in
        none_of_any _ submissions (
          All-of _ submissions λ t i'. elim (Bool-cases (key_of t == key_of s)) [
            | inl e ↦
                let older =
                  All_in (λ u. newer get_time u s ≡ false) t (rivals s) least
                    (IsIn-filter (λ u. key_of u == key_of s) t submissions i' e) in
                ground (arith, older, newer-is_newer t s)
            | inr e ↦ ground (arith, same_assignment t s, e)
          ])

    -- A submission counts as latest exactly if none of the same user for the same block is newer.
    pub is_latest-is_superseded :
        (s : QueueSubmission)
        → IsIn s submissions
        → is_latest get_time (get_latest_submission_ids get_time submissions) s
          ≡ not (is_superseded submissions s)
    is_latest-is_superseded s i = elim (Bool-cases (is_superseded submissions s)) [
      | inr e ↦ rw e (latest_of_current s i e)
      | inl e ↦
          elim (Bool-cases
            (is_latest get_time (get_latest_submission_ids get_time submissions) s)) [
              | inr f ↦ rw e f
              | inl f ↦ absurd (ground (arith, current_of_latest s i f, e))
            ]
    ]
