-- ===== src/Queue/Members.antt =====
-- The map of `getLatestSubmissionIds` (web/src/lib/submissionQueue.ts): its keys, and the submissions in it.
use csg_learning_platform.Prelude.{
  String, Bool, true, false, ◌||◌, Option, none, some, List, [], ◌∷◌, ◌≡◌, refl, arith, ap, ◌⊎◌,
  inl, inr, sym, ◌==◌, filter, All, Bool-cases, beq_refl, beq→eq, beq_sym,
}
use csg_learning_platform.Prelude.Int.{ℤ}
use csg_learning_platform.Prelude.Text.{Text, text_eq}
use csg_learning_platform.Prelude.Assoc.{get_item, set_item}
use csg_learning_platform.Prelude.Keyed.{has_key, UniqueKeys}
use csg_learning_platform.Queue.{QueueSubmission, key_of, newer, put_latest, latest_from}

abbrev pub IsIn : {A : Type 0} → A → List A → Type 0
IsIn x [] = ⊥
IsIn x (y ∷ ys) = (x ≡ y) ⊎ IsIn x ys

pub All_in {κ} : {A : Type 0} (P : A → Type κ) (x : A) (xs : List A) → All P xs → IsIn x xs → P x
All_in P x [] h i = absurd i
All_in P x (y ∷ ys) (p, h) (inl e) = rw e p
All_in P x (y ∷ ys) (p, h) (inr i) = All_in P x ys h i

pub IsIn-filter :
    {A : Type 0} (p : A → Bool) (x : A) (xs : List A)
    → IsIn x xs
    → p x ≡ true
    → IsIn x (filter p xs)
IsIn-filter p x [] i h = absurd i
IsIn-filter p x (y ∷ ys) (inl e) h = rw (sym e) (rw h (inl refl))
IsIn-filter p x (y ∷ ys) (inr i) h = elim (Bool-cases (p y)) [
  | inl passes ↦ rw passes (inr (IsIn-filter p x ys i h))
  | inr drops ↦ rw drops (IsIn-filter p x ys i h)
]

pub IsIn-of_filter :
    {A : Type 0} (p : A → Bool) (x : A) (xs : List A)
    → IsIn x (filter p xs)
    → IsIn x xs × (p x ≡ true)
IsIn-of_filter p x [] i = absurd i
IsIn-of_filter p x (y ∷ ys) i = elim (Bool-cases (p y)) [
  | inl passes ↦ at_head passes (IsIn-of_filter p x ys) (rw passes at i)
  | inr drops ↦ let (j, h) = IsIn-of_filter p x ys (rw drops at i) in (inr j, h)
]
  where
    at_head :
        p y ≡ true
        → (IsIn x (filter p ys) → IsIn x ys × (p x ≡ true))
        → IsIn x (y ∷ filter p ys)
        → IsIn x (y ∷ ys) × (p x ≡ true)
    at_head passes later (inl e) = (inl e, rw e passes)
    at_head passes later (inr j) = let (i, h) = later j in (inr i, h)

abbrev pub first {ℓ κ} : {A : Type ℓ} {B : Type κ} → A × B → A
first b = b.0

abbrev pub Map : Type 0
Map = List (Text × QueueSubmission)

has_key-set_item :
    (j k : Text) (v : QueueSubmission) (m : Map)
    → has_key first j (set_item k v m) ≡ (k == j || has_key first j m)
unfolding set_item
has_key-set_item j k v [] = refl
has_key-set_item j k v ((i, w) ∷ m) = elim (Bool-cases (i == k)) [
  | inl e ↦ let same : i ≡ k = beq→eq i k e in rw e (rw same (ground arith))
  | inr e ↦ rw e (ground (arith, has_key-set_item j k v m))
]

UniqueKeys-set_item :
    (k : Text) (v : QueueSubmission) (m : Map)
    → UniqueKeys first m
    → UniqueKeys first (set_item k v m)
unfolding set_item
UniqueKeys-set_item k v [] u = (refl, tt)
UniqueKeys-set_item k v ((i, w) ∷ m) (fresh, u) = elim (Bool-cases (i == k)) [
  | inl e ↦ rw e (rw (beq→eq i k e) at fresh, u)
  | inr e ↦
      rw e (
        ground (arith, has_key-set_item i k v m, beq_sym i k, fresh, e),
        UniqueKeys-set_item k v m u,
      )
]

All-set_item {κ} :
    (P : Text × QueueSubmission → Type κ) (k : Text) (v : QueueSubmission) (m : Map)
    → P (k, v)
    → All P m
    → All P (set_item k v m)
unfolding set_item
All-set_item P k v [] p h = (p, tt)
All-set_item P k v ((i, w) ∷ m) p (q, h) = elim (Bool-cases (i == k)) [
  | inl e ↦ rw e (p, h)
  | inr e ↦ rw e (q, All-set_item P k v m p h)
]

pub get_item_in :
    (k : Text) (v : QueueSubmission) (m : Map)
    → UniqueKeys first m
    → IsIn (k, v) m
    → get_item k m ≡ some v
unfolding get_item
get_item_in k v [] u i = absurd i
get_item_in k v ((i, w) ∷ m) (fresh, u) (inl e) =
    let a : k ≡ i = ap (λ b. b.0) e in
    let b : v ≡ w = ap (λ b. b.1) e in rw (sym a) (rw (beq_refl k) (rw b refl))
get_item_in k v ((i, w) ∷ m) (fresh, u) (inr j) = elim (Bool-cases (i == k)) [
  | inl e ↦ let same : i ≡ k = beq→eq i k e in absurd (has_not k v m (rw same at fresh) j)
  | inr e ↦ rw e (get_item_in k v m u j)
]
  where
    has_not :
        (k : Text) (v : QueueSubmission) (m : Map) → has_key first k m ≡ false → IsIn (k, v) m → ⊥
    has_not k v [] h i = i
    has_not k v ((i, w) ∷ m) h (inl e) =
        let a : k ≡ i = ap (λ b. b.0) e in ground (arith, h, beq_refl k, rw (sym a) at h)
    has_not k v ((i, w) ∷ m) h (inr j) = has_not k v m (ground (arith, h)) j

module _ (get_time : String → Option ℤ) (submissions : List QueueSubmission) where
  -- An entry of a submission under its key.
  abbrev pub IsEntry : Text × QueueSubmission → Type 0
  IsEntry b = IsIn b.1 submissions × (key_of b.1 ≡ b.0)

  put_latest-entries :
      (s : QueueSubmission) (o : Option QueueSubmission) (m : Map)
      → IsIn s submissions
      → UniqueKeys first m × All IsEntry m
      → UniqueKeys first (put_latest get_time s o m) × All IsEntry (put_latest get_time s o m)
  put_latest-entries s none m i (u, h) =
      (UniqueKeys-set_item (key_of s) s m u, All-set_item IsEntry (key_of s) s m (i, refl) h)
  put_latest-entries s (some c) m i (u, h) = elim (Bool-cases (newer get_time s c)) [
    | inl e ↦
        rw e (UniqueKeys-set_item (key_of s) s m u, All-set_item IsEntry (key_of s) s m (i, refl) h)
    | inr e ↦ rw e (u, h)
  ]

  pub latest_from-entries :
      (ss : List QueueSubmission) (m : Map)
      → All (λ s. IsIn s submissions) ss
      → UniqueKeys first m × All IsEntry m
      → UniqueKeys first (latest_from get_time m ss) × All IsEntry (latest_from get_time m ss)
  unfolding latest_from
  latest_from-entries [] m i h = h
  latest_from-entries (s ∷ ss) m (i, is) h =
      latest_from-entries ss (put_latest get_time s (get_item (key_of s) m) m) is
        (put_latest-entries s (get_item (key_of s) m) m i h)
