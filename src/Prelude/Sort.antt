-- ===== src/Prelude/Sort.antt =====
-- `Array.prototype.sort`: a stable sort by a comparator, of which only "negative" matters.
use mathlib.Core.Path.{◌≡◌}
use mathlib.Core.Bool.{Bool, true, false}
use mathlib.Core.List.{List, [], ◌∷◌, Perm}
use mathlib.Core.List.Perm
use csg_learning_platform.Prelude.Tests.{if◌then◌else◌, Bool-cases}
use csg_learning_platform.Prelude.Lists.{All, filter}
use mathlib.Core.Logic.{inl, inr}

-- `lt a b` is "the comparator of a and b is negative".
module _ {ℓ} {A : Type ℓ} (lt : A → A → Bool) where
  -- An element goes before the first one that does not precede it.
  unfoldable pub insert_sorted : A → List A → List A
  insert_sorted x [] = x ∷ []
  insert_sorted x (y ∷ ys) =
      let later = y ∷ insert_sorted x ys in if lt y x then later else x ∷ y ∷ ys

  unfoldable pub sort : List A → List A
  unfolding insert_sorted
  sort [] = []
  sort (x ∷ xs) = insert_sorted x (sort xs)

  -- No element precedes one that stands before it.
  abbrev pub IsSorted : List A → Type 0
  IsSorted [] = Unit
  IsSorted (x ∷ xs) = All (λ y. lt y x ≡ false) xs × IsSorted xs

  insert_sorted-perm : (x : A) (ys : List A) → Perm (insert_sorted x ys) (x ∷ ys)
  unfolding insert_sorted
  insert_sorted-perm x [] = Perm.refl _
  insert_sorted-perm x (y ∷ ys) = elim (Bool-cases (lt y x)) [
    | inl e ↦ rw e (Perm.trans (Perm.cons y (insert_sorted-perm x ys)) (Perm.swap _ _ _))
    | inr e ↦ rw e (Perm.refl _)
  ]

  pub sort-perm : (xs : List A) → Perm (sort xs) xs
  unfolding sort
  sort-perm [] = Perm.refl _
  sort-perm (x ∷ xs) = Perm.trans (insert_sorted-perm x (sort xs)) (Perm.cons x (sort-perm xs))

  module _ (p : A → Bool) where
    filter-insert_sorted :
        (x : A) (ys : List A) → Perm (filter p (insert_sorted x ys)) (filter p (x ∷ ys))
    unfolding insert_sorted
    filter-insert_sorted x [] = Perm.refl _
    filter-insert_sorted x (y ∷ ys) =
        let rec = filter-insert_sorted x ys in
        elim (Bool-cases (lt y x)) [
          | inr e ↦ rw e (Perm.refl _)
          | inl e ↦ elim (Bool-cases (p y)) [
            | inr out ↦ rw (e, out) rec
            | inl kept ↦ elim (Bool-cases (p x)) [
              | inl both ↦
                  rw (e, kept, both) (Perm.trans (Perm.cons y (rw both at rec)) (Perm.swap _ _ _))
              | inr gone ↦ rw (e, kept, gone) (Perm.cons y (rw gone at rec))
            ]
          ]
        ]

    -- Sorting keeps what passes a test.
    pub filter-sort : (xs : List A) → Perm (filter p (sort xs)) (filter p xs)
    unfolding sort
    filter-sort [] = Perm.refl _
    filter-sort (x ∷ xs) =
        let rec = filter-sort xs in
        let inserted = filter-insert_sorted x (sort xs) in
        elim (Bool-cases (p x)) [
          | inl e ↦ rw e (Perm.trans (rw e at inserted) (Perm.cons x rec))
          | inr e ↦ rw e (Perm.trans (rw e at inserted) rec)
        ]

  module _ {κ} (P : A → Type κ) where
    pub All-insert_sorted : (x : A) (ys : List A) → P x → All P ys → All P (insert_sorted x ys)
    unfolding insert_sorted
    All-insert_sorted x [] p h = (p, tt)
    All-insert_sorted x (y ∷ ys) p (q, h) = elim (Bool-cases (lt y x)) [
      | inl e ↦ rw e (q, All-insert_sorted x ys p h)
      | inr e ↦ rw e (p, (q, h))
    ]

    pub All-sort : (xs : List A) → All P xs → All P (sort xs)
    unfolding sort
    All-sort [] h = tt
    All-sort (x ∷ xs) (p, h) = All-insert_sorted x (sort xs) p (All-sort xs h)

-- On elements where the comparator is a strict weak order, the result is in order.
module _ {ℓ κ} {A : Type ℓ} (lt : A → A → Bool) (P : A → Type κ)
    (asym : (a b : A) → P a → P b → lt a b ≡ true → lt b a ≡ false)
    (chain : (a b c : A) → P a → P b → P c → lt b a ≡ false → lt c b ≡ false → lt c a ≡ false) where
  not_before :
      (x y : A) (ys : List A)
      → P x
      → P y
      → lt y x ≡ false
      → All P ys
      → All (λ z. lt z y ≡ false) ys
      → All (λ z. lt z x ≡ false) ys
  not_before x y [] p q e h k = tt
  not_before x y (z ∷ ys) p q e (r, h) (f, k) = (chain x y z p q r e f, not_before x y ys p q e h k)

  insert_sorted-IsSorted :
      (x : A) (ys : List A) → P x → All P ys → IsSorted lt ys → IsSorted lt (insert_sorted lt x ys)
  unfolding insert_sorted
  insert_sorted-IsSorted x [] p h s = (tt, tt)
  insert_sorted-IsSorted x (y ∷ ys) p (q, h) (k, s) = elim (Bool-cases (lt y x)) [
    | inl e ↦ rw e (
      All-insert_sorted lt (λ z. lt z y ≡ false) x ys (asym y x q p e) k,
      insert_sorted-IsSorted x ys p h s,
    )
    | inr e ↦ rw e ((e, not_before x y ys p q e h k), (k, s))
  ]

  pub sort-IsSorted : (xs : List A) → All P xs → IsSorted lt (sort lt xs)
  unfolding sort
  sort-IsSorted [] h = tt
  sort-IsSorted (x ∷ xs) (p, h) =
      insert_sorted-IsSorted x (sort lt xs) p (All-sort lt P xs h) (sort-IsSorted xs h)
