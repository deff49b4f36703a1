-- ===== src/Prelude/Keyed.antt =====
-- Arrays of objects with an `id`: which ids occur, that each occurs once, and how the array methods
-- and the sort act on both.
use mathlib.Core.Path.{◌≡◌, refl, ◌∙◌}
use mathlib.Core.Bool.{Bool, false, ◌&&◌, ◌||◌}
use mathlib.Core.List.{List, [], ◌∷◌, ◌++◌, map}
use native.Mathlib.Omega.{arith}
use csg_learning_platform.Prelude.Tests.{Eq, ◌==◌}
use csg_learning_platform.Prelude.Lists.{filter, All}
use csg_learning_platform.Prelude.Sort.{insert_sorted, sort}

module _ {ℓ κ} {A : Type ℓ} {K : Type κ} ⦃e : Eq K⦄ (key : A → K) where
  -- `items.some((item) => item.id === k)`
  abbrev pub has_key : K → List A → Bool
  has_key k [] = false
  has_key k (x ∷ xs) = key x == k || has_key k xs

  -- No two elements have one key.
  abbrev pub UniqueKeys : List A → Type 0
  UniqueKeys [] = Unit
  UniqueKeys (x ∷ xs) = (has_key (key x) xs ≡ false) × UniqueKeys xs

  pub has_key-append :
      (k : K) (xs ys : List A) → has_key k (xs ++ ys) ≡ (has_key k xs || has_key k ys)
  has_key-append k [] ys = refl
  has_key-append k (x ∷ xs) ys = ground (arith, has_key-append k xs ys)

  pub has_key-filter :
      (k : K) (p : K → Bool) (xs : List A)
      → has_key k (filter (λ x. p (key x)) xs) ≡ (p k && has_key k xs)
  has_key-filter k p [] = ground arith
  has_key-filter k p (x ∷ xs) = ground (arith, has_key-filter k p xs, e.same_iff (key x) k)

  pub UniqueKeys-filter :
      (p : K → Bool) (xs : List A) → UniqueKeys xs → UniqueKeys (filter (λ x. p (key x)) xs)
  UniqueKeys-filter p [] h = tt
  UniqueKeys-filter p (x ∷ xs) (f, h) =
      ground (arith, has_key-filter (key x) p xs, UniqueKeys-filter p xs h)

  pub has_key-map :
      (k : K) (f : A → A)
      → ((x : A) → key (f x) ≡ key x)
      → (xs : List A) → has_key k (map f xs) ≡ has_key k xs
  has_key-map k f same [] = refl
  has_key-map k f same (x ∷ xs) = rw (same x, has_key-map k f same xs)

  pub UniqueKeys-map :
      (f : A → A)
      → ((x : A) → key (f x) ≡ key x)
      → (xs : List A) → UniqueKeys xs
      → UniqueKeys (map f xs)
  UniqueKeys-map f same [] h = tt
  UniqueKeys-map f same (x ∷ xs) (g, h) =
      (rw (same x) (has_key-map (key x) f same xs ∙ g), UniqueKeys-map f same xs h)

  pub UniqueKeys-append :
      (xs ys : List A)
      → UniqueKeys xs
      → UniqueKeys ys
      → All (λ x. has_key (key x) ys ≡ false) xs
      → UniqueKeys (xs ++ ys)
  UniqueKeys-append [] ys h k d = k
  UniqueKeys-append (x ∷ xs) ys (f, h) k (g, d) =
      (has_key-append (key x) xs ys ∙ rw (f, g), UniqueKeys-append xs ys h k d)

  module _ (lt : A → A → Bool) where
    has_key-insert_sorted :
        (k : K) (x : A) (ys : List A)
        → has_key k (insert_sorted lt x ys) ≡ (key x == k || has_key k ys)
    unfolding insert_sorted
    has_key-insert_sorted k x [] = ground arith
    has_key-insert_sorted k x (y ∷ ys) = ground (arith, has_key-insert_sorted k x ys)

    pub has_key-sort : (k : K) (xs : List A) → has_key k (sort lt xs) ≡ has_key k xs
    unfolding sort
    has_key-sort k [] = refl
    has_key-sort k (x ∷ xs) = has_key-insert_sorted k x (sort lt xs) ∙ rw (has_key-sort k xs)

    UniqueKeys-insert_sorted :
        (x : A) (ys : List A)
        → has_key (key x) ys ≡ false
        → UniqueKeys ys
        → UniqueKeys (insert_sorted lt x ys)
    unfolding insert_sorted
    UniqueKeys-insert_sorted x [] f h = (refl, tt)
    UniqueKeys-insert_sorted x (y ∷ ys) f (g, h) = ground (
      arith,
      e.same_iff (key y) (key x),
      e.same_iff (key x) (key y),
      has_key-insert_sorted (key y) x ys,
      UniqueKeys-insert_sorted x ys,
    )

    pub UniqueKeys-sort : (xs : List A) → UniqueKeys xs → UniqueKeys (sort lt xs)
    unfolding sort
    UniqueKeys-sort [] h = tt
    UniqueKeys-sort (x ∷ xs) (f, h) =
        UniqueKeys-insert_sorted x (sort lt xs) (has_key-sort (key x) xs ∙ f) (UniqueKeys-sort xs h)
