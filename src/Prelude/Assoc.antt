-- ===== src/Prelude/Assoc.antt =====
-- `Map` and the key-value stores: an association list in insertion order.
use mathlib.Core.Path.{◌≡◌, refl}
use mathlib.Core.Bool.{Bool, not}
use mathlib.Core.Option.{Option, none, some}
use mathlib.Core.List.{List, [], ◌∷◌}
use native.Mathlib.Omega.{arith}
use csg_learning_platform.Prelude.Tests.{if◌then◌else◌, Eq, ◌==◌}
use csg_learning_platform.Prelude.Lists.{filter}

module _ {ℓ κ} {K : Type ℓ} {V : Type κ} ⦃e : Eq K⦄ where
  unfoldable pub get_item : K → List (K × V) → Option V
  get_item k [] = none
  get_item k ((j, v) ∷ m) = if j == k then some v else get_item k m

  unfoldable pub set_item : K → V → List (K × V) → List (K × V)
  set_item k v [] = (k, v) ∷ []
  set_item k v ((j, w) ∷ m) = if j == k then (k, v) ∷ m else (j, w) ∷ set_item k v m

  -- Removal of every key that passes a test.
  unfoldable pub remove_if : (K → Bool) → List (K × V) → List (K × V)
  remove_if p m = filter (λ b. not (p b.0)) m

  pub get_item-set_item :
      (key other : K) (value : V) (store : List (K × V))
      → get_item other (set_item key value store)
        ≡ (if key == other then some value else get_item other store)
  unfolding get_item set_item
  get_item-set_item key other value [] = refl
  get_item-set_item key other value ((k, old) ∷ store) = ground (
    arith,
    get_item-set_item key other value store,
    e.same_iff k other,
    e.same_iff key other,
    e.same_iff k key,
  )

  pub get_item-remove_if :
      (p : K → Bool) (j : K) (m : List (K × V))
      → get_item j (remove_if p m) ≡ (if p j then none else get_item j m)
  unfolding get_item remove_if
  get_item-remove_if p j [] = ground arith
  get_item-remove_if p j ((i, w) ∷ m) = ground (arith, e.same_iff i j, get_item-remove_if p j m)
