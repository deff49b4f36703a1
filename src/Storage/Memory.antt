-- ===== src/Storage/Memory.antt =====
-- A store in memory: an association list that keeps the laws of the interface.
use csg_learning_platform.Prelude.{Bool, List, [], ◌∷◌, ◌≡◌, refl, arith, ◌==◌, is_some, any, map}
use csg_learning_platform.Prelude.Text.{Text, text_eq}
use csg_learning_platform.Prelude.Assoc.{
  get_item, set_item, remove_if, get_item-set_item, get_item-remove_if,
}
use csg_learning_platform.Storage.{KeyValueStore}

abbrev pub Memory : Type 0
Memory = List (Text × Text)

abbrev pub key_of : Text × Text → Text
key_of (k, v) = k

pub keys-get_item :
    (k : Text) (m : Memory) → any (λ j. j == k) (map key_of m) ≡ is_some (get_item k m)
unfolding get_item
keys-get_item k [] = refl
keys-get_item k ((j, v) ∷ m) = ground (arith, keys-get_item k m)

abbrev pub in_any : List Text → Text → Bool
in_any ks j = any (λ k. k == j) ks

instance abbrev pub memory : KeyValueStore Memory
memory = record {
  get = get_item;
  set = set_item;
  remove = λ k m. remove_if (λ j. k == j) m;
  all_keys = λ m. map key_of m;
  multi_remove = λ ks m. remove_if (in_any ks) m;
  get-set = λ k other v m. get_item-set_item k other v m;
  get-remove = λ k other m. get_item-remove_if (λ j. k == j) other m;
  get-multi_remove = λ ks other m. get_item-remove_if (in_any ks) other m;
  all_keys-get = keys-get_item;
}
