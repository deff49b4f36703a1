-- ===== src/Json.antt =====
-- Values of JSON text, as the clients read them. Numbers are the integers that the clients store.
use csg_learning_platform.Prelude.{
  ℕ, zero, Bool, true, false, Option, none, some, List, [], ◌∷◌, if◌then◌else◌, ◌==◌, ◌≡◌, refl, ap,
}
use csg_learning_platform.Prelude.Text.{Text, text_eq}

mutual
  pub data Json : Type 0 where
    null : Json
    bool : Bool → Json
    num : ℕ → Json
    -- The number below zero by one more than this.
    negsuc : ℕ → Json
    str : Text → Json
    arr : Items → Json
    obj : Fields → Json

  pub data Items : Type 0 where
    nil : Items
    cons : Json → Items → Items

  pub data Fields : Type 0 where
    end : Fields
    field : Text → Json → Fields → Fields

abbrev pub items : Items → List Json
items nil = []
items (cons v vs) = v ∷ items vs

abbrev pub of_list : List Json → Items
of_list [] = nil
of_list (v ∷ vs) = cons v (of_list vs)

pub items-of_list : (vs : List Json) → items (of_list vs) ≡ vs
items-of_list [] = refl
items-of_list (v ∷ vs) = ap (◌∷◌ v) (items-of_list vs)

-- `value.name`; `none` is `undefined`.
abbrev pub get_field : Text → Fields → Option Json
get_field name end = none
get_field name (field k v fs) = if k == name then some v else get_field name fs

abbrev pub property : Text → Json → Option Json
property name (obj fs) = get_field name fs
property name null = none
property name (bool b) = none
property name (num n) = none
property name (negsuc n) = none
property name (str s) = none
property name (arr xs) = none

-- `Array.isArray(value)`, and `typeof value === 'boolean'`.
abbrev pub is_array : Option Json → Bool
is_array (some (arr xs)) = true
is_array _ = false

abbrev pub is_boolean : Option Json → Bool
is_boolean (some (bool b)) = true
is_boolean _ = false

-- `value && typeof value === 'object'`
abbrev pub is_object : Json → Bool
is_object (obj fs) = true
is_object (arr xs) = true
is_object _ = false

-- `Boolean(value)`; `none` is `undefined`.
abbrev pub truthy : Option Json → Bool
truthy none = false
truthy (some null) = false
truthy (some (bool b)) = b
truthy (some (num zero)) = false
truthy (some (str [])) = false
truthy (some _) = true
