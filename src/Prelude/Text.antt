-- ===== src/Prelude/Text.antt =====
-- JavaScript strings as lists of UTF-16 code units: `length`, `slice`, `startsWith` and the rest.
use Prim.Native.Char.{code}
use Prim.Native.String.{String}
use Prim.Native.Nat.{ℕ, zero, suc, ◌+◌, ◌-◌, ◌/◌, ◌%◌}
use mathlib.Core.Path.{◌≡◌, refl}
use mathlib.Core.Logic.{◌↔◌}
use mathlib.Core.Bool.{Bool, true, false, ◌&&◌, ◌||◌}
use mathlib.Core.List.{List, [], ◌∷◌, ◌++◌}
use native.Mathlib.Omega.{arith}
use csg_learning_platform.Prelude.Tests.{if◌then◌else◌, leb, nat_beq, Eq}
use csg_learning_platform.Prelude.Lists.{
  length, take, drop, length-append, drop-append, take-append-drop,
}

abbrev pub Text : Type 0
Text = List ℕ

-- A literal of the source. Its characters lie in the basic plane, one code unit each.
abbrev pub txt : String → Text
txt String.[] = []
txt (String.◌∷◌ c s) = code c ∷ txt s

abbrev pub text_beq : Text → Text → Bool
text_beq [] [] = true
text_beq (x ∷ xs) (y ∷ ys) = nat_beq x y && text_beq xs ys
text_beq [] (_ ∷ _) = false
text_beq (_ ∷ _) [] = false

pub text_beq_iff : (s t : Text) → (text_beq s t ≡ true) ↔ (s ≡ t)
text_beq_iff [] [] = ((λ _. refl), (λ _. refl))
text_beq_iff [] (y ∷ ys) = ground arith
text_beq_iff (x ∷ xs) [] = ground arith
text_beq_iff (x ∷ xs) (y ∷ ys) = ground (arith, text_beq_iff xs ys)

instance abbrev pub text_eq : Eq Text
text_eq = record { same = text_beq; same_iff = text_beq_iff }

abbrev pub is_empty : Text → Bool
is_empty [] = true
is_empty (_ ∷ _) = false

-- `s.startsWith(p)`, `s.endsWith(p)`.
abbrev pub starts_with : Text → Text → Bool
starts_with s [] = true
starts_with [] (_ ∷ _) = false
starts_with (x ∷ xs) (y ∷ ys) = nat_beq x y && starts_with xs ys

abbrev pub ends_with : Text → Text → Bool
ends_with s p =
    if leb (length p) (length s) then text_beq (drop (length s - length p) s) p else false

-- `s.slice(a, b)` with 0 ≤ a and 0 ≤ b.
abbrev pub slice : Text → ℕ → ℕ → Text
slice s a b = take (b - a) (drop a s)

-- The white space of `trim` and of `\s`.
unfoldable pub is_space : ℕ → Bool
is_space c =
    (leb 9 c && leb c 13)
    || nat_beq c 32
    || nat_beq c 0xa0
    || nat_beq c 0x1680
    || (leb 0x2000 c && leb c 0x200a)
    || nat_beq c 0x2028
    || nat_beq c 0x2029
    || nat_beq c 0x202f
    || nat_beq c 0x205f
    || nat_beq c 0x3000
    || nat_beq c 0xfeff

unfoldable pub drop_while : (ℕ → Bool) → Text → Text
drop_while p [] = []
drop_while p (c ∷ s) = let rest = drop_while p s in if p c then rest else c ∷ s

unfoldable pub drop_while_end : (ℕ → Bool) → Text → Text
drop_while_end p [] = []
drop_while_end p (c ∷ s) =
    let rest = drop_while_end p s in if p c && is_empty rest then [] else c ∷ rest

unfoldable pub trim_end : Text → Text
unfolding drop_while_end is_space
trim_end s = drop_while_end is_space s

unfoldable pub trim : Text → Text
unfolding drop_while drop_while_end is_space
trim s = drop_while_end is_space (drop_while is_space s)

-- Decimal digits of `String(n)`, by fuel that `n + 1` covers.
unfoldable pub digits_from : ℕ → ℕ → Text → Text
digits_from zero n acc = acc
digits_from (suc f) n acc =
    let more = digits_from f (n / 10) ((48 + n % 10) ∷ acc) in
    if leb n 9 then (48 + n) ∷ acc else more

unfoldable pub show : ℕ → Text
unfolding digits_from
show n = digits_from (suc n) n []

show_test : show 2047 ≡ txt "2047"
unfolding show
show_test = refl

trim_test : trim (txt "  a b ") ≡ txt "a b"
unfolding trim
trim_test = refl

pub starts_with_append : (p s : Text) → starts_with (p ++ s) p ≡ true
starts_with_append [] s = refl
starts_with_append (c ∷ p) s = ground (arith, starts_with_append p s)

pub starts_with-split : (s p : Text) → starts_with s p ≡ true → s ≡ p ++ drop (length p) s
starts_with-split s [] h = refl
starts_with-split [] (y ∷ p) h = ground arith
starts_with-split (x ∷ s) (y ∷ p) h = ground (arith, starts_with-split s p)

drop_add : (n : ℕ) (xs ys : Text) → n ≡ length xs → drop n (xs ++ ys) ≡ ys
drop_add n xs ys e = rw e (drop-append xs ys)

pub ends_with_append : (s p : Text) → ends_with (s ++ p) p ≡ true
ends_with_append s p =
    let e : leb (length p) (length (s ++ p)) ≡ true = ground (arith, length-append s p) in
    let n : length (s ++ p) - length p ≡ length s = omega (arith, length-append s p) in
    rw (e, drop_add _ s p n) ((text_beq_iff p p).1 refl)

pub ends_with-split : (s p : Text) → ends_with s p ≡ true → s ≡ take (length s - length p) s ++ p
ends_with-split s p h =
    ground (
      arith,
      text_beq_iff (drop (length s - length p) s) p,
      take-append-drop (length s - length p) s,
    )
