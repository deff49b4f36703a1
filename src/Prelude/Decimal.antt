-- ===== src/Prelude/Decimal.antt =====
-- `String(n)` of a natural number: it can be read back, and a character that is no digit ends it.
use Prim.Native.Nat.{ℕ, zero, suc, ◌+◌, ◌-◌, ◌*◌, ◌/◌, ◌%◌, ◌<◌}
use mathlib.Core.Path.{◌≡◌, refl, sym, ap, ◌∙◌}
use mathlib.Core.Bool.{Bool, true, false, ◌&&◌}
use mathlib.Core.List.{[], ◌∷◌, ◌++◌}
use native.Mathlib.Omega.{arith}
use csg_learning_platform.Prelude.Tests.{if◌then◌else◌, leb, nat_beq, nat_beq_iff, Bool-cases}
use csg_learning_platform.Prelude.Lists.{every}
use csg_learning_platform.Prelude.Text.{
  Text, text_beq, text_beq_iff, starts_with, show, digits_from,
}
use mathlib.Core.Logic.{inl, inr}

-- The number that digits stand for, behind those read before.
unfoldable pub value_from : Text → ℕ → ℕ
value_from [] n = n
value_from (d ∷ ds) n = value_from ds (n * 10 + (d - 48))

leb-false : (a b : ℕ) → leb a b ≡ false → b < a
leb-false a b h = ground arith

digits_from-value :
    (f n : ℕ) (acc : Text) → n < f → value_from (digits_from f n acc) 0 ≡ value_from acc n
unfolding digits_from value_from
digits_from-value zero n acc h = absurd (omega (arith, h))
digits_from-value (suc f) n acc h = elim (Bool-cases (leb n 9)) [
  | inl e ↦ rw e (ap (value_from acc) (omega arith))
  | inr e ↦ rw e (
      digits_from-value f (n / 10) ((48 + n % 10) ∷ acc) (omega (arith, leb-false n 9 e))
      ∙ ap (value_from acc) (omega (arith, leb-false n 9 e)))
]

pub show-value : (n : ℕ) → value_from (show n) 0 ≡ n
unfolding show value_from
show-value n = digits_from-value (suc n) n [] (omega arith)

pub show-injective : (m n : ℕ) → show m ≡ show n → m ≡ n
show-injective m n e = sym (show-value m) ∙ ap (λ s. value_from s 0) e ∙ show-value n

abbrev pub is_digit : ℕ → Bool
is_digit c = leb 48 c && leb c 57

-- No unit of the text is `c`.
abbrev pub lacks : ℕ → Text → Bool
lacks c s = every (λ d. if nat_beq d c then false else true) s

digits_from-lacks :
    (c f n : ℕ) (acc : Text)
    → is_digit c ≡ false
    → lacks c acc ≡ true
    → lacks c (digits_from f n acc) ≡ true
unfolding digits_from
digits_from-lacks c zero n acc l h = h
digits_from-lacks c (suc f) n acc l h =
    ground (arith, digits_from-lacks c f (n / 10) ((48 + n % 10) ∷ acc))

pub show-lacks : (c n : ℕ) → is_digit c ≡ false → lacks c (show n) ≡ true
unfolding show
show-lacks c n l = digits_from-lacks c (suc n) n [] l refl

-- Texts before the first `c` are equal if what they begin is.
pub starts_with-until :
    (c : ℕ) (s t r : Text)
    → lacks c s ≡ true
    → lacks c t ≡ true
    → starts_with (s ++ (c ∷ r)) (t ++ (c ∷ [])) ≡ text_beq s t
starts_with-until c [] [] r h k = ground arith
starts_with-until c [] (y ∷ t) r h k = ground arith
starts_with-until c (x ∷ s) [] r h k = ground arith
starts_with-until c (x ∷ s) (y ∷ t) r h k = ground (arith, starts_with-until c s t r)

Bool-iff : {a b : Bool} → (a ≡ true → b ≡ true) → (b ≡ true → a ≡ true) → a ≡ b
Bool-iff {a} {b} f g = ground (arith, f, g)

pub show_beq : (m n : ℕ) → text_beq (show m) (show n) ≡ nat_beq m n
show_beq m n =
    Bool-iff (λ h. (nat_beq_iff m n).1 (show-injective m n ((text_beq_iff _ _).0 h)))
      (λ h. (text_beq_iff _ _).1 (ap show ((nat_beq_iff m n).0 h)))

text_beq-until :
    (c : ℕ) (s t q r : Text)
    → lacks c s ≡ true
    → lacks c t ≡ true
    → text_beq (s ++ (c ∷ q)) (t ++ (c ∷ r)) ≡ (text_beq s t && text_beq q r)
text_beq-until c [] [] q r h k = ground arith
text_beq-until c [] (y ∷ t) q r h k = ground arith
text_beq-until c (x ∷ s) [] q r h k = ground arith
text_beq-until c (x ∷ s) (y ∷ t) q r h k = ground (arith, text_beq-until c s t q r)

-- The numbers before a `c` that is no digit decide whether one text begins with the other.
pub starts_with-show :
    (c m n : ℕ) (r : Text)
    → is_digit c ≡ false
    → starts_with (show m ++ (c ∷ r)) (show n ++ (c ∷ [])) ≡ nat_beq m n
starts_with-show c m n r l =
    starts_with-until c (show m) (show n) r (show-lacks c m l) (show-lacks c n l) ∙ show_beq m n

pub text_beq-show :
    (c m n : ℕ) (q r : Text)
    → is_digit c ≡ false
    → text_beq (show m ++ (c ∷ q)) (show n ++ (c ∷ r)) ≡ (nat_beq m n && text_beq q r)
text_beq-show c m n q r l =
    text_beq-until c (show m) (show n) q r (show-lacks c m l) (show-lacks c n l)
    ∙ ap (λ b. b && text_beq q r) (show_beq m n)
