-- ===== src/Upload/Pool/Picking.antt =====
-- Taking a part off the lists of the workers of `uploadMultipartToS3` (web/src/lib/uploadToS3.ts).
use mathlib.Core.List.{Perm}
use mathlib.Core.List.Perm
use csg_learning_platform.Prelude.{
  ℕ, zero, suc, ◌<◌, ◌≡◌, refl, sym, ap, arith, Option, none, some, List, [], ◌∷◌, ◌++◌, map,
  length, take,
}
use csg_learning_platform.Upload.Parts.{Part}
use csg_learning_platform.Upload.Mobile.Order.{number}
use csg_learning_platform.Upload.Pool.{get_elem?, pick, keep}

pub pick-perm :
    (i : ℕ) (ps : List Part) (p : Part) (rest : List Part)
    → pick i ps ≡ some (p, rest)
    → Perm (map number ps) (number p ∷ map number rest)
unfolding pick
pick-perm i [] p rest h = absurd (ground arith)
pick-perm zero (q ∷ ps) p rest h =
    let a : q ≡ p = ground arith in let b : ps ≡ rest = ground arith in rw (a, b) (Perm.refl _)
pick-perm (suc i) (q ∷ ps) p rest h = go (pick i ps) refl h (pick-perm i ps)
  where
    go :
        (o : Option (Part × List Part))
        → pick i ps ≡ o
        → keep q o ≡ some (p, rest)
        → ((r : Part) (rs : List Part)
            → pick i ps ≡ some (r, rs)
            → Perm (map number ps) (number r ∷ map number rs))
        → Perm (map number (q ∷ ps)) (number p ∷ map number rest)
    go none e k rec = absurd (ground arith)
    go (some (r, rs)) e k rec =
        let a : r ≡ p = ground arith in
        let b : q ∷ rs ≡ rest = ground arith in
        rw (sym a, sym b) (Perm.trans (Perm.cons _ (rec r rs e)) (Perm.swap _ _ _))

pub take-next :
    (i : ℕ) (ps : List Part) (p : Part)
    → get_elem? ps i ≡ some p
    → take (suc i) ps ≡ take i ps ++ p ∷ []
unfolding get_elem?
take-next i [] p h = absurd (ground arith)
take-next zero (q ∷ ps) p h = ground arith
take-next (suc i) (q ∷ ps) p h = ap (◌∷◌ q) (take-next i ps p h)

pub get_elem?-length : (ps : List Part) (i : ℕ) (p : Part) → get_elem? ps i ≡ some p → i < length ps
unfolding get_elem?
get_elem?-length [] i p h = absurd (ground arith)
get_elem?-length (q ∷ ps) zero p h = omega arith
get_elem?-length (q ∷ ps) (suc i) p h = omega (arith, get_elem?-length ps i p h)

pub take-all : (ps : List Part) → take (length ps) ps ≡ ps
take-all [] = refl
take-all (p ∷ ps) = ap (◌∷◌ p) (take-all ps)

pub keep-length :
    (o : Option (Part × List Part)) (n : ℕ) (q p : Part) (rest : List Part)
    → ((r : Part) (rs : List Part) → o ≡ some (r, rs) → n ≡ suc (length rs))
    → keep q o ≡ some (p, rest)
    → suc n ≡ suc (length rest)
keep-length none n q p rest f h = absurd (ground arith)
keep-length (some (r, rs)) n q p rest f h =
    let e : q ∷ rs ≡ rest = ground arith in rw (sym e) (omega (arith, f r rs refl))

pub pick-length :
    (i : ℕ) (ps : List Part) (p : Part) (rest : List Part)
    → pick i ps ≡ some (p, rest)
    → length ps ≡ suc (length rest)
unfolding pick
pick-length i [] p rest h = absurd (ground arith)
pick-length zero (q ∷ ps) p rest h = let b : ps ≡ rest = ground arith in rw b refl
pick-length (suc i) (q ∷ ps) p rest h =
    keep-length (pick i ps) (length ps) q p rest (pick-length i ps) h
