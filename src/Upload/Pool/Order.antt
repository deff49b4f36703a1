-- ===== src/Upload/Pool/Order.antt =====
-- What the workers of `uploadMultipartToS3` (web/src/lib/uploadToS3.ts) have uploaded when all are done.
use mathlib.Core.List.{Perm, perm_middle, map-append, append-nil, append_assoc}
use mathlib.Core.List.Perm
use mathlib.Core.Path.{subst}
use csg_learning_platform.Prelude.{
  ℕ, suc, ◌+◌, ◌-◌, ◌⊎◌, ◌≤◌, ◌<◌, ◌≡◌, refl, sym, arith, true, false, some, List, [], ◌∷◌, ◌++◌,
  map, ltb, length, take, Bool-cases, Option-cases, inl, inr,
}
use csg_learning_platform.Prelude.Text.{Text}
use csg_learning_platform.Upload.Parts.{Part}
use csg_learning_platform.Upload.Mobile.Order.{part_number, number}
use csg_learning_platform.Upload.Pool.{
  Pool, workers, start, get_elem?, pick, turn, resolve, uploaded, reject, turned, resolved,
  rejected, Reach, started, next,
}
use csg_learning_platform.Upload.Pool.Picking.{
  pick-perm, take-next, get_elem?-length, take-all, pick-length,
}

-- What was uploaded, then what is being uploaded.
abbrev numbers : Pool → List ℕ
numbers s = map part_number s.completed_parts ++ map number s.waiting

-- The parts before the cursor are uploaded or being uploaded, each worker is in one place, and one that
-- left its loop saw the cursor at the end.
record Invariant (parts : List Part) (s : Pool) : Type 0 where
  taken : s.failed ≡ false → Perm (numbers s) (map number (take s.cursor parts))
  within : s.cursor ≤ length parts
  counted : s.failed ≡ false → s.idle + length s.waiting + s.exited ≡ workers parts
  few : s.idle + length s.waiting + s.exited ≤ workers parts
  at_end : 0 < s.exited → length parts ≤ s.cursor

abbrev taking : Pool → Part → Pool
taking s p = record s { cursor = s.cursor + 1; idle = s.idle - 1; waiting = p ∷ s.waiting }

abbrev leaving : Pool → Pool
leaving s = record s { idle = s.idle - 1; exited = s.exited + 1 }

turn-cases :
    (parts : List Part) (s t : Pool)
    → turn parts s ≡ some t
    → ((p : Part) × (get_elem? parts s.cursor ≡ some p) × (0 < s.idle) × (t ≡ taking s p))
      ⊎ ((length parts ≤ s.cursor) × (0 < s.idle) × (t ≡ leaving s))
unfolding turn
turn-cases parts s t h = elim (Bool-cases (ltb s.cursor (length parts))) [
  | inl e ↦ elim (Option-cases (get_elem? parts s.cursor)) [
    | inl n ↦ absurd (ground arith)
    | inr (p, k) ↦ inl (p, k, ground arith, ground arith)
  ]
  | inr e ↦ inr (ground arith, ground arith, ground arith)
]

taking-perm :
    (parts : List Part) (s : Pool) (p : Part)
    → get_elem? parts s.cursor ≡ some p
    → Perm (numbers s) (map number (take s.cursor parts))
    → Perm (numbers (taking s p)) (map number (take (s.cursor + 1) parts))
taking-perm parts s p g h =
    let e : s.cursor + 1 ≡ suc s.cursor = omega arith in
    let step : take (s.cursor + 1) parts ≡ take s.cursor parts ++ p ∷ [] =
      rw e (take-next s.cursor parts p g) in
    rw (step, map-append)
      (Perm.trans (perm_middle (map part_number s.completed_parts) (map number s.waiting))
        (Perm.trans (Perm.cons (number p) h) (last_first _)))
  where
    last_first : (ns : List ℕ) → Perm (number p ∷ ns) (ns ++ number p ∷ [])
    last_first ns =
        Perm.symm
          (Perm.trans (perm_middle ns []) (Perm.cons (number p) (rw append-nil (Perm.refl _))))

turn-Invariant :
    (parts : List Part) (s t : Pool) → turn parts s ≡ some t → Invariant parts s → Invariant parts t
turn-Invariant parts s t h v = elim (turn-cases parts s t h) [
  | inl (p, g, i, e) ↦ subst (Invariant parts) (sym e) record {
    taken = λ f. taking-perm parts s p g (v.taken f);
    within = omega (arith, get_elem?-length parts s.cursor p g);
    counted = λ f. omega (arith, i, v.counted f);
    few = omega (arith, i, v.few);
    at_end = λ x. omega (arith, v.at_end x);
  }
  | inr (c, i, e) ↦ subst (Invariant parts) (sym e) record {
    taken = v.taken;
    within = v.within;
    counted = λ f. omega (arith, i, v.counted f);
    few = omega (arith, i, v.few);
    at_end = λ x. c;
  }
]

abbrev finished : Pool → Text → Part → List Part → Pool
finished s etag p rest = record s {
  waiting = rest;
  completed_parts = s.completed_parts ++ uploaded p etag ∷ [];
  idle = s.idle + 1;
}

abbrev lost : Pool → List Part → Pool
lost s rest = record s { waiting = rest; failed = true }

resolve-cases :
    (i : ℕ) (etag : Text) (s t : Pool)
    → resolve i etag s ≡ some t
    → (p : Part) × (rest : List Part) × (pick i s.waiting ≡ some (p, rest))
      × (t ≡ finished s etag p rest)
unfolding resolve
resolve-cases i etag s t h = elim (Option-cases (pick i s.waiting)) [
  | inl n ↦ absurd (ground arith)
  | inr ((p, rest), k) ↦ (p, rest, k, ground arith)
]

reject-cases :
    (i : ℕ) (s t : Pool)
    → reject i s ≡ some t
    → (p : Part) × (rest : List Part) × (pick i s.waiting ≡ some (p, rest)) × (t ≡ lost s rest)
unfolding reject
reject-cases i s t h = elim (Option-cases (pick i s.waiting)) [
  | inl n ↦ absurd (ground arith)
  | inr ((p, rest), k) ↦ (p, rest, k, ground arith)
]

resolve-Invariant :
    (parts : List Part) (i : ℕ) (etag : Text) (s t : Pool)
    → resolve i etag s ≡ some t
    → Invariant parts s
    → Invariant parts t
resolve-Invariant parts i etag s t h v =
    let (p, rest, k, e) = resolve-cases i etag s t h in
    subst (Invariant parts) (sym e) record {
      taken = λ f. Perm.trans (moved p rest k) (v.taken f);
      within = v.within;
      counted = λ f. omega (arith, pick-length i s.waiting p rest k, v.counted f);
      few = omega (arith, pick-length i s.waiting p rest k, v.few);
      at_end = v.at_end;
    }
  where
    moved :
        (p : Part) (rest : List Part)
        → pick i s.waiting ≡ some (p, rest)
        → Perm (numbers (finished s etag p rest)) (numbers s)
    moved p rest k =
        rw (map-append, append_assoc)
          (Perm.append_left (map part_number s.completed_parts)
            (Perm.symm (pick-perm i s.waiting p rest k)))

reject-Invariant :
    (parts : List Part) (i : ℕ) (s t : Pool)
    → reject i s ≡ some t
    → Invariant parts s
    → Invariant parts t
reject-Invariant parts i s t h v =
    let (p, rest, k, e) = reject-cases i s t h in
    subst (Invariant parts) (sym e) record {
      taken = λ f. absurd (ground arith);
      within = v.within;
      counted = λ f. absurd (ground arith);
      few = omega (arith, pick-length i s.waiting p rest k, v.few);
      at_end = v.at_end;
    }

start-Invariant : (parts : List Part) → Invariant parts (start parts)
unfolding start
start-Invariant parts = record {
  taken = λ f. Perm.refl _;
  within = omega arith;
  counted = λ f. omega arith;
  few = omega arith;
  at_end = λ x. absurd (omega (arith, x));
}

Reach-Invariant : {parts : List Part} {s : Pool} → Reach parts s → Invariant parts s
Reach-Invariant started = start-Invariant _
Reach-Invariant (next r (turned h)) = turn-Invariant _ _ _ h (Reach-Invariant r)
Reach-Invariant (next r (resolved i etag h)) = resolve-Invariant _ i etag _ _ h (Reach-Invariant r)
Reach-Invariant (next r (rejected i h)) = reject-Invariant _ i _ _ h (Reach-Invariant r)

-- In every interleaving of the workers at most three parts are being uploaded, the cursor stays within
-- the parts, and when no upload was rejected and every worker has left its loop, the completed parts
-- are the parts of the file, each once, in some order.
pub pool_correct :
    {parts : List Part} {s : Pool}
    → Reach parts s
    → (length s.waiting ≤ 3)
      × (s.cursor ≤ length parts)
      × (s.failed ≡ false
          → s.exited ≡ workers parts
          → Perm (map part_number s.completed_parts) (map number parts))
pool_correct {parts} {s} r =
    let v : Invariant parts s = Reach-Invariant r in
    (omega (arith, v.few), v.within, λ f d. ended v f d)
  where
    ended :
        Invariant parts s
        → s.failed ≡ false
        → s.exited ≡ workers parts
        → Perm (map part_number s.completed_parts) (map number parts)
    ended v f d =
        let w : length s.waiting ≡ 0 = omega (arith, v.counted f, d) in
        let c : s.cursor ≡ length parts = grind (arith, v.within, v.at_end, d) in
        whole (subst (λ n. Perm (numbers s) (map number (take n parts))) c (v.taken f))
          (none_left s.waiting w)
      where
        none_left : (ps : List Part) → length ps ≡ 0 → ps ≡ []
        none_left [] e = refl
        none_left (p ∷ ps) e = absurd (omega (arith, e))

        whole :
            Perm (numbers s) (map number (take (length parts) parts))
            → s.waiting ≡ []
            → Perm (map part_number s.completed_parts) (map number parts)
        whole p e =
            let q : numbers s ≡ map part_number s.completed_parts = rw (e, append-nil) refl in
            subst (λ ns. Perm ns (map number parts)) q
              (subst (λ ps. Perm (numbers s) (map number ps)) (take-all parts) p)
