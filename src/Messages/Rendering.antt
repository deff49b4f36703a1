-- ===== src/Messages/Rendering.antt =====
-- What web/src/pages/shared/Messages.tsx shows of a text with mentions or links is the text.
use mathlib.Core.List.{append_assoc, append-nil}
use csg_learning_platform.Prelude.{
  ℕ, zero, suc, ◌+◌, ◌-◌, ◌≤◌, Bool, true, Option, none, some, List, [], ◌∷◌, ◌++◌, ◌≡◌, refl, sym,
  ap, ◌∙◌, arith, nat_beq, ltb, leb, length, take, drop, Bool-cases, inl, inr, every, any, find,
  take-append-drop,
}
use csg_learning_platform.Prelude.Text.{Text, txt, text_eq, slice, ends_with, ends_with-split}
use csg_learning_platform.Messages.Mentions.{
  Pattern, Match, matches_at, match_of, go_on, found_at, find_from, find_mention_matches,
  render_from, render_text, add_front, split_punctuation, close_paren,
  split_trailing_url_punctuation,
}

abbrev pub join : List Text → Text
join [] = []
join (s ∷ ss) = s ++ join ss

-- Matches from an index on: in order, without an overlap, each with its own part of the text.
abbrev pub Ordered : Text → ℕ → List Match → Type 0
Ordered text at [] = Unit
Ordered text at (m ∷ ms) =
    (at ≤ m.from) × (m.from ≤ m.to) × (m.text ≡ slice text m.from m.to) × Ordered text m.to ms

drop-nil : (n : ℕ) → drop {A = ℕ} n [] ≡ []
drop-nil zero = refl
drop-nil (suc n) = refl

drop-sub : (a b : ℕ) (s : Text) → a ≤ b → drop b s ≡ drop (b - a) (drop a s)
drop-sub zero b s h = let e : b - 0 ≡ b = omega arith in rw e refl
drop-sub (suc a) zero s h = absurd (omega (arith, h))
drop-sub (suc a) (suc b) [] h = sym (drop-nil (suc b - suc a))
drop-sub (suc a) (suc b) (c ∷ s) h =
    let e : suc b - suc a ≡ b - a = omega arith in rw e (drop-sub a b s (omega (arith, h)))

drop-slice : (a b : ℕ) (s : Text) → a ≤ b → drop a s ≡ slice s a b ++ drop b s
drop-slice a b s h = rw (drop-sub a b s h) (sym (take-append-drop (b - a) (drop a s)))

drop-end : (n : ℕ) (s : Text) → length s ≤ n → drop n s ≡ []
drop-end zero [] h = refl
drop-end zero (c ∷ s) h = absurd (omega (arith, h))
drop-end (suc n) [] h = refl
drop-end (suc n) (c ∷ s) h = drop-end n s (omega (arith, h))

Ordered-from :
    (text : Text) (a b : ℕ) (ms : List Match) → a ≤ b → Ordered text b ms → Ordered text a ms
Ordered-from text a b [] h k = tt
Ordered-from text a b (m ∷ ms) h (p, q, r, rest) = (omega (arith, h, p), q, r, rest)

find_from-Ordered :
    (to_lower_case : Text → Text) (text : Text) (patterns : List Pattern) (fuel index : ℕ)
    → Ordered text index (find_from to_lower_case text patterns fuel index)
unfolding find_from
find_from-Ordered lower text patterns zero index = tt
find_from-Ordered lower text patterns (suc fuel) index =
    elim (Bool-cases (leb (length text) index)) [
      | inl done ↦ rw done tt
      | inr more ↦
          rw more
            (next (found_at lower text patterns index) (find_from-Ordered lower text patterns fuel))
    ]
  where
    next :
        (o : Option Pattern)
        → ((i : ℕ) → Ordered text i (find_from lower text patterns fuel i))
        → Ordered text index (go_on text index o (find_from lower text patterns fuel))
    next none rec = Ordered-from text index (index + 1) _ (omega arith) (rec (index + 1))
    next (some p) rec = (omega arith, omega arith, refl, rec (index + length p.label))

render_from-join :
    (text : Text) (cursor : ℕ) (ms : List Match)
    → Ordered text cursor ms
    → join (render_from text cursor ms) ≡ drop cursor text
unfolding render_from
render_from-join text cursor [] h = elim (Bool-cases (ltb cursor (length text))) [
  | inl more ↦ rw (more, append-nil) refl
  | inr done ↦ rw done (sym (drop-end cursor text (ground arith)))
]
render_from-join text cursor (m ∷ ms) (h, k, e, rest) =
    let tail : m.text ++ join (render_from text m.to ms) ≡ drop m.from text =
      rw (e, render_from-join text m.to ms rest) (sym (drop-slice m.from m.to text k)) in
    elim (Bool-cases (ltb cursor m.from)) [
      | inl gap ↦ rw (gap, tail) (sym (drop-slice cursor m.from text h))
      | inr touching ↦ let same : cursor ≡ m.from = ground arith in rw (touching, same) tail
    ]

-- The mentions that are found in a text stand in its order and do not overlap, and the nodes that are
-- shown for it, mentions and the text between them, make up the text again.
pub render_text-find_mention_matches :
    (to_lower_case : Text → Text) (text : Text) (patterns : List Pattern)
    → Ordered text 0 (find_mention_matches to_lower_case text patterns)
      × (join (render_text text (find_mention_matches to_lower_case text patterns)) ≡ text)
unfolding find_mention_matches render_text
render_text-find_mention_matches lower text patterns =
    (found, whole (find_from lower text patterns (length text) 0) found)
  where
    found : Ordered text 0 (find_from lower text patterns (length text) 0)
    found = find_from-Ordered lower text patterns (length text) 0

    whole : (ms : List Match) → Ordered text 0 ms → join (render_text text ms) ≡ text
    whole [] h = append-nil text
    whole (m ∷ ms) h = render_from-join text 0 (m ∷ ms) h

abbrev pub is_labelled : Pattern → Bool
is_labelled p = ltb 0 (length p.label)

find-is_labelled :
    (q : Pattern → Bool) (patterns : List Pattern) (p : Pattern)
    → every is_labelled patterns ≡ true
    → find q patterns ≡ some p
    → 1 ≤ length p.label
find-is_labelled q [] p labels e = absurd (ground arith)
find-is_labelled q (r ∷ rs) p labels e = elim (Bool-cases (q r)) [
  | inl here ↦ let same : r ≡ p = ground arith in rw (sym same) (ground arith)
  | inr later ↦ find-is_labelled q rs p (ground arith) (ground arith)
]

-- A round for each character of the text is enough: with labels that are not empty, more fuel finds
-- the same mentions.
find_from_enough :
    (to_lower_case : Text → Text) (text : Text) (patterns : List Pattern) (fuel more index : ℕ)
    → every is_labelled patterns ≡ true
    → length text ≤ index + fuel
    → fuel ≤ more
    → find_from to_lower_case text patterns more index
      ≡ find_from to_lower_case text patterns fuel index
unfolding find_from found_at
find_from_enough lower text patterns zero zero index labels h k = refl
find_from_enough lower text patterns zero (suc more) index labels h k =
    let done : leb (length text) index ≡ true = ground arith in rw done refl
find_from_enough lower text patterns (suc fuel) zero index labels h k = absurd (omega (arith, k))
find_from_enough lower text patterns (suc fuel) (suc more) index labels h k =
    elim (Bool-cases (leb (length text) index)) [
      | inl done ↦ rw done refl
      | inr on ↦ rw on (
          next (found_at lower text patterns index) refl (λ i e.
            find_from_enough lower text patterns fuel more i labels (omega (arith, e, h))
              (omega (arith, k))))
    ]
  where
    next :
        (o : Option Pattern)
        → found_at lower text patterns index ≡ o
        → ((i : ℕ)
            → index + 1 ≤ i
            → find_from lower text patterns more i ≡ find_from lower text patterns fuel i)
        → go_on text index o (find_from lower text patterns more)
          ≡ go_on text index o (find_from lower text patterns fuel)
    next none e rec = rec (index + 1) (omega arith)
    next (some p) e rec = ap (◌∷◌ (match_of text index p)) (
        rec (index + length p.label) (
          omega (
            arith,
            find-is_labelled (matches_at lower text patterns index) patterns p labels
                (ground arith),
          )))

split_punctuation-append : (s : Text) → (split_punctuation s).0 ++ (split_punctuation s).1 ≡ s
unfolding split_punctuation
split_punctuation-append [] = refl
split_punctuation-append (c ∷ s) = go (split_punctuation s) (split_punctuation-append s)
  where
    go : (r : Text × Text) → r.0 ++ r.1 ≡ s → (add_front c r).0 ++ (add_front c r).1 ≡ c ∷ s
    go ([], trailing) e = ground (arith, e)
    go (d ∷ href, trailing) e = ap (◌∷◌ c) e

-- A link is split into two parts that make it up again.
split_trailing_url_punctuation-append :
    (value : Text)
    → (split_trailing_url_punctuation value).0 ++ (split_trailing_url_punctuation value).1 ≡ value
unfolding split_trailing_url_punctuation
split_trailing_url_punctuation-append value =
    go (split_punctuation value) (split_punctuation-append value)
  where
    go : (r : Text × Text) → r.0 ++ r.1 ≡ value → (close_paren r).0 ++ (close_paren r).1 ≡ value
    go (href, trailing) e = elim (Bool-cases (ends_with href (txt ")"))) [
      | inr bare ↦ rw bare e
      | inl closed ↦ elim (Bool-cases (any (nat_beq b'(') href)) [
        | inl balanced ↦ rw (closed, balanced) e
        | inr alone ↦
            let parts : href ≡ take (length href - 1) href ++ txt ")" =
              ends_with-split href (txt ")") closed in
            rw (closed, alone)
              (sym (append_assoc _ (txt ")") trailing) ∙ ap (λ s. s ++ trailing) (sym parts) ∙ e)
      ]
    ]
