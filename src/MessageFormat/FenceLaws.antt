-- ===== src/MessageFormat/FenceLaws.antt =====
-- The loop of `parseMessageBlocks` (web/src/lib/messageFormat.ts) ends, and a fenced code comes back.
use csg_learning_platform.Prelude.{
  ℕ, zero, suc, ◌-◌, ◌≤◌, Bool, true, Option, none, some, List, [], ◌∷◌, ◌++◌, ◌≡◌, refl, sym,
  arith, length, drop, nat_beq, ap, ◌∙◌, Bool-cases, inl, inr,
}
use csg_learning_platform.Prelude.Text.{Text, drop_while, drop_while_end, starts_with, txt}
use csg_learning_platform.Prelude.Decimal.{lacks}
use csg_learning_platform.MessageFormat.{MessageBlock, code, newline, strip_newlines, drop_spacers}
use csg_learning_platform.MessageFormat.Editor.{
  Mark, Nodes, node, join, render, to_markdown, children_of,
}
use csg_learning_platform.MessageFormat.Fences.{
  fence, before_fence, split_fence, in_info, drop_newline, or_to_end, fenced, language_of,
  push_code, round_blocks, round_text, end_or, or_paragraph, parse_from, parse_message_blocks,
  take_while,
}

abbrev behind : Option (Text × Text) → Text
behind none = []
behind (some (before, after)) = after

behind-before_fence : (c : ℕ) (o : Option (Text × Text)) → behind (before_fence c o) ≡ behind o
behind-before_fence c none = refl
behind-before_fence c (some (before, after)) = refl

length-drop : (n : ℕ) (s : Text) → length (drop n s) ≤ length s
length-drop zero s = omega arith
length-drop (suc n) [] = omega arith
length-drop (suc n) (c ∷ s) = omega (arith, length-drop n s)

split_fence-shorter : (s : Text) → length (behind (split_fence s)) ≤ length s - 1
unfolding split_fence
split_fence-shorter [] = omega arith
split_fence-shorter (c ∷ s) = elim (Bool-cases (starts_with (c ∷ s) fence)) [
  | inl e ↦ rw e (omega (arith, length-drop 2 s))
  | inr e ↦ rw e (rw (behind-before_fence c (split_fence s)) (omega (arith, split_fence-shorter s)))
]

length-drop_while : (p : ℕ → Bool) (s : Text) → length (drop_while p s) ≤ length s
unfolding drop_while
length-drop_while p [] = omega arith
length-drop_while p (c ∷ s) = ground (arith, length-drop_while p s)

length-drop_newline : (s : Text) → length (drop_newline s) ≤ length s
length-drop_newline [] = omega arith
length-drop_newline (c ∷ s) = ground arith

length-or_to_end :
    (s : Text) (o : Option (Text × Text)) → length (or_to_end s o).1 ≤ length (behind o)
length-or_to_end s none = omega arith
length-or_to_end s (some parts) = omega arith

length-fenced : (s : Text) → length (fenced s).1 ≤ length s
unfolding fenced
length-fenced s =
    let body = drop_newline (drop_while in_info s) in
    omega (
      arith,
      length-or_to_end body (split_fence body),
      split_fence-shorter body,
      length-drop_newline (drop_while in_info s),
      length-drop_while in_info s,
    )

length-round_text : (o : Option (Text × Text)) → length (round_text o) ≤ length (behind o)
length-round_text none = omega arith
length-round_text (some (before, after)) = length-fenced after

parse_from-nil : (f : ℕ) (bs : List MessageBlock) → parse_from f bs [] ≡ bs
unfolding parse_from split_fence
parse_from-nil zero bs = refl
parse_from-nil (suc f) bs = refl

-- A round for each character of the text is enough: more fuel gives the same blocks.
parse_from_enough :
    (f g : ℕ) (bs : List MessageBlock) (s : Text)
    → length s ≤ f
    → length s ≤ g
    → parse_from f bs s ≡ parse_from g bs s
unfolding parse_from
parse_from_enough zero g bs [] h k = sym (parse_from-nil g bs)
parse_from_enough zero g bs (c ∷ s) h k = absurd (omega (arith, h))
parse_from_enough (suc f) zero bs [] h k = refl
parse_from_enough (suc f) zero bs (c ∷ s) h k = absurd (omega (arith, k))
parse_from_enough (suc f) (suc g) bs s h k =
    let t = round_text (split_fence s) in
    let shorter : length t ≤ length s - 1 =
      omega (arith, length-round_text (split_fence s), split_fence-shorter s) in
    ap (end_or bs s (split_fence s)) (
      parse_from_enough f g (round_blocks bs (split_fence s)) t (omega (arith, shorter, h))
        (omega (arith, shorter, k)))

split_fence-lacks : (s : Text) → lacks b'`' s ≡ true → split_fence (s ++ fence) ≡ some (s, [])
unfolding split_fence
split_fence-lacks [] h = refl
split_fence-lacks (c ∷ s) h =
    let rest = split_fence-lacks s (ground arith) in rw rest (ground arith)

strip_end :
    (s : Text)
    → drop_while_end (nat_beq newline) (s ++ newline ∷ []) ≡ drop_while_end (nat_beq newline) s
unfolding drop_while_end
strip_end [] = refl
strip_end (c ∷ s) = rw (strip_end s) refl

strip_newlines-newline : (s : Text) → strip_newlines (s ++ newline ∷ []) ≡ strip_newlines s
unfolding strip_newlines drop_while
strip_newlines-newline [] = refl
strip_newlines-newline (c ∷ s) = elim (Bool-cases (nat_beq newline c)) [
  | inl e ↦ rw e (strip_newlines-newline s)
  | inr e ↦ rw e (strip_end (c ∷ s))
]

-- The text of a code block, as the editor writes it.
abbrev code_block : Text → Text
code_block s = fence ++ newline ∷ (s ++ newline ∷ fence)

lacks-newline : (s : Text) → lacks b'`' s ≡ true → lacks b'`' (s ++ newline ∷ []) ≡ true
lacks-newline [] h = refl
lacks-newline (c ∷ s) h = ground (arith, lacks-newline s)

append_fence : (s : Text) → s ++ newline ∷ fence ≡ (s ++ newline ∷ []) ++ fence
append_fence [] = refl
append_fence (c ∷ s) = ap (◌∷◌ c) (append_fence s)

split-code :
    (s : Text)
    → lacks b'`' s ≡ true
    → split_fence (s ++ newline ∷ fence) ≡ some (s ++ newline ∷ [], [])
split-code s h = rw (append_fence s) (split_fence-lacks (s ++ newline ∷ []) (lacks-newline s h))

fenced-code :
    (s : Text)
    → lacks b'`' s ≡ true
    → fenced (newline ∷ (s ++ newline ∷ fence)) ≡ (s ++ newline ∷ [], [])
unfolding fenced drop_while
fenced-code s h = rw (split-code s h) refl

push_code_one :
    (after inside : Text)
    → fenced after ≡ (inside, [])
    → push_code [] [] after ≡ code (strip_newlines inside) (language_of after) ∷ []
unfolding push_code
push_code_one after inside q = ap (λ r. code (strip_newlines r.0) (language_of after) ∷ []) q

-- A body that is one fence is one block.
parse_one :
    (f : ℕ) (s after inside : Text)
    → split_fence s ≡ some ([], after)
    → fenced after ≡ (inside, [])
    → parse_from (suc f) [] s ≡ code (strip_newlines inside) (language_of after) ∷ []
unfolding parse_from
parse_one f s after inside p q = rw p (
    ap (λ t. parse_from f (push_code [] [] after) t) (ap (λ r. r.1) q)
    ∙ parse_from-nil f (push_code [] [] after)
    ∙ push_code_one after inside q)

parse-code_block :
    (s : Text)
    → lacks b'`' s ≡ true
    → parse_message_blocks (code_block s) ≡ code (strip_newlines s) [] ∷ []
unfolding parse_message_blocks language_of take_while split_fence
parse-code_block s h =
    ap (λ bs. or_paragraph (code_block s) (drop_spacers bs))
      (parse_one (suc (suc (suc (length (s ++ newline ∷ fence))))) (code_block s)
          (newline ∷ (s ++ newline ∷ fence)) (s ++ newline ∷ []) refl (fenced-code s h)
        ∙ ap (λ t. code t [] ∷ []) (strip_newlines-newline s))

-- The code of a block that the editor wrote is read back as it was, but for empty lines at its ends, where
-- it has no backquote.
pub parse-to_markdown :
    (text : Text) (marks : List Mark) (content : Nodes)
    → lacks b'`' (join [] (children_of content)) ≡ true
    → parse_message_blocks (to_markdown (node (txt "codeBlock") text marks content))
      ≡ code (strip_newlines (join [] (children_of content))) [] ∷ []
unfolding to_markdown render
parse-to_markdown text marks content h = parse-code_block (join [] (children_of content)) h
