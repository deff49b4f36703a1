-- ===== src/MessageFormat/Normalize.antt =====
-- `normalizeMessageMarkdown` of web/src/lib/messageFormat.ts.
use csg_learning_platform.Prelude.{
  ℕ, suc, ◌≤◌, Bool, true, false, not, ◌&&◌, ◌||◌, List, [], ◌∷◌, if◌then◌else◌, ◌≡◌, refl, arith,
  nat_beq, leb,
}
use csg_learning_platform.Prelude.Text.{
  Text, is_empty, is_space, starts_with, trim, drop_while, drop_while_end,
}
use csg_learning_platform.Prelude.Decimal.{is_digit}
use csg_learning_platform.MessageFormat.{newline, split_lines, lines_of, join_lines}
use csg_learning_platform.MessageFormat.Fences.{fence}

abbrev pub starts_line : Text → Bool
starts_line [] = false
starts_line (c ∷ s) = nat_beq c newline

-- `body.replace(/\r\n/g, '\n')`
unfoldable pub unify_newlines : Text → Text
unify_newlines [] = []
unify_newlines (c ∷ s) =
    let rest = unify_newlines s in if nat_beq c 13 && starts_line s then rest else c ∷ rest

-- `/^\s*```/.test(line)`
unfoldable pub is_fence_line : Text → Bool
unfolding drop_while is_space
is_fence_line line = starts_with (drop_while is_space line) fence

abbrev pub is_blank : Text → Bool
is_blank s = is_empty (drop_while is_space s)

abbrev pub is_mark_end : Text → Bool
is_mark_end [] = false
is_mark_end (c ∷ s) = (nat_beq c b'.' || nat_beq c b')') && is_blank s

abbrev pub is_mark : Text → Bool
is_mark [] = false
is_mark (c ∷ s) =
    ((nat_beq c b'-' || nat_beq c b'*') && is_blank s)
    || (is_digit c && is_mark_end (drop_while is_digit s))

-- `/^\s*(?:[-*]|\d+[.)])\s*$/.test(line)`
unfoldable pub is_empty_item : Text → Bool
unfolding drop_while is_space
is_empty_item line = is_mark (drop_while is_space line)

-- The `filter`, which keeps whether it is inside a fence.
unfoldable pub keep_lines : Bool → List Text → List Text
unfolding is_fence_line is_empty_item
keep_lines inside [] = []
keep_lines inside (line ∷ lines) =
    let toggled = keep_lines (not inside) lines in
    let rest = keep_lines inside lines in
    if is_fence_line line
    then line ∷ toggled
    else if inside
    then line ∷ rest
    else if is_empty_item line
    then rest
    else line ∷ rest

-- `replace(/\n{3,}/g, '\n\n')`, behind k newlines that were kept.
unfoldable pub collapse : ℕ → Text → Text
collapse k [] = []
collapse k (c ∷ s) =
    let more = collapse (suc k) s in
    let same = collapse k s in
    let next = collapse 0 s in
    if nat_beq c newline then if leb 2 k then same else c ∷ more else c ∷ next

unfoldable pub normalize_message_markdown : Text → Text
unfolding unify_newlines split_lines keep_lines join_lines collapse trim
normalize_message_markdown body =
    trim (collapse 0 (join_lines (keep_lines false (lines_of (split_lines (unify_newlines body))))))

-- No three newlines in a row, behind k of them.
abbrev pub is_short : ℕ → Text → Bool
is_short k [] = true
is_short k (c ∷ s) =
    let more = is_short (suc k) s in
    let next = is_short 0 s in if nat_beq c newline then leb k 1 && more else next

is_short-collapse : (k : ℕ) (s : Text) → k ≤ 2 → is_short k (collapse k s) ≡ true
unfolding collapse
is_short-collapse k [] h = refl
is_short-collapse k (c ∷ s) h =
    ground (arith, is_short-collapse (suc k) s, is_short-collapse k s, is_short-collapse 0 s)

is_short_less : (j k : ℕ) (s : Text) → j ≤ k → is_short k s ≡ true → is_short j s ≡ true
is_short_less j k [] l h = refl
is_short_less j k (c ∷ s) l h = ground (arith, is_short_less (suc j) (suc k) s)

is_short-drop_while :
    (p : ℕ → Bool) (k : ℕ) (s : Text) → is_short k s ≡ true → is_short 0 (drop_while p s) ≡ true
unfolding drop_while
is_short-drop_while p k [] h = refl
is_short-drop_while p k (c ∷ s) h =
    ground
      (arith, is_short-drop_while p (suc k) s, is_short-drop_while p 0 s, is_short_less 0 k (c ∷ s))

is_short-drop_while_end :
    (p : ℕ → Bool) (k : ℕ) (s : Text) → is_short k s ≡ true → is_short k (drop_while_end p s) ≡ true
unfolding drop_while_end
is_short-drop_while_end p k [] h = refl
is_short-drop_while_end p k (c ∷ s) h =
    ground (arith, is_short-drop_while_end p (suc k) s, is_short-drop_while_end p 0 s)

zero≤ : (n : ℕ) → 0 ≤ n
zero≤ n = omega arith

-- A normalized text has no more than one empty line in a row.
pub is_short-normalize_message_markdown :
    (body : Text) → is_short 0 (normalize_message_markdown body) ≡ true
unfolding normalize_message_markdown
is_short-normalize_message_markdown body =
    let joined = join_lines (keep_lines false (lines_of (split_lines (unify_newlines body)))) in
    let short = is_short-collapse 0 joined (zero≤ 2) in
    is_short-drop_while_end is_space 0 (drop_while is_space (collapse 0 joined))
      (is_short-drop_while is_space 0 (collapse 0 joined) short)
