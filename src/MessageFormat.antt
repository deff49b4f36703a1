-- ===== src/MessageFormat.antt =====
-- The blocks of a message's text: `appendTextBlocks` of web/src/lib/messageFormat.ts, which
-- mobile/src/lib/message-format.ts has too. The variables of the function are a record, and a line of the
-- text is a step on it. A pattern is matched the way a greedy match with its returns ends.
pub mod Fences
pub mod Tidy
pub mod FenceLaws
pub mod Normalize
pub mod Editor
mod Tests
use csg_learning_platform.Prelude.{
  ℕ, Bool, true, false, not, ◌&&◌, ◌||◌, Option, none, some, List, [], ◌∷◌, ◌++◌, if◌then◌else◌,
  nat_beq, any,
}
use csg_learning_platform.Prelude.Text.{Text, is_empty, is_space, trim, drop_while, drop_while_end}
use csg_learning_platform.Prelude.Decimal.{is_digit}

pub data MessageBlock : Type 0 where
  paragraph : Text → MessageBlock
  bullet_list : List Text → MessageBlock
  ordered_list : List Text → MessageBlock
  blockquote : Text → MessageBlock
  code : (code_text language : Text) → MessageBlock
  spacer : MessageBlock

pub data ListType : Type 0 where
  bullets numbers : ListType

abbrev pub newline : ℕ
newline = 10

-- `text.split('\n')`, the first line apart.
unfoldable pub split_lines : Text → Text × List Text
split_lines [] = ([], [])
split_lines (c ∷ s) =
    let (line, lines) = split_lines s in
    if nat_beq c newline then ([], line ∷ lines) else (c ∷ line, lines)

abbrev pub lines_of : Text × List Text → List Text
lines_of (line, lines) = line ∷ lines

-- `lines.join('\n')`
unfoldable pub join_lines : List Text → Text
join_lines [] = []
join_lines (line ∷ []) = line
join_lines (line ∷ next ∷ lines) = line ++ newline ∷ join_lines (next ∷ lines)

-- `text.replace(/^\n+|\n+$/g, '')`
unfoldable pub strip_newlines : Text → Text
unfolding drop_while drop_while_end
strip_newlines text = drop_while_end (nat_beq newline) (drop_while (nat_beq newline) text)

-- What `.` does not match.
abbrev pub is_terminator : ℕ → Bool
is_terminator c = nat_beq c 10 || nat_beq c 13 || nat_beq c 0x2028 || nat_beq c 0x2029

abbrev pub is_one_line : Text → Bool
is_one_line s = not (any is_terminator s)

-- Whether there is a last unit and `.` matches it.
abbrev pub ends_in_line : Text → Bool
ends_in_line [] = false
ends_in_line (c ∷ []) = not (is_terminator c)
ends_in_line (c ∷ d ∷ s) = ends_in_line (d ∷ s)

-- `\s+(.+)$` behind its first space, and the trimmed group. If all of it is space, the group is the last unit.
abbrev pub item_body : Text → (rest : Text) → Option Text
item_body spaces [] = if ends_in_line spaces then some [] else none
item_body spaces (c ∷ rest) = if is_one_line (c ∷ rest) then some (trim (c ∷ rest)) else none

abbrev pub item_text : Text → Option Text
item_text [] = none
item_text (c ∷ s) = if is_space c then item_body s (drop_while is_space s) else none

abbrev pub after_bullet : Text → Option Text
after_bullet [] = none
after_bullet (c ∷ s) = if nat_beq c b'-' || nat_beq c b'*' then item_text s else none

-- `line.match(/^\s*[-*]\s+(.+)$/)`, trimmed.
unfoldable pub bullet_item : Text → Option Text
unfolding drop_while is_space trim
bullet_item line = after_bullet (drop_while is_space line)

abbrev pub after_number : Text → Option Text
after_number [] = none
after_number (c ∷ s) = if nat_beq c b'.' || nat_beq c b')' then item_text s else none

abbrev pub number_first : Text → Option Text
number_first [] = none
number_first (c ∷ s) = if is_digit c then after_number (drop_while is_digit s) else none

-- `line.match(/^\s*\d+[.)]\s+(.+)$/)`, trimmed.
unfoldable pub ordered_item : Text → Option Text
unfolding drop_while is_space trim
ordered_item line = number_first (drop_while is_space line)

abbrev pub drop_space : Text → Text
drop_space [] = []
drop_space (c ∷ s) = if is_space c then s else c ∷ s

abbrev pub after_quote : Text → Option Text
after_quote [] = none
after_quote (c ∷ s) =
    if nat_beq c b'>' && is_one_line (drop_space s) then some (drop_space s) else none

-- `line.match(/^\s*>\s?(.*)$/)`
unfoldable pub quote_line : Text → Option Text
unfolding drop_while is_space
quote_line line = after_quote (drop_while is_space line)

-- The variables of `appendTextBlocks`; `list_type` is none for null.
pub record Writer : Type 0 where
  pub blocks : List MessageBlock
  pub paragraph_lines : List Text
  pub list_type : Option ListType
  pub list_items : List Text
  pub quote_lines : List Text

unfoldable pub flush_paragraph : Writer → Writer
unfolding join_lines trim
flush_paragraph w =
    let value = trim (join_lines w.paragraph_lines) in
    record w {
      blocks = if is_empty value then w.blocks else w.blocks ++ paragraph value ∷ [];
      paragraph_lines = [];
    }

abbrev pub list_block : Option ListType → List Text → List MessageBlock
list_block none items = []
list_block (some t) [] = []
list_block (some bullets) (item ∷ items) = bullet_list (item ∷ items) ∷ []
list_block (some numbers) (item ∷ items) = ordered_list (item ∷ items) ∷ []

unfoldable pub flush_list : Writer → Writer
flush_list w = record w {
  blocks = w.blocks ++ list_block w.list_type w.list_items;
  list_type = none;
  list_items = [];
}

unfoldable pub flush_quote : Writer → Writer
unfolding join_lines trim
flush_quote w =
    let value = trim (join_lines w.quote_lines) in
    record w {
      blocks = if is_empty value then w.blocks else w.blocks ++ blockquote value ∷ [];
      quote_lines = [];
    }

unfoldable pub flush_all : Writer → Writer
unfolding flush_paragraph flush_list flush_quote
flush_all w = flush_quote (flush_list (flush_paragraph w))

abbrev pub is_spacer : MessageBlock → Bool
is_spacer spacer = true
is_spacer _ = false

-- `blocks.length > 0 && blocks.at(-1)?.type !== 'spacer'`
abbrev pub wants_spacer : List MessageBlock → Bool
wants_spacer [] = false
wants_spacer (b ∷ []) = not (is_spacer b)
wants_spacer (b ∷ c ∷ bs) = wants_spacer (c ∷ bs)

abbrev pub same_type : ListType → ListType → Bool
same_type bullets bullets = true
same_type numbers numbers = true
same_type bullets numbers = false
same_type numbers bullets = false

abbrev pub other_list : ListType → Option ListType → Bool
other_list t none = false
other_list t (some u) = not (same_type t u)

abbrev pub push_item : ListType → Text → Writer → Writer
push_item t item w = record w { list_type = some t; list_items = w.list_items ++ item ∷ [] }

-- A line of a list, after the paragraph and the quote before it.
unfoldable pub add_item : ListType → Text → Writer → Writer
unfolding flush_list flush_paragraph flush_quote
add_item t item w =
    let w' : Writer = flush_quote (flush_paragraph w) in
    push_item t item (if other_list t w'.list_type then flush_list w' else w')

abbrev pub push_quote : Text → Writer → Writer
push_quote line w = record w { quote_lines = w.quote_lines ++ line ∷ [] }

abbrev pub push_line : Text → Writer → Writer
push_line line w = record w { paragraph_lines = w.paragraph_lines ++ line ∷ [] }

abbrev pub add_quote_or_text : Text → Option Text → Writer → Writer
add_quote_or_text line none w = push_line line (flush_quote (flush_list w))
add_quote_or_text line (some quote) w = push_quote quote (flush_list (flush_paragraph w))

abbrev pub add_ordered_or : Text → Option Text → Writer → Writer
add_ordered_or line none w = add_quote_or_text line (quote_line line) w
add_ordered_or line (some item) w = add_item numbers item w

abbrev pub add_bullet_or : Text → Option Text → Writer → Writer
add_bullet_or line none w = add_ordered_or line (ordered_item line) w
add_bullet_or line (some item) w = add_item bullets item w

abbrev pub add_spacer : Writer → Writer
add_spacer w = record w {
  blocks = if wants_spacer w.blocks then w.blocks ++ spacer ∷ [] else w.blocks;
}

-- The body of `lines.forEach`.
unfoldable pub add_line : Text → Writer → Writer
unfolding bullet_item ordered_item quote_line add_item flush_all trim
add_line line w =
    if is_empty (trim line)
    then add_spacer (flush_all w)
    else add_bullet_or line (bullet_item line) w

unfoldable pub add_lines : List Text → Writer → Writer
unfolding add_line
add_lines [] w = w
add_lines (line ∷ lines) w = add_lines lines (add_line line w)

abbrev pub written : Writer → List MessageBlock
written w = w.blocks

abbrev pub new_writer : List MessageBlock → Writer
new_writer blocks = record {
  blocks = blocks;
  paragraph_lines = [];
  list_type = none;
  list_items = [];
  quote_lines = [];
}

abbrev pub text_lines : Text → List Text
text_lines text = lines_of (split_lines (strip_newlines text))

unfoldable pub append_text_blocks : List MessageBlock → Text → List MessageBlock
unfolding add_lines flush_all split_lines strip_newlines
append_text_blocks blocks text =
    written (flush_all (add_lines (text_lines text) (new_writer blocks)))

-- `while (blocks.at(-1)?.type === 'spacer') blocks.pop()`
abbrev pub cut_spacer : MessageBlock → List MessageBlock → List MessageBlock
cut_spacer b [] = if is_spacer b then [] else b ∷ []
cut_spacer b (c ∷ cs) = b ∷ c ∷ cs

unfoldable pub drop_spacers : List MessageBlock → List MessageBlock
drop_spacers [] = []
drop_spacers (b ∷ bs) = cut_spacer b (drop_spacers bs)
