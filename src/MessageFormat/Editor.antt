-- ===== src/MessageFormat/Editor.antt =====
-- `editorJsonToMarkdown` of web/src/lib/messageFormat.ts: the markdown of an editor's document. A node has
-- the properties that the function reads, empty where they are missing.
use csg_learning_platform.Prelude.{
  ℕ, suc, Bool, true, false, not, Option, none, some, List, [], ◌∷◌, ◌++◌, map, if◌then◌else◌, ◌==◌,
  filter,
}
use csg_learning_platform.Prelude.Text.{Text, txt, text_eq, is_empty, trim, trim_end, show}
use csg_learning_platform.MessageFormat.{join_lines, split_lines, lines_of}

pub record Mark : Type 0 where
  pub mark_type : Text
  pub href : Option Text

mutual
  pub data Node : Type 0 where
    node : (type text : Text) (marks : List Mark) (content : Nodes) → Node

  pub data Nodes : Type 0 where
    nil : Nodes
    cons : Node → Nodes → Nodes

-- `mark.attrs?.href || value`
abbrev pub href_or : Option Text → Text → Text
href_or none value = value
href_or (some []) value = value
href_or (some (c ∷ s)) value = c ∷ s

abbrev pub wrap : Text → Text → Text
wrap sign value = sign ++ (value ++ sign)

unfoldable pub apply_mark : Text → Mark → Text
apply_mark value mark =
    if mark.mark_type == txt "bold"
    then wrap (txt "**") value
    else if mark.mark_type == txt "italic"
    then wrap (txt "_") value
    else if mark.mark_type == txt "underline"
    then wrap (txt "++") value
    else if mark.mark_type == txt "strike"
    then wrap (txt "~~") value
    else if mark.mark_type == txt "code"
    then wrap (txt "`") value
    else if mark.mark_type == txt "link"
    then txt "[" ++ (value ++ (txt "](" ++ (href_or mark.href value ++ txt ")")))
    else value

-- `marks.reduce(…, text)`
unfoldable pub apply_marks : Text → List Mark → Text
unfolding apply_mark
apply_marks text [] = text
apply_marks text (mark ∷ marks) = apply_marks (apply_mark text mark) marks

-- `values.join(separator)`
unfoldable pub join : Text → List Text → Text
join separator [] = []
join separator (v ∷ []) = v
join separator (v ∷ w ∷ vs) = v ++ (separator ++ join separator (w ∷ vs))

-- `value.split('\n').map((line) => `${prefix}${line}`).join('\n')`
unfoldable pub prefix_lines : Text → Text → Text
unfolding join_lines split_lines
prefix_lines prefix value = join_lines (map (λ line. prefix ++ line) (lines_of (split_lines value)))

abbrev pub is_filled : Text → Bool
is_filled value = not (is_empty value)

-- The text of a list's item, by its first child's text and those of the others.
abbrev pub with_continuation : Text → Text → Text
with_continuation first [] = trim_end first
with_continuation first (c ∷ continuation) = trim_end (first ++ (b'\n' ∷ c ∷ continuation))

unfoldable pub list_item : Text → List Text → Text
unfolding join_lines prefix_lines trim_end
list_item first others =
    with_continuation first (join_lines (map (prefix_lines (txt "  ")) (filter is_filled others)))

abbrev pub item_mark : Bool → ℕ → Text
item_mark true n = show n ++ txt "."
item_mark false n = txt "-"

-- The items from the number n on.
abbrev pub number_items : Bool → ℕ → List Text → List Text
number_items ordered n [] = []
number_items ordered n (item ∷ items) =
    (item_mark ordered n ++ (b' ' ∷ item)) ∷ number_items ordered (suc n) items

abbrev pub has_words : Text → Bool
has_words item = not (is_empty (trim item))

unfoldable pub list_text : Bool → List Text → Text
unfolding join_lines trim show
list_text ordered items = join_lines (number_items ordered 1 (filter has_words items))

-- What a node's type makes of its own text, of its children's texts, and of the items of a list.
unfoldable pub render : Text → Text → List Mark → (children items : List Text) → Text
unfolding apply_marks list_text join prefix_lines join_lines trim
render type text marks children items =
    if type == txt "text"
    then apply_marks text marks
    else if type == txt "bulletList"
    then list_text false items
    else if type == txt "orderedList"
    then list_text true items
    else if type == txt "doc"
    then trim (join (txt "\n\n") children)
    else if type == txt "hardBreak"
    then txt "\n"
    else if type == txt "codeBlock"
    then txt "```\n" ++ (join [] children ++ txt "\n```")
    else if type == txt "blockquote"
    then prefix_lines (txt "> ") (join_lines children)
    else join [] children

unfoldable mutual
  unfolding render list_item

  pub to_markdown : Node → Text
  to_markdown (node type text marks content) =
      render type text marks (children_of content) (items_of content)

  pub children_of : Nodes → List Text
  children_of nil = []
  children_of (cons child rest) = to_markdown child ∷ children_of rest

  -- The items of `node.content`, before the empty ones are left out.
  pub items_of : Nodes → List Text
  items_of nil = []
  items_of (cons (node type text marks content) rest) = item_of content ∷ items_of rest

  pub item_of : Nodes → Text
  item_of nil = list_item [] []
  item_of (cons first others) = list_item (to_markdown first) (children_of others)
