-- ===== src/MessageFormat/Tidy.antt =====
-- The shape of what `parseMessageBlocks` of web/src/lib/messageFormat.ts returns: no empty block, and a
-- spacer between two other blocks only.
use csg_learning_platform.Prelude.{
  ℕ, zero, suc, Bool, true, false, not, ◌&&◌, ◌||◌, Option, none, some, List, [], ◌∷◌, ◌++◌,
  if◌then◌else◌, ◌≡◌, refl, arith, length, Bool-cases, inl, inr, ap,
}
use csg_learning_platform.Prelude.Text.{Text, is_empty, trim}
use csg_learning_platform.MessageFormat.{
  MessageBlock, paragraph, bullet_list, ordered_list, blockquote, spacer, ListType, join_lines,
  bullets, numbers, Writer, flush_paragraph, list_block, flush_list, flush_quote, flush_all,
  is_spacer, wants_spacer, other_list, add_item, add_quote_or_text, add_ordered_or, add_bullet_or,
  add_spacer, add_line, add_lines, append_text_blocks, new_writer, text_lines, cut_spacer,
  drop_spacers, quote_line, ordered_item, bullet_item,
}
use csg_learning_platform.MessageFormat.Fences.{
  append_text, push_code, parse_from, round_blocks, round_text, end_or, or_paragraph,
  parse_message_blocks, split_fence,
}

abbrev pub is_full : MessageBlock → Bool
is_full (paragraph t) = not (is_empty t)
is_full (bullet_list []) = false
is_full (ordered_list []) = false
is_full (blockquote t) = not (is_empty t)
is_full _ = true

-- No paragraph or quote is without text and no list without items, and no spacer comes first, where none may, or behind another one.
abbrev pub is_tidy : Bool → List MessageBlock → Bool
is_tidy may [] = true
is_tidy may (b ∷ bs) = (not (is_spacer b) || may) && (is_full b && is_tidy (not (is_spacer b)) bs)

-- Whether a spacer may follow.
abbrev pub may_follow : Bool → List MessageBlock → Bool
may_follow may [] = may
may_follow may (b ∷ bs) = may_follow (not (is_spacer b)) bs

wants_spacer_lem : (bs : List MessageBlock) → wants_spacer bs ≡ may_follow false bs
wants_spacer_lem [] = refl
wants_spacer_lem (b ∷ []) = refl
wants_spacer_lem (b ∷ c ∷ bs) = wants_spacer_lem (c ∷ bs)

is_tidy-append :
    (may : Bool) (bs : List MessageBlock) (b : MessageBlock)
    → is_tidy may (bs ++ b ∷ [])
      ≡ (is_tidy may bs && ((not (is_spacer b) || may_follow may bs) && is_full b))
is_tidy-append may [] b = ground arith
is_tidy-append may (c ∷ bs) b = ground (arith, is_tidy-append (not (is_spacer c)) bs b)

-- A block that is pushed keeps the shape.
push_tidy :
    (bs : List MessageBlock) (b : MessageBlock)
    → is_spacer b ≡ false
    → is_full b ≡ true
    → is_tidy false bs ≡ true
    → is_tidy false (bs ++ b ∷ []) ≡ true
push_tidy bs b s f h = ground (arith, is_tidy-append false bs b)

push_unless_tidy :
    (e : Bool) (bs : List MessageBlock) (b : MessageBlock)
    → is_spacer b ≡ false
    → is_full b ≡ not e
    → is_tidy false bs ≡ true
    → is_tidy false (if e then bs else bs ++ b ∷ []) ≡ true
push_unless_tidy true bs b s f h = h
push_unless_tidy false bs b s f h = push_tidy bs b s f h

append_nil : (bs : List MessageBlock) → bs ++ [] ≡ bs
append_nil [] = refl
append_nil (b ∷ bs) = ap (◌∷◌ b) (append_nil bs)

abbrev IsTidy : Writer → Type 0
IsTidy w = is_tidy false w.blocks ≡ true

list_block_tidy :
    (bs : List MessageBlock) (t : Option ListType) (items : List Text)
    → is_tidy false bs ≡ true
    → is_tidy false (bs ++ list_block t items) ≡ true
list_block_tidy bs none items h = rw (append_nil bs) h
list_block_tidy bs (some t) [] h = rw (append_nil bs) h
list_block_tidy bs (some bullets) (i ∷ is) h = push_tidy bs _ refl refl h
list_block_tidy bs (some numbers) (i ∷ is) h = push_tidy bs _ refl refl h

flush_paragraph-IsTidy : (w : Writer) → IsTidy w → IsTidy (flush_paragraph w)
unfolding flush_paragraph
flush_paragraph-IsTidy w h =
    push_unless_tidy (is_empty (trim (join_lines w.paragraph_lines))) w.blocks _ refl refl h

flush_quote-IsTidy : (w : Writer) → IsTidy w → IsTidy (flush_quote w)
unfolding flush_quote
flush_quote-IsTidy w h =
    push_unless_tidy (is_empty (trim (join_lines w.quote_lines))) w.blocks _ refl refl h

flush_list-IsTidy : (w : Writer) → IsTidy w → IsTidy (flush_list w)
unfolding flush_list
flush_list-IsTidy w h = list_block_tidy w.blocks w.list_type w.list_items h

flush_all-IsTidy : (w : Writer) → IsTidy w → IsTidy (flush_all w)
unfolding flush_all
flush_all-IsTidy w h =
    flush_quote-IsTidy (flush_list (flush_paragraph w))
      (flush_list-IsTidy (flush_paragraph w) (flush_paragraph-IsTidy w h))

add_item-IsTidy : (t : ListType) (item : Text) (w : Writer) → IsTidy w → IsTidy (add_item t item w)
unfolding add_item
add_item-IsTidy t item w h =
    let flushed : Writer = flush_quote (flush_paragraph w) in
    let k : IsTidy flushed = flush_quote-IsTidy (flush_paragraph w) (flush_paragraph-IsTidy w h) in
    elim (Bool-cases (other_list t flushed.list_type)) [
      | inl e ↦ rw e (flush_list-IsTidy flushed k)
      | inr e ↦ rw e k
    ]

add_quote_or_text-IsTidy :
    (line : Text) (q : Option Text) (w : Writer) → IsTidy w → IsTidy (add_quote_or_text line q w)
add_quote_or_text-IsTidy line none w h = flush_quote-IsTidy (flush_list w) (flush_list-IsTidy w h)
add_quote_or_text-IsTidy line (some q) w h =
    flush_list-IsTidy (flush_paragraph w) (flush_paragraph-IsTidy w h)

add_ordered_or-IsTidy :
    (line : Text) (i : Option Text) (w : Writer) → IsTidy w → IsTidy (add_ordered_or line i w)
add_ordered_or-IsTidy line none w h = add_quote_or_text-IsTidy line (quote_line line) w h
add_ordered_or-IsTidy line (some i) w h = add_item-IsTidy numbers i w h

add_bullet_or-IsTidy :
    (line : Text) (i : Option Text) (w : Writer) → IsTidy w → IsTidy (add_bullet_or line i w)
add_bullet_or-IsTidy line none w h = add_ordered_or-IsTidy line (ordered_item line) w h
add_bullet_or-IsTidy line (some i) w h = add_item-IsTidy bullets i w h

add_spacer-IsTidy : (w : Writer) → IsTidy w → IsTidy (add_spacer w)
add_spacer-IsTidy w h =
    ground (arith, is_tidy-append false w.blocks spacer, wants_spacer_lem w.blocks)

add_line-IsTidy : (line : Text) (w : Writer) → IsTidy w → IsTidy (add_line line w)
unfolding add_line
add_line-IsTidy line w h = elim (Bool-cases (is_empty (trim line))) [
  | inl e ↦ rw e (add_spacer-IsTidy (flush_all w) (flush_all-IsTidy w h))
  | inr e ↦ rw e (add_bullet_or-IsTidy line (bullet_item line) w h)
]

add_lines-IsTidy : (lines : List Text) (w : Writer) → IsTidy w → IsTidy (add_lines lines w)
unfolding add_lines
add_lines-IsTidy [] w h = h
add_lines-IsTidy (line ∷ lines) w h =
    add_lines-IsTidy lines (add_line line w) (add_line-IsTidy line w h)

append_text_tidy :
    (bs : List MessageBlock) (s : Text)
    → is_tidy false bs ≡ true
    → is_tidy false (append_text bs s) ≡ true
unfolding append_text_blocks
append_text_tidy bs [] h = h
append_text_tidy bs (c ∷ s) h =
    flush_all-IsTidy (add_lines (text_lines (c ∷ s)) (new_writer bs))
      (add_lines-IsTidy (text_lines (c ∷ s)) (new_writer bs) h)

push_code_tidy :
    (bs : List MessageBlock) (before after : Text)
    → is_tidy false bs ≡ true
    → is_tidy false (push_code bs before after) ≡ true
unfolding push_code
push_code_tidy bs before after h =
    push_tidy (append_text bs before) _ refl refl (append_text_tidy bs before h)

round_blocks_tidy :
    (bs : List MessageBlock) (parts : Option (Text × Text))
    → is_tidy false bs ≡ true
    → is_tidy false (round_blocks bs parts) ≡ true
round_blocks_tidy bs none h = h
round_blocks_tidy bs (some (before, after)) h = push_code_tidy bs before after h

end_or_tidy :
    (bs rest : List MessageBlock) (s : Text) (parts : Option (Text × Text))
    → is_tidy false bs ≡ true
    → is_tidy false rest ≡ true
    → is_tidy false (end_or bs s parts rest) ≡ true
end_or_tidy bs rest s none h k = append_text_tidy bs s h
end_or_tidy bs rest s (some parts) h k = k

parse_from_tidy :
    (f : ℕ) (bs : List MessageBlock) (s : Text)
    → is_tidy false bs ≡ true
    → is_tidy false (parse_from f bs s) ≡ true
unfolding parse_from
parse_from_tidy zero bs s h = append_text_tidy bs s h
parse_from_tidy (suc f) bs s h = end_or_tidy bs _ s (split_fence s) h (
    parse_from_tidy f (round_blocks bs (split_fence s)) (round_text (split_fence s))
      (round_blocks_tidy bs (split_fence s) h))

cut_spacer_lem :
    (may : Bool) (b : MessageBlock) (bs : List MessageBlock)
    → is_tidy may (b ∷ bs) ≡ true
    → may_follow true bs ≡ true
    → (is_tidy may (cut_spacer b bs) ≡ true) × (may_follow true (cut_spacer b bs) ≡ true)
cut_spacer_lem may b [] h k = ground arith
cut_spacer_lem may b (c ∷ cs) h k = ground arith

drop_spacers_tidy :
    (may : Bool) (bs : List MessageBlock)
    → is_tidy may bs ≡ true
    → (is_tidy may (drop_spacers bs) ≡ true) × (may_follow true (drop_spacers bs) ≡ true)
unfolding drop_spacers
drop_spacers_tidy may [] h = (refl, refl)
drop_spacers_tidy may (b ∷ bs) h =
    let (t, m) = drop_spacers_tidy (not (is_spacer b)) bs (ground arith) in
    cut_spacer_lem may b (drop_spacers bs) (ground arith) m

or_paragraph_tidy :
    (body : Text) (bs : List MessageBlock)
    → is_empty body ≡ false
    → is_tidy false bs ≡ true
    → may_follow true bs ≡ true
    → (is_tidy false (or_paragraph body bs) ≡ true)
      × (may_follow false (or_paragraph body bs) ≡ true)
or_paragraph_tidy body [] full h k = ground arith
or_paragraph_tidy body (b ∷ bs) full h k = (h, k)

-- The blocks of a body that is not empty: there is one, no paragraph or quote is without text and no list
-- without items (a code block may be without code), and a spacer stands between two
-- blocks that are none.
pub parse_message_blocks_tidy :
    (body : Text)
    → is_empty body ≡ false
    → (is_tidy false (parse_message_blocks body) ≡ true)
      × (may_follow false (parse_message_blocks body) ≡ true)
unfolding parse_message_blocks
parse_message_blocks_tidy body full =
    let t = parse_from_tidy (length body) [] body refl in
    let (k, m) = drop_spacers_tidy false (parse_from (length body) [] body) t in
    or_paragraph_tidy body (drop_spacers (parse_from (length body) [] body)) full k m
