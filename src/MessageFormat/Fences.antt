-- ===== src/MessageFormat/Fences.antt =====
-- `parseMessageBlocks` of web/src/lib/messageFormat.ts: the text between fences, and the code within them.
-- The loop runs on fuel of one round for each fence that the body can have.
use csg_learning_platform.Prelude.{
  ℕ, zero, suc, Bool, not, ◌||◌, Option, none, some, List, [], ◌∷◌, ◌++◌, if◌then◌else◌, nat_beq,
  length, drop,
}
use csg_learning_platform.Prelude.Text.{Text, starts_with, trim, drop_while}
use csg_learning_platform.MessageFormat.{
  MessageBlock, paragraph, code, newline, strip_newlines, append_text_blocks, drop_spacers,
}

abbrev pub fence : Text
fence = b'`' ∷ b'`' ∷ b'`' ∷ []

abbrev pub before_fence : ℕ → Option (Text × Text) → Option (Text × Text)
before_fence c none = none
before_fence c (some (before, after)) = some (c ∷ before, after)

-- The text before the first fence and the one behind it.
unfoldable pub split_fence : Text → Option (Text × Text)
split_fence [] = none
split_fence (c ∷ s) =
    let rest = split_fence s in
    if starts_with (c ∷ s) fence then some ([], drop 2 s) else before_fence c rest

-- `[^\n`]*`
abbrev pub in_info : ℕ → Bool
in_info c = not (nat_beq c newline || nat_beq c b'`')

unfoldable pub take_while : (ℕ → Bool) → Text → Text
take_while p [] = []
take_while p (c ∷ s) = let rest = take_while p s in if p c then c ∷ rest else []

-- `\n?`
abbrev pub drop_newline : Text → Text
drop_newline [] = []
drop_newline (c ∷ s) = if nat_beq c newline then s else c ∷ s

-- `([\s\S]*?)(?:```|$)`: what is in the fence, and what is behind it.
abbrev pub or_to_end : Text → Option (Text × Text) → Text × Text
or_to_end s none = (s, [])
or_to_end s (some parts) = parts

unfoldable pub fenced : Text → Text × Text
unfolding split_fence drop_while
fenced s = let body = drop_newline (drop_while in_info s) in or_to_end body (split_fence body)

unfoldable pub language_of : Text → Text
unfolding take_while trim
language_of s = trim (take_while in_info s)

abbrev pub append_text : List MessageBlock → Text → List MessageBlock
append_text blocks [] = blocks
append_text blocks (c ∷ s) = append_text_blocks blocks (c ∷ s)

-- A round of the `while` loop pushes the text before a fence and the code in it.
unfoldable pub push_code : List MessageBlock → (before after : Text) → List MessageBlock
unfolding language_of fenced strip_newlines
push_code blocks before after =
    append_text blocks before ++ code (strip_newlines (fenced after).0) (language_of after) ∷ []

-- What a round leaves for the next one: the blocks, and the text behind the fence.
abbrev pub round_blocks : List MessageBlock → Option (Text × Text) → List MessageBlock
round_blocks blocks none = blocks
round_blocks blocks (some (before, after)) = push_code blocks before after

abbrev pub round_text : Option (Text × Text) → Text
round_text none = []
round_text (some (before, after)) = (fenced after).1

-- Without another fence, the loop ends and the rest of the text is added.
abbrev pub end_or :
    List MessageBlock → Text → Option (Text × Text) → List MessageBlock → List MessageBlock
end_or blocks s none rest = append_text blocks s
end_or blocks s (some parts) rest = rest

unfoldable pub parse_from : ℕ → List MessageBlock → Text → List MessageBlock
unfolding split_fence fenced push_code
parse_from zero blocks s = append_text blocks s
parse_from (suc f) blocks s =
    let parts = split_fence s in
    let rest = parse_from f (round_blocks blocks parts) (round_text parts) in
    end_or blocks s parts rest

-- `blocks.length > 0 ? blocks : [{ type: 'paragraph', text: body }]`
abbrev pub or_paragraph : Text → List MessageBlock → List MessageBlock
or_paragraph body [] = paragraph body ∷ []
or_paragraph body (b ∷ bs) = b ∷ bs

unfoldable pub parse_message_blocks : Text → List MessageBlock
unfolding parse_from drop_spacers
parse_message_blocks body = or_paragraph body (drop_spacers (parse_from (length body) [] body))
