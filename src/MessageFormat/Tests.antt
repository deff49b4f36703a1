-- ===== src/MessageFormat/Tests.antt =====
-- Messages of web/src/lib/messageFormat.test.ts, and the witnesses of the parser's laws.
use csg_learning_platform.Prelude.{true, false, [], ◌∷◌, ◌≡◌, refl}
use csg_learning_platform.Prelude.Text.{Text, txt}
use csg_learning_platform.MessageFormat.{
  paragraph, bullet_list, ordered_list, blockquote, code, spacer, strip_newlines,
  append_text_blocks,
}
use csg_learning_platform.MessageFormat.Fences.{parse_message_blocks}
use csg_learning_platform.MessageFormat.Tidy.{is_tidy, may_follow, parse_message_blocks_tidy}
use csg_learning_platform.MessageFormat.FenceLaws.{parse-to_markdown}
use csg_learning_platform.MessageFormat.Normalize.{
  is_short, normalize_message_markdown, is_short-normalize_message_markdown,
}
use csg_learning_platform.MessageFormat.Editor.{
  Nodes, node, nil, cons, to_markdown, join, children_of, render, apply_marks,
}
use csg_learning_platform.Prelude.Decimal.{lacks}

abbrev body : Text
body = txt "Hi\n\n- one\n- two\n\n> so\n```js\nlet x\n```\n1. a"

blocks_test :
    parse_message_blocks body
    ≡ paragraph (txt "Hi")
      ∷ spacer
      ∷ bullet_list (txt "one" ∷ txt "two" ∷ [])
      ∷ spacer
      ∷ blockquote (txt "so")
      ∷ code (txt "let x") (txt "js")
      ∷ ordered_list (txt "a" ∷ [])
      ∷ []
unfolding parse_message_blocks append_text_blocks
blocks_test = refl

normalize_test :
    normalize_message_markdown (txt "a\n\n\n\nb\n- \n1.\n```\n- \n```") ≡ txt "a\n\nb\n```\n- \n```"
unfolding normalize_message_markdown
normalize_test = refl

parse_message_blocks_tidy_example :
    (is_tidy false (parse_message_blocks body) ≡ true)
    × (may_follow false (parse_message_blocks body) ≡ true)
parse_message_blocks_tidy_example = parse_message_blocks_tidy body refl

is_short-normalize_message_markdown_example : is_short 0 (normalize_message_markdown body) ≡ true
is_short-normalize_message_markdown_example = is_short-normalize_message_markdown body

abbrev written : Nodes
written = cons (node (txt "text") (txt "let x") [] nil) nil

written_test : lacks b'`' (join [] (children_of written)) ≡ true
unfolding to_markdown render join apply_marks
written_test = refl

parse-to_markdown_example :
    parse_message_blocks (to_markdown (node (txt "codeBlock") [] [] written))
    ≡ code (strip_newlines (join [] (children_of written))) [] ∷ []
parse-to_markdown_example = parse-to_markdown [] [] written written_test
