-- ===== src/Messages/Tests.antt =====
-- Mentions and links of small texts.
use csg_learning_platform.Prelude.{
  String, Option, some, none, true, false, if◌then◌else◌, ◌==◌, string_eq, every, ◌≤◌, List, [],
  ◌∷◌, ◌≡◌, refl, arith,
}
use csg_learning_platform.Prelude.Text.{Text, txt, is_space}
use csg_learning_platform.Prelude.Int.{ℤ, pos, negsuc, int_eq, pos_part, neg_part}
use csg_learning_platform.Messages.Lists.{Author, ChannelMessage, id_or, root_message_id_for}
use csg_learning_platform.Messages.Roots.{IsRooted, is_after_parent, root_message_id_for_ends}
use csg_learning_platform.Messages.Mentions.{
  Pattern, user, channel, find_mention_matches, render_text, split_trailing_url_punctuation, opens,
  closes,
}
use csg_learning_platform.Messages.Rendering.{Ordered, join, render_text-find_mention_matches}

abbrev ana : Author
ana = record { id = 7; full_name = "Ana"; email = "ana@x.org"; role = "student"; avatar_url = none }

abbrev message : ℤ → Option ℤ → ChannelMessage
message id parent = record {
  id = id;
  channel_id = some 1;
  direct_conversation_id = none;
  parent_message_id = parent;
  body = "hi";
  mention_user_ids = [];
  edited_at = none;
  deleted_at = none;
  pinned_at = some "t1";
  pinned_by_id = none;
  created_at = "t1";
  updated_at = "t1";
  mine = false;
  blocked = none;
  attachments = [];
  reactions = [];
  read_receipts = none;
  author = ana;
}

abbrev thread : List ChannelMessage
thread = message (pos 3) none ∷ message (pos 5) (some (pos 3)) ∷ []

abbrev time_of : String → Option ℤ
time_of s = if s == "t1" then some (pos 1) else none

abbrev day_of : String → String
day_of s = "Mon"

root_test : root_message_id_for 7 (message (negsuc 0) (some (pos 5))) thread ≡ some (pos 3)
unfolding root_message_id_for
root_test = refl

root_message_id_for_ends_example :
    (root : Option ChannelMessage) × (root_message_id_for 7
        (message (negsuc 0) (some (pos 5)))
        thread
      ≡ some (id_or (negsuc 0) root))
    × IsRooted thread (message (negsuc 0) (some (pos 5))) (some root)
root_message_id_for_ends_example =
    root_message_id_for_ends thread (threads refl) (message (negsuc 0) (some (pos 5))) 5 refl
      at_most
  where
    threads : true ≡ true → every is_after_parent thread ≡ true
    threads e = unfold pos_part neg_part in refl

    at_most : (p : ℤ) → some (pos 5) ≡ some p → pos_part p ≤ 5
    at_most p e = unfold pos_part neg_part in ground arith

abbrev lower : Text → Text
lower s = s

abbrev patterns : List Pattern
patterns =
    record { label = txt "@everyone"; normalized = txt "@everyone"; kind = channel }
    ∷ record { label = txt "@ana"; normalized = txt "@ana"; kind = user }
    ∷ []

abbrev body : Text
body = txt "hi @ana, @bo"

found :
    find_mention_matches lower body patterns
    ≡ record { from = 3; to = 7; kind = user; text = txt "@ana" } ∷ []
unfolding find_mention_matches opens closes is_space
found = refl

render_text-find_mention_matches_example :
    Ordered body 0 (find_mention_matches lower body patterns)
    × (join (render_text body (find_mention_matches lower body patterns)) ≡ body)
render_text-find_mention_matches_example = render_text-find_mention_matches lower body patterns

split_test : split_trailing_url_punctuation (txt "a.org).") ≡ (txt "a.org", txt ").")
unfolding split_trailing_url_punctuation
split_test = refl
