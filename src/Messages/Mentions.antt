-- ===== src/Messages/Mentions.antt =====
-- Mentions in the text of a message, and links with punctuation behind them:
-- web/src/pages/shared/Messages.tsx. `toLowerCase` is the platform's.
use csg_learning_platform.Prelude.{
  ℕ, zero, suc, ◌+◌, ◌-◌, Bool, true, false, not, ◌&&◌, ◌||◌, Option, none, some, List, [], ◌∷◌,
  ◌++◌, map, if◌then◌else◌, ◌==◌, nat_beq, ltb, leb, length, take, drop, any, find, head?,
}
use csg_learning_platform.Prelude.Text.{
  Text, txt, text_eq, is_empty, slice, is_space, trim, ends_with,
}
use csg_learning_platform.Prelude.Sort.{sort}

pub data Kind : Type 0 where
  user channel : Kind

pub record Pattern : Type 0 where
  pub label : Text
  pub normalized : Text
  pub kind : Kind

pub record Match : Type 0 where
  pub from : ℕ
  pub to : ℕ
  pub kind : Kind
  pub text : Text

-- `text[index]`
abbrev pub char_at : Text → ℕ → Option ℕ
char_at text index = head? (drop index text)

-- `/[\s([{'"“‘>]/` and `/[\s)\]}.,!?;:'"”’]/`.
unfoldable pub opens : ℕ → Bool
unfolding is_space
opens c =
    is_space c
    || nat_beq c b'('
    || nat_beq c b'['
    || nat_beq c b'{'
    || nat_beq c 39
    || nat_beq c 34
    || nat_beq c 0x201c
    || nat_beq c 0x2018
    || nat_beq c b'>'

unfoldable pub closes : ℕ → Bool
unfolding is_space
closes c =
    is_space c
    || nat_beq c b')'
    || nat_beq c b']'
    || nat_beq c b'}'
    || nat_beq c b'.'
    || nat_beq c b','
    || nat_beq c b'!'
    || nat_beq c b'?'
    || nat_beq c b';'
    || nat_beq c b':'
    || nat_beq c 39
    || nat_beq c 34
    || nat_beq c 0x201d
    || nat_beq c 0x2019

abbrev holds_of : (ℕ → Bool) → Option ℕ → Bool
holds_of p none = false
holds_of p (some c) = p c

unfoldable pub is_mention_start_boundary : Text → ℕ → Bool
unfolding opens
is_mention_start_boundary text index =
    if nat_beq index 0 then true else holds_of opens (char_at text (index - 1))

unfoldable pub is_mention_end_boundary : Option ℕ → Bool
unfolding closes
is_mention_end_boundary none = true
is_mention_end_boundary (some c) = closes c

abbrev is_at_sign : Option ℕ → Bool
is_at_sign none = false
is_at_sign (some c) = nat_beq c b'@'

abbrev pub match_of : Text → ℕ → Pattern → Match
match_of text index p = record {
  from = index;
  to = index + length p.label;
  kind = p.kind;
  text = slice text index (index + length p.label);
}

-- The end of a round: the next index, or the match and what follows it.
abbrev pub go_on : Text → ℕ → Option Pattern → (ℕ → List Match) → List Match
go_on text index none next = next (index + 1)
go_on text index (some p) next = match_of text index p ∷ next (index + length p.label)

abbrev label_length : Pattern → ℕ
label_length p = length p.label

-- `right.label.length - left.label.length < 0`
abbrev pub is_longer : Pattern → Pattern → Bool
is_longer left right = ltb (length right.label) (length left.label)

module _ (to_lower_case : Text → Text) where
  abbrev pub user_pattern : Text → Pattern
  user_pattern name = record {
    label = b'@' ∷ name;
    normalized = to_lower_case (b'@' ∷ name);
    kind = user;
  }

  -- `.map(trim).filter(Boolean).forEach(…)`, with what was `seen`.
  unfoldable pub add_names : List Text → List Text → List Pattern
  unfolding trim
  add_names seen [] = []
  add_names seen (name ∷ names) =
      let p = user_pattern (trim name) in
      let skip = add_names seen names in
      let keep = p ∷ add_names (p.normalized ∷ seen) names in
      if is_empty (trim name)
      then skip
      else if any (λ k. k == p.normalized) seen
      then skip
      else keep

  abbrev pub channel_pattern : Text → Pattern
  channel_pattern label = record { label = label; normalized = to_lower_case label; kind = channel }

  -- The labels of `CHANNEL_MENTION_ALIASES` are the first argument.
  unfoldable pub build_mention_patterns : List Text → List Text → Bool → List Pattern
  unfolding add_names
  build_mention_patterns aliases names include_channel =
      let channels = if include_channel then map channel_pattern aliases else [] in
      sort is_longer (channels ++ add_names (map (λ p. p.normalized) channels) names)

  module _ (text : Text) (patterns : List Pattern) where
    unfoldable pub matches_at : ℕ → Pattern → Bool
    unfolding is_mention_end_boundary
    matches_at index p =
        to_lower_case (slice text index (index + length p.label)) == p.normalized
        && is_mention_end_boundary (char_at text (index + length p.label))

    -- The pattern that is found at an index, if a mention can start there.
    unfoldable pub found_at : ℕ → Option Pattern
    unfolding matches_at is_mention_start_boundary
    found_at index =
        if not (is_at_sign (char_at text index)) || not (is_mention_start_boundary text index)
        then none
        else find (matches_at index) patterns

    -- The loop, from an index. Each round moves the index, so that a round for each character is
    -- enough fuel.
    unfoldable pub find_from : (fuel index : ℕ) → List Match
    unfolding found_at
    find_from zero index = []
    find_from (suc fuel) index =
        if leb (length text) index then [] else go_on text index (found_at index) (find_from fuel)

    unfoldable pub find_mention_matches : List Match
    unfolding find_from
    find_mention_matches = find_from (length text) 0

-- The texts of the nodes that `renderTextWithMentions` makes, from the cursor on.
unfoldable pub render_from : Text → ℕ → List Match → List Text
render_from text cursor [] = if ltb cursor (length text) then drop cursor text ∷ [] else []
render_from text cursor (m ∷ ms) =
    let rest = m.text ∷ render_from text m.to ms in
    if ltb cursor m.from then slice text cursor m.from ∷ rest else rest

unfoldable pub render_text : Text → List Match → List Text
unfolding render_from
render_text text [] = text ∷ []
render_text text (m ∷ ms) = render_from text 0 (m ∷ ms)

-- `/[.,!?;:]$/`, by the text in reverse: the part that stays, and the punctuation behind it.
abbrev pub is_url_punctuation : ℕ → Bool
is_url_punctuation c =
    nat_beq c b'.'
    || nat_beq c b','
    || nat_beq c b'!'
    || nat_beq c b'?'
    || nat_beq c b';'
    || nat_beq c b':'

abbrev pub add_front : ℕ → Text × Text → Text × Text
add_front c (href, trailing) =
    if is_empty href && is_url_punctuation c then ([], c ∷ trailing) else (c ∷ href, trailing)

-- What the first loop of `splitTrailingUrlPunctuation` leaves of a text.
unfoldable pub split_punctuation : Text → Text × Text
split_punctuation [] = ([], [])
split_punctuation (c ∷ s) = add_front c (split_punctuation s)

abbrev pub close_paren : Text × Text → Text × Text
close_paren (href, trailing) =
    if ends_with href (txt ")") && not (any (nat_beq b'(') href)
    then (take (length href - 1) href, b')' ∷ trailing)
    else (href, trailing)

unfoldable pub split_trailing_url_punctuation : Text → Text × Text
unfolding split_punctuation
split_trailing_url_punctuation value = close_paren (split_punctuation value)
