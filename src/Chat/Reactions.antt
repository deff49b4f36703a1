-- ===== src/Chat/Reactions.antt =====
-- `toggleOwnReaction` of mobile/src/lib/message-state.ts.
use csg_learning_platform.Prelude.{
  ℕ, ◌-◌, ◌<◌, String, Bool, true, false, not, Option, some, none, List, [], ◌∷◌, ◌++◌, map, ◌≡◌,
  ◌≢◌, refl, arith, All, All-append, All-map, All-filter, filter, find, nat_beq, if◌then◌else◌,
  ◌==◌, string_eq, nat_eq, Bool-cases, Option-cases, inl, inr,
}
use text.Mathlib.TextEquality.{eq_iff}
use csg_learning_platform.Prelude.Keyed.{
  has_key, UniqueKeys, UniqueKeys-filter, UniqueKeys-map, UniqueKeys-append,
}
use csg_learning_platform.Chat.{
  Person, Message, MessageReaction, reaction_emoji, with_own, without_own, on_emoji,
  toggle_selected, toggle_own_reaction,
}

-- The reaction of an emoji.
abbrev pub reaction_of : String → List MessageReaction → Option MessageReaction
reaction_of emoji reactions = find (λ r. r.emoji == emoji) reactions

-- Whether the user has reacted with an emoji, as the app shows it.
abbrev pub has_reacted : Option MessageReaction → Bool
has_reacted none = false
has_reacted (some r) = r.reacted

abbrev map_found :
    Bool → (MessageReaction → MessageReaction) → Option MessageReaction → Option MessageReaction
map_found here f none = none
map_found here f (some r) = some (if here then f r else r)

pub reaction_of-append :
    (e : String) (r : MessageReaction) (rs : List MessageReaction)
    → reaction_of e rs ≡ none
    → reaction_of e (rs ++ r ∷ []) ≡ (if r.emoji == e then some r else none)
reaction_of-append e r [] h = refl
reaction_of-append e r (x ∷ rs) h = ground (arith, reaction_of-append e r rs)

reaction_of-append_found :
    (e : String) (r s : MessageReaction) (rs : List MessageReaction)
    → reaction_of e rs ≡ some s
    → reaction_of e (rs ++ r ∷ []) ≡ some s
reaction_of-append_found e r s [] h = cc
reaction_of-append_found e r s (x ∷ rs) h = ground (arith, reaction_of-append_found e r s rs)

reaction_of-filter :
    (e k : String) (rs : List MessageReaction)
    → reaction_of k (filter (λ r. not (r.emoji == e)) rs)
      ≡ (if k == e then none else reaction_of k rs)
reaction_of-filter e k [] = ground arith
reaction_of-filter e k (x ∷ rs) =
    ground (arith, reaction_of-filter e k rs, eq_iff x.emoji e, eq_iff x.emoji k, eq_iff k e)

module _ (f : MessageReaction → MessageReaction)
    (same : (r : MessageReaction) → (f r).emoji ≡ r.emoji) where
  on_emoji-emoji : (e : String) (r : MessageReaction) → (on_emoji e f r).emoji ≡ r.emoji
  on_emoji-emoji e r = ground (arith, same r)

  pub reaction_of-map :
      (e k : String) (rs : List MessageReaction)
      → reaction_of k (map (on_emoji e f) rs) ≡ map_found (k == e) f (reaction_of k rs)
  reaction_of-map e k [] = refl
  reaction_of-map e k (x ∷ rs) =
      rw (on_emoji-emoji e x)
        (ground (arith, reaction_of-map e k rs, eq_iff x.emoji e, eq_iff x.emoji k, eq_iff k e))

abbrev pub new_reaction : String → Person → MessageReaction
new_reaction e u = record { emoji = e; count = 1; reacted = true; users = u ∷ [] }

pub with_own-emoji : (u : Person) (r : MessageReaction) → (with_own u r).emoji ≡ r.emoji
unfolding with_own
with_own-emoji u r = refl

without_own-emoji : (u : Person) (n : ℕ) (r : MessageReaction) → (without_own u n r).emoji ≡ r.emoji
unfolding without_own
without_own-emoji u n r = refl

-- What the toggle makes of the reaction of the emoji itself.
toggled : Option MessageReaction → String → Person → Option MessageReaction
toggled none e u = some (new_reaction e u)
toggled (some r) e u =
    if r.reacted
    then (if nat_beq (r.count - 1) 0 then none else some (without_own u (r.count - 1) r))
    else some (with_own u r)

toggle_selected-reaction_of :
    (o : Option MessageReaction) (e k : String) (u : Person) (rs : List MessageReaction)
    → reaction_of e rs ≡ o
    → reaction_of k (toggle_selected o e u rs)
      ≡ (if k == e then toggled o e u else reaction_of k rs)
unfolding toggle_selected toggled
toggle_selected-reaction_of none e k u rs h = elim (Option-cases (reaction_of k rs)) [
  | inl none_there ↦
      ground (arith, reaction_of-append k (new_reaction e u) rs none_there, eq_iff e k, eq_iff k e)
  | inr (s, there) ↦
      ground
        (arith, reaction_of-append_found k (new_reaction e u) s rs there, eq_iff e k, eq_iff k e)
]
toggle_selected-reaction_of (some r) e k u rs h = ground (
  arith,
  reaction_of-filter e k rs,
  reaction_of-map (without_own u (r.count - 1)) (without_own-emoji u (r.count - 1)) e k rs,
  reaction_of-map (with_own u) (with_own-emoji u) e k rs,
  eq_iff k e,
)

-- The toggle flips whether the user has reacted with the emoji, on every branch, and leaves the
-- reactions of every other emoji, their counts and their users as they were.
toggle_own_reaction-flips :
    (message : Message) (emoji : String) (user : Person)
    → (has_reacted (reaction_of emoji (toggle_own_reaction message emoji user).reactions)
        ≡ not (has_reacted (reaction_of emoji message.reactions)))
      × ((k : String)
          → k ≢ emoji
          → reaction_of k (toggle_own_reaction message emoji user).reactions
            ≡ reaction_of k message.reactions)
unfolding toggle_own_reaction toggled with_own without_own
toggle_own_reaction-flips m e u = (
  ground (
    arith,
    toggle_selected-reaction_of (reaction_of e m.reactions) e e u m.reactions refl,
    eq_iff e e,
  ),
  λ k other. ground (
    arith,
    toggle_selected-reaction_of (reaction_of e m.reactions) e k u m.reactions refl,
    eq_iff k e,
  ),
)

-- One reaction for each emoji, each with at least one user counted.
pub record IsTidy (reactions : List MessageReaction) : Type 0 where
  pub unique : UniqueKeys reaction_emoji reactions
  pub counted : All (λ r. 0 < r.count) reactions

absent_of_none :
    (e : String) (rs : List MessageReaction)
    → reaction_of e rs ≡ none
    → has_key reaction_emoji e rs ≡ false
absent_of_none e [] h = refl
absent_of_none e (x ∷ rs) h = ground (arith, absent_of_none e rs)

apart_of_none :
    (e : String) (u : Person) (rs : List MessageReaction)
    → has_key reaction_emoji e rs ≡ false
    → All (λ r. has_key reaction_emoji r.emoji (new_reaction e u ∷ []) ≡ false) rs
apart_of_none e u [] h = tt
apart_of_none e u (x ∷ rs) h =
    (ground (arith, eq_iff e x.emoji, eq_iff x.emoji e), apart_of_none e u rs (ground arith))

toggle_selected-IsTidy :
    (o : Option MessageReaction) (e : String) (u : Person) (rs : List MessageReaction)
    → reaction_of e rs ≡ o
    → IsTidy rs
    → IsTidy (toggle_selected o e u rs)
unfolding toggle_selected
toggle_selected-IsTidy none e u rs h tidy = record {
  unique =
      UniqueKeys-append reaction_emoji rs (new_reaction e u ∷ []) tidy.unique (refl, tt)
        (apart_of_none e u rs (absent_of_none e rs h));
  counted = All-append _ rs (new_reaction e u ∷ []) tidy.counted (omega arith, tt);
}
toggle_selected-IsTidy (some r) e u rs h tidy = elim (Bool-cases r.reacted) [
  | inl on ↦ elim (Bool-cases (nat_beq (r.count - 1) 0)) [
    | inl last ↦ rw on (
        rw last (record {
          unique = UniqueKeys-filter reaction_emoji (λ k. not (k == e)) rs tidy.unique;
          counted = All-filter _ _ rs tidy.counted;
        }))
    | inr more ↦ rw on (
        rw more (record {
          unique =
              UniqueKeys-map reaction_emoji (on_emoji e (without_own u (r.count - 1)))
                (on_emoji-emoji _ (without_own-emoji u (r.count - 1)) e) rs tidy.unique;
          counted = All-map _ _ (keeps_count more) rs tidy.counted;
        }))
  ]
  | inr off ↦ rw off (record {
    unique =
        UniqueKeys-map reaction_emoji (on_emoji e (with_own u))
          (on_emoji-emoji _ (with_own-emoji u) e) rs tidy.unique;
    counted = All-map _ _ adds_count rs tidy.counted;
  })
]
  where
    keeps_count :
        nat_beq (r.count - 1) 0 ≡ false
        → (x : MessageReaction) → 0 < x.count
        → 0 < (on_emoji e (without_own u (r.count - 1)) x).count
    keeps_count more x p = unfold without_own in ground arith

    adds_count : (x : MessageReaction) → 0 < x.count → 0 < (on_emoji e (with_own u) x).count
    adds_count x p = unfold with_own in ground arith

-- The toggle keeps one reaction for each emoji, and never leaves one with the count 0.
toggle_own_reaction-IsTidy :
    (message : Message) (emoji : String) (user : Person)
    → IsTidy message.reactions
    → IsTidy (toggle_own_reaction message emoji user).reactions
unfolding toggle_own_reaction
toggle_own_reaction-IsTidy m e u tidy =
    toggle_selected-IsTidy (reaction_of e m.reactions) e u m.reactions refl tidy

-- The toggle flips whether the user has reacted with the emoji, on every branch, and leaves the
-- reactions of every other emoji, their counts and their users as they were. It keeps one reaction for
-- each emoji, and never leaves one with the count 0, if the message had neither before.
pub toggle_own_reaction_correct :
    (message : Message) (emoji : String) (user : Person)
    → IsTidy message.reactions
    → ((has_reacted (reaction_of emoji (toggle_own_reaction message emoji user).reactions)
          ≡ not (has_reacted (reaction_of emoji message.reactions)))
        × ((k : String)
            → k ≢ emoji
            → reaction_of k (toggle_own_reaction message emoji user).reactions
              ≡ reaction_of k message.reactions))
      × IsTidy (toggle_own_reaction message emoji user).reactions
toggle_own_reaction_correct message emoji user tidy = (
  toggle_own_reaction-flips message emoji user,
  toggle_own_reaction-IsTidy message emoji user tidy,
)
