-- ===== src/Chat/Undo.antt =====
-- Adding a reaction and taking it back (`toggleOwnReaction` of mobile/src/lib/message-state.ts).
use csg_learning_platform.Prelude.{
  ◌+◌, ◌-◌, ◌<◌, String, Bool, true, false, not, Option, some, none, List, [], ◌∷◌, ◌++◌, map, ◌≡◌,
  refl, arith, All, filter, any, nat_beq, ◌==◌, string_eq, nat_eq, Bool-cases, inl, inr,
}
use text.Mathlib.TextEquality.{eq_iff}
use csg_learning_platform.Prelude.Keyed.{has_key, UniqueKeys}
use csg_learning_platform.Chat.{
  Person, Message, MessageReaction, reaction_emoji, with_own, without_own, on_emoji,
  toggle_selected, toggle_own_reaction,
}
use csg_learning_platform.Chat.Reactions.{
  reaction_of, has_reacted, IsTidy, new_reaction, reaction_of-append, reaction_of-map,
  with_own-emoji,
}

-- The user is not among those who reacted with the emoji.
abbrev pub is_listed : Person → Option MessageReaction → Bool
is_listed user none = false
is_listed user (some r) = any (λ p. p.id == user.id) r.users

filter-added :
    (e : String) (u : Person) (rs : List MessageReaction)
    → reaction_of e rs ≡ none
    → filter (λ r. not (r.emoji == e)) (rs ++ new_reaction e u ∷ []) ≡ rs
filter-added e u [] h = ground (arith, eq_iff e e)
filter-added e u (x ∷ rs) h = ground (arith, filter-added e u rs)

users_restored :
    (u : Person) (ps : List Person)
    → any (λ p. p.id == u.id) ps ≡ false
    → filter (λ p. not (p.id == u.id)) (ps ++ u ∷ []) ≡ ps
users_restored u [] h = ground arith
users_restored u (p ∷ ps) h = ground (arith, users_restored u ps)

reaction_restored :
    (u : Person) (r : MessageReaction)
    → r.reacted ≡ false
    → any (λ p. p.id == u.id) r.users ≡ false
    → without_own u r.count (with_own u r) ≡ r
unfolding without_own with_own
reaction_restored u r off unlisted =
    rw unlisted (rw (users_restored u r.users unlisted) (rw (← off)))

-- Where emojis are unique, the found reaction is the only one of its emoji.
only_found :
    (e : String) (r : MessageReaction) (rs : List MessageReaction)
    → UniqueKeys reaction_emoji rs
    → reaction_of e rs ≡ some r
    → All (λ x. (x.emoji == e) ≡ true → x ≡ r) rs
only_found e r [] u h = tt
only_found e r (x ∷ rs) (fresh, u) h = elim (Bool-cases (x.emoji == e)) [
  | inl same ↦ (λ _. ground arith, absent e r rs (ground (arith, eq_iff x.emoji e)))
  | inr other ↦ (λ p. ground arith, only_found e r rs u (ground arith))
]
  where
    absent :
        (k : String) (s : MessageReaction) (ys : List MessageReaction)
        → has_key reaction_emoji k ys ≡ false
        → All (λ y. (y.emoji == k) ≡ true → y ≡ s) ys
    absent k s [] f = tt
    absent k s (y ∷ ys) f = (λ p. ground arith, absent k s ys (ground arith))

All-restored :
    (e : String) (u : Person) (r : MessageReaction) (rs : List MessageReaction)
    → r.reacted ≡ false
    → any (λ p. p.id == u.id) r.users ≡ false
    → All (λ x. (x.emoji == e) ≡ true → x ≡ r) rs
    → map (on_emoji e (without_own u r.count)) (map (on_emoji e (with_own u)) rs) ≡ rs
All-restored e u r [] off unlisted h = refl
All-restored e u r (x ∷ rs) off unlisted (only, h) = elim (Bool-cases (x.emoji == e)) [
  | inl same ↦ ground (
    arith,
    All-restored e u r rs off unlisted h,
    only same,
    reaction_restored u r off unlisted,
    with_own-emoji u x,
  )
  | inr other ↦ ground (arith, All-restored e u r rs off unlisted h)
]

found_counted :
    (e : String) (r : MessageReaction) (rs : List MessageReaction)
    → All (λ x. 0 < x.count) rs
    → reaction_of e rs ≡ some r
    → 0 < r.count
found_counted e r [] c h = cc
found_counted e r (x ∷ rs) (p, c) h = elim (Bool-cases (x.emoji == e)) [
  | inl same ↦ let q : x ≡ r = ground arith in ground arith
  | inr other ↦ found_counted e r rs c (ground arith)
]

found_with_own :
    (e : String) (u : Person) (r : MessageReaction) (rs : List MessageReaction)
    → reaction_of e rs ≡ some r
    → reaction_of e (map (on_emoji e (with_own u)) rs) ≡ some (with_own u r)
found_with_own e u r rs h =
    ground (arith, reaction_of-map (with_own u) (with_own-emoji u) e e rs, eq_iff e e)

toggled_back :
    (e : String) (u : Person) (r : MessageReaction) (rs : List MessageReaction)
    → r.reacted ≡ false
    → any (λ p. p.id == u.id) r.users ≡ false
    → 0 < r.count
    → All (λ x. (x.emoji == e) ≡ true → x ≡ r) rs
    → toggle_selected (some (with_own u r)) e u (map (on_emoji e (with_own u)) rs) ≡ rs
unfolding toggle_selected with_own
toggled_back e u r rs off unlisted pos only =
    let n : r.count + 1 - 1 ≡ r.count = omega arith in
    let more : nat_beq r.count 0 ≡ false = ground arith in
    rw n (rw more (All-restored e u r rs off unlisted only))

toggle_selected_twice :
    (o : Option MessageReaction) (e : String) (u : Person) (rs : List MessageReaction)
    → reaction_of e rs ≡ o
    → IsTidy rs
    → has_reacted o ≡ false
    → is_listed u o ≡ false
    → toggle_selected (reaction_of e (toggle_selected o e u rs)) e u (toggle_selected o e u rs) ≡ rs
unfolding toggle_selected
toggle_selected_twice none e u rs h tidy off unlisted =
    rw (reaction_of-append e (new_reaction e u) rs h) (rw (eq_iff e e).1 (filter-added e u rs h))
toggle_selected_twice (some r) e u rs h tidy off unlisted = rw off (
    rw (found_with_own e u r rs h) (
      toggled_back e u r rs off unlisted (found_counted e r rs tidy.counted h)
        (only_found e r rs tidy.unique h)))

-- A reaction that is added and taken back leaves the message as it was.
pub toggle_own_reaction_twice :
    (message : Message) (emoji : String) (user : Person)
    → IsTidy message.reactions
    → has_reacted (reaction_of emoji message.reactions) ≡ false
    → is_listed user (reaction_of emoji message.reactions) ≡ false
    → toggle_own_reaction (toggle_own_reaction message emoji user) emoji user ≡ message
unfolding toggle_own_reaction
toggle_own_reaction_twice m e u tidy off unlisted =
    rw (toggle_selected_twice (reaction_of e m.reactions) e u m.reactions refl tidy off unlisted)
