-- ===== src/Messages/Roots.antt =====
-- How web/src/pages/shared/Messages.tsx finds the message that a thread begins with.
use mathlib.Core.Path.{subst}
use csg_learning_platform.Prelude.{
  ℕ, zero, suc, ◌≤◌, ◌<◌, Bool, true, false, not, ◌&&◌, ◌||◌, Option, none, some, List, [], ◌∷◌,
  ◌≡◌, refl, sym, arith, ◌==◌, find, every, Bool-cases, Option-cases, inl, inr,
}
use csg_learning_platform.Prelude.Int.{
  ℤ, pos, int_eq, beq_ℤ_iff, is_zero, ltb_ℤ, pos_part, neg_part,
}
use csg_learning_platform.Messages.Lists.{
  ChannelMessage, find_root, id_or, map_id, root_message_id_for,
}

abbrev pub has_parent : ChannelMessage → Bool
has_parent m = elim m.parent_message_id [ none ↦ false | some parent ↦ not (is_zero parent) ]

abbrev is_numbered : ℤ → Bool
is_numbered (pos n) = true
is_numbered _ = false

-- A message's parent was sent before it and has the smaller id, or the message has no id of the server
-- yet, which shows in a negative one.
abbrev pub is_after : ℤ → Option ℤ → Bool
is_after id none = true
is_after id (some parent) =
    is_zero parent || (is_numbered parent && (not (is_numbered id) || ltb_ℤ parent id))

abbrev pub is_after_parent : ChannelMessage → Bool
is_after_parent m = is_after m.id m.parent_message_id

id_of :
    (p : ℤ) (ms : List ChannelMessage) (m : ChannelMessage)
    → every is_after_parent ms ≡ true
    → find (λ k. k.id == p) ms ≡ some m
    → (m.id ≡ p) × (is_after_parent m ≡ true)
id_of p [] m a e = absurd (ground arith)
id_of p (k ∷ ms) m a e = elim (Bool-cases (k.id == p)) [
  | inl here ↦
      let same : k ≡ m = ground arith in
      rw (sym same) (ground (arith, beq_ℤ_iff k.id p), ground arith)
  | inr later ↦ id_of p ms m (ground arith) (ground arith)
]

-- From a message to one that is reached over parents, each looked up in the list.
pub data Ascends (ms : List ChannelMessage) : ChannelMessage → ChannelMessage → Type 0 where
  here : (m : ChannelMessage) → Ascends ms m m
  up :
      {m k root : ChannelMessage} (p : ℤ)
      → m.parent_message_id ≡ some p
      → is_zero p ≡ false
      → find (λ j. j.id == p) ms ≡ some k
      → Ascends ms k root
      → Ascends ms m root

-- The search ended: at an ancestor without a parent, or without a result at one whose parent is not in
-- the list.
abbrev pub IsRooted : List ChannelMessage → ChannelMessage → Option (Option ChannelMessage) → Type 0
IsRooted ms m none = ⊥
IsRooted ms m (some none) =
    (last : ChannelMessage) × (p : ℤ) × Ascends ms m last
    × (last.parent_message_id ≡ some p)
    × (find (λ j. j.id == p) ms ≡ none)
IsRooted ms m (some (some root)) = Ascends ms m root × (has_parent root ≡ false)

IsRooted-up :
    (ms : List ChannelMessage) (m k : ChannelMessage) (p : ℤ) (o : Option (Option ChannelMessage))
    → m.parent_message_id ≡ some p
    → is_zero p ≡ false
    → find (λ j. j.id == p) ms ≡ some k
    → IsRooted ms k o
    → IsRooted ms m o
IsRooted-up ms m k p none e nz found h = h
IsRooted-up ms m k p (some none) e nz found (last, q, above, parent, gone) =
    (last, q, up p e nz found above, parent, gone)
IsRooted-up ms m k p (some (some root)) e nz found (above, top) = (up p e nz found above, top)

find_root-missing :
    (fuel : ℕ) (ms : List ChannelMessage) (m : ChannelMessage) (p : ℤ)
    → m.parent_message_id ≡ some p
    → find (λ j. j.id == p) ms ≡ none
    → IsRooted ms m (find_root fuel ms none)
unfolding find_root
find_root-missing fuel ms m p e gone = (m, p, here m, e, gone)

parent_lt :
    (id p : ℤ)
    → is_after id (some p) ≡ true
    → is_zero p ≡ false
    → is_numbered id ≡ true
    → (is_numbered p ≡ true) × (pos_part p < pos_part id)
unfolding pos_part neg_part
parent_lt id p a nz n = (ground arith, ground arith)

parent-is_numbered :
    (id p : ℤ) → is_after id (some p) ≡ true → is_zero p ≡ false → is_numbered p ≡ true
parent-is_numbered id p a nz = ground arith

IsRooted-id :
    (ms : List ChannelMessage) (m : ChannelMessage) (o : Option (Option ChannelMessage))
    → IsRooted ms m o
    → (root : Option ChannelMessage) × (map_id m.id o ≡ some (id_or m.id root))
      × IsRooted ms m (some root)
IsRooted-id ms m none h = absurd h
IsRooted-id ms m (some root) h = (root, refl, h)

module _ (ms : List ChannelMessage) (after : every is_after_parent ms ≡ true) where
  stopped :
      (fuel : ℕ) (m : ChannelMessage)
      → has_parent m ≡ false
      → IsRooted ms m (find_root (suc fuel) ms (some m))
  unfolding find_root
  stopped fuel m top =
      let ends : find_root (suc fuel) ms (some m) ≡ some (some m) = ground arith in
      subst (IsRooted ms m) (sym ends) (here m, top)

  ascended :
      (fuel : ℕ) (m : ChannelMessage) (p : ℤ) (o : Option ChannelMessage)
      → m.parent_message_id ≡ some p
      → is_zero p ≡ false
      → find (λ j. j.id == p) ms ≡ o
      → IsRooted ms m (find_root fuel ms o)
      → IsRooted ms m (find_root (suc fuel) ms (some m))
  unfolding find_root
  ascended fuel m p o e nz found h =
      let rises : find_root (suc fuel) ms (some m) ≡ find_root fuel ms o =
        rw e (rw nz (rw found refl)) in
      subst (IsRooted ms m) (sym rises) h

  -- One round, with what the next one gives for each message of the list.
  find_root_next :
      (fuel : ℕ) (m : ChannelMessage)
      → ((p : ℤ) (k : ChannelMessage)
          → m.parent_message_id ≡ some p
          → is_zero p ≡ false
          → k.id ≡ p
          → is_after_parent k ≡ true
          → IsRooted ms k (find_root fuel ms (some k)))
      → IsRooted ms m (find_root (suc fuel) ms (some m))
  unfolding find_root
  find_root_next fuel m rec = elim (Option-cases m.parent_message_id) [
    | inl top ↦ stopped fuel m (ground arith)
    | inr (p, e) ↦ elim (Bool-cases (is_zero p)) [
      | inl nil ↦ stopped fuel m (ground arith)
      | inr parent ↦ elim (Option-cases (find (λ k. k.id == p) ms)) [
        | inl gone ↦ ascended fuel m p none e parent gone (find_root-missing fuel ms m p e gone)
        | inr (k, found) ↦
            let (same, ok) = id_of p ms k after found in
            ascended fuel m p (some k) e parent found (
              IsRooted-up ms m k p (find_root fuel ms (some k)) e parent found
                (rec p k e parent same ok))
      ]
    ]
  ]

  find_root-IsRooted :
      (fuel : ℕ) (m : ChannelMessage)
      → is_numbered m.id ≡ true
      → is_after_parent m ≡ true
      → pos_part m.id < fuel
      → IsRooted ms m (find_root fuel ms (some m))
  find_root-IsRooted zero m n a h = absurd (omega (arith, h))
  find_root-IsRooted (suc fuel) m n a h = find_root_next fuel m λ p k e nz same ok.
      let (numbered, less) = parent_lt m.id p (rw e at a) nz n in
      find_root-IsRooted fuel k (rw same numbered) ok (rw same (omega (arith, less, h)))

  -- The search for the message that a thread begins with ends within as many rounds as the id of the
  -- message's parent, and two more, where every message has a later id than its parent, or none of the
  -- server yet. Its result is the id of the ancestor that has no parent, looked up parent by parent in the
  -- list; or the message's own id where an ancestor's parent is not in the list.
  pub root_message_id_for_ends :
      (message : ChannelMessage) (bound : ℕ)
      → is_after_parent message ≡ true
      → ((p : ℤ) → message.parent_message_id ≡ some p → pos_part p ≤ bound)
      → (root : Option ChannelMessage) × (root_message_id_for (suc (suc bound)) message ms
          ≡ some (id_or message.id root))
        × IsRooted ms message (some root)
  unfolding root_message_id_for
  root_message_id_for_ends message bound a below =
      IsRooted-id ms message (find_root (suc (suc bound)) ms (some message)) (
        find_root_next (suc bound) message λ p k e nz same ok.
          find_root-IsRooted (suc bound) k
            (rw same (parent-is_numbered message.id p (rw e at a) nz)) ok
            (rw same (omega (arith, below p e))))
