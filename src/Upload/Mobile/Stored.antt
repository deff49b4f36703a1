-- ===== src/Upload/Mobile/Stored.antt =====
-- What the calls of mobile/src/lib/recording-upload.ts make of the object in storage.
use csg_learning_platform.Prelude.{true, List, [], ◌∷◌, ◌++◌, ◌≡◌, refl, if◌then◌else◌, ◌==◌}
use csg_learning_platform.Prelude.Text.{Text, text_eq}
use csg_learning_platform.Upload.Mobile.{
  ok, err, Call, initiated, completed, aborted, posted, accepted, unanswered, recorded, abandoned,
  M, then_do,
}

-- The object of an upload: none yet, parts of it, the whole of it with no recording that names it,
-- named by a recording, perhaps the whole of it where no answer came, or given up.
pub data Stored : Type 0 where
  absent : Stored
  partial : Text → Stored
  unnamed : Text → Stored
  named : Text → Stored
  unsure : Text → Stored
  given_up : Stored

-- What a call makes of it. A call about another key, or out of place, changes nothing.
abbrev pub effect : Stored → Call → Stored
effect absent (initiated key) = partial key
effect absent (posted key accepted) = unnamed key
effect absent (posted key unanswered) = unsure key
effect (partial k) (completed key parts true) = if k == key then unnamed k else partial k
effect (partial k) (aborted key true) = if k == key then given_up else partial k
effect (unnamed k) (recorded key) = if k == key then named k else unnamed k
effect (unnamed k) (abandoned key true) = if k == key then given_up else unnamed k
effect s _ = s

abbrev pub final : Stored → List Call → Stored
final s [] = s
final s (c ∷ log) = final (effect s c) log

pub final-append : (s : Stored) (xs ys : List Call) → final s (xs ++ ys) ≡ final (final s xs) ys
final-append s [] ys = refl
final-append s (x ∷ xs) ys = final-append (effect s x) xs ys

-- A run that begins in a state ends in one that `P` or, if it rejects, `Q` allows.
abbrev pub After : {A : Type 0} → Stored → M A → (A → Stored → Type 0) → (Stored → Type 0) → Type 0
After s (ok a, log) P Q = P a (final s log)
After s (err e, log) P Q = Q (final s log)

pub After_append :
    {A : Type 0} (s : Stored) (log : List Call) (m : M A) (P : A → Stored → Type 0)
    (Q : Stored → Type 0)
    → After (final s log) m P Q
    → After s (m.0, log ++ m.1) P Q
After_append s log (ok a, more) P Q h = rw (final-append s log more) h
After_append s log (err e, more) P Q h = rw (final-append s log more) h

-- The rule for a call and what follows it.
pub After_then :
    {A B : Type 0} (s : Stored) (m : M A) (next : A → M B) (catch : Text → M B)
    (P : A → Stored → Type 0) (Q : Stored → Type 0) (P' : B → Stored → Type 0)
    (Q' : Stored → Type 0)
    → After s m P Q
    → ((a : A) (t : Stored) → m.0 ≡ ok a → P a t → After t (next a) P' Q')
    → ((e : Text) (t : Stored) → Q t → After t (catch e) P' Q')
    → After s (then_do m next catch) P' Q'
After_then s (ok a, log) next catch P Q P' Q' h n c =
    After_append s log (next a) P' Q' (n a (final s log) refl h)
After_then s (err e, log) next catch P Q P' Q' h n c =
    After_append s log (catch e) P' Q' (c e (final s log) h)
