-- ===== src/Upload/Multipart/Handlers.antt =====
-- Which handlers `uploadMultipartToS3` (web/src/lib/uploadToS3.ts) has called when it ends, and with what.
use mathlib.Core.List.{Perm}
use csg_learning_platform.Prelude.{
  ℕ, ◌≤◌, Bool, true, false, Option, none, some, List, [], ◌∷◌, map, ◌≡◌, refl, nat_beq, length,
  leb, ltb, nat_beq_iff, ◌∙◌, Bool-cases, inl, inr,
}
use csg_learning_platform.Prelude.Text.{Text}
use csg_learning_platform.Upload.Parts.{Part}
use csg_learning_platform.Upload.Mobile.{UploadedPart}
use csg_learning_platform.Upload.Mobile.Order.{part_number, number}
use csg_learning_platform.Upload.Pool.{
  Pool, workers, start, turn, resolve, reject, Reach, started, next, turned, resolved, get_elem?,
  pick, take_part, finish,
}
use csg_learning_platform.Upload.Pool.Order.{pool_correct}
use csg_learning_platform.Upload.Multipart.{
  HandlerCall, initiate, complete, abort, Phase, initiating, uploading, completing, completed,
  aborting, failed, Multipart, Event, initiate_resolved, complete_resolved, abort_settled,
  worker_turned, workers_ended, initiate_rejected, complete_rejected, part_resolved, part_rejected,
  begin, give_up, with_pool, rejected_part, all_resolved, on_initiating, on_uploading,
  on_completing, on_aborting, in_phase, MultipartRun, begun, step, abort_signal,
}

abbrev IsPartsOf : List Part → List UploadedPart → Type 0
IsPartsOf parts ps = Perm (map part_number ps) (map number parts)

-- The calls of an upload that was given up: one abort, and it is the last call.
abbrev pub is_given_up : List HandlerCall → Bool
is_given_up (initiate ∷ abort ∷ []) = true
is_given_up (initiate ∷ complete ps ∷ abort ∷ []) = true
is_given_up _ = false

-- Those of one that was completed: the parts of the file, each once.
abbrev pub IsCompleted : List Part → List HandlerCall → Type 0
IsCompleted parts (initiate ∷ complete ps ∷ []) = IsPartsOf parts ps
IsCompleted parts _ = true ≡ false

-- What was called in each phase.
abbrev pub IsSound : List Part → Phase → List HandlerCall → Type 0
IsSound parts initiating calls = calls ≡ initiate ∷ []
IsSound parts (uploading s) calls =
    (calls ≡ initiate ∷ []) × ((s.failed ≡ false) × ((length s.waiting ≤ 3) × Reach parts s))
IsSound parts (completing ps) calls = (calls ≡ initiate ∷ complete ps ∷ []) × IsPartsOf parts ps
IsSound parts completed calls = IsCompleted parts calls
IsSound parts (aborting error) calls = is_given_up calls ≡ true
IsSound parts (failed error) calls = is_given_up calls ≡ true

abbrev IsSoundNext : List Part → Option Multipart → Type 0
IsSoundNext parts none = Unit
IsSoundNext parts (some w) = IsSound parts w.phase w.calls

reach-few : (parts : List Part) (s : Pool) → Reach parts s → length s.waiting ≤ 3
reach-few parts s r = (pool_correct r).0

-- A step of a worker that is no failure.
abbrev IsGoing : Pool → Option Pool → Type 0
IsGoing s none = Unit
IsGoing s (some t) = t.failed ≡ s.failed

take_part-IsGoing : (s : Pool) (o : Option Part) → IsGoing s (take_part s o)
take_part-IsGoing s none = tt
take_part-IsGoing s (some p) = refl

turn-IsGoing : (parts : List Part) (s : Pool) → IsGoing s (turn parts s)
unfolding turn
turn-IsGoing parts s = elim (Bool-cases (leb s.idle 0)) [
  | inl e ↦ rw e tt
  | inr e ↦ elim (Bool-cases (ltb s.cursor (length parts))) [
    | inl f ↦ rw e (rw f (take_part-IsGoing s (get_elem? parts s.cursor)))
    | inr f ↦ rw e (rw f refl)
  ]
]

finish-IsGoing :
    (etag : Text) (s : Pool) (o : Option (Part × List Part)) → IsGoing s (finish etag s o)
finish-IsGoing etag s none = tt
finish-IsGoing etag s (some (p, rest)) = refl

resolve-IsGoing : (i : ℕ) (etag : Text) (s : Pool) → IsGoing s (resolve i etag s)
unfolding resolve
resolve-IsGoing i etag s = finish-IsGoing etag s (pick i s.waiting)

with_pool-IsSound :
    (parts : List Part) (s : Pool) (w : Multipart) (o : Option Pool)
    → IsSound parts (uploading s) w.calls
    → IsGoing s o
    → ((t : Pool) → o ≡ some t → Reach parts t)
    → IsSoundNext parts (with_pool w o)
with_pool-IsSound parts s w none h k r = tt
with_pool-IsSound parts s w (some t) (c, (f, h)) k r =
    (c, (k ∙ f, (reach-few parts t (r t refl), r t refl)))

rejected_part-IsSound :
    (parts : List Part) (s : Pool) (error : Text) (w : Multipart) (o : Option Pool)
    → IsSound parts (uploading s) w.calls
    → IsSoundNext parts (rejected_part error w o)
unfolding give_up
rejected_part-IsSound parts s error w none h = tt
rejected_part-IsSound parts s error w (some t) (c, h) = rw c refl

all_resolved-IsSound :
    (parts : List Part) (s : Pool) (w : Multipart)
    → IsSound parts (uploading s) w.calls
    → IsSoundNext parts (all_resolved parts s w)
unfolding all_resolved give_up
all_resolved-IsSound parts s w (c, (f, (few, r))) =
    elim (Bool-cases (nat_beq s.exited (workers parts))) [
      | inr e ↦ rw e tt
      | inl e ↦ elim (Bool-cases w.aborted) [
        | inl a ↦ rw e (rw a (rw c refl))
        | inr a ↦ rw e (rw a (rw c (refl, (pool_correct r).2 f ((nat_beq_iff _ _).0 e))))
      ]
    ]

on_initiating-IsSound :
    (parts : List Part) (e : Event) (w : Multipart)
    → IsSound parts initiating w.calls
    → IsSoundNext parts (on_initiating parts e w)
unfolding on_initiating give_up start
on_initiating-IsSound parts initiate_resolved w c =
    (c, (refl, (reach-few parts _ started, started)))
on_initiating-IsSound parts (initiate_rejected error) w c = rw c refl
on_initiating-IsSound parts _ w c = tt

on_uploading-IsSound :
    (parts : List Part) (s : Pool) (e : Event) (w : Multipart)
    → IsSound parts (uploading s) w.calls
    → IsSoundNext parts (on_uploading parts s e w)
unfolding on_uploading
on_uploading-IsSound parts s worker_turned w (c, (f, (few, r))) =
    with_pool-IsSound parts s w _ (c, (f, (few, r))) (turn-IsGoing parts s) λ t h. next r (turned h)
on_uploading-IsSound parts s (part_resolved i etag) w (c, (f, (few, r))) =
    with_pool-IsSound parts s w _ (c, (f, (few, r))) (resolve-IsGoing i etag s)
      λ t h. next r (resolved i etag h)
on_uploading-IsSound parts s (part_rejected i error) w h =
    rejected_part-IsSound parts s error w (reject i s) h
on_uploading-IsSound parts s workers_ended w h = all_resolved-IsSound parts s w h
on_uploading-IsSound parts s _ w h = tt

on_completing-IsSound :
    (parts : List Part) (ps : List UploadedPart) (e : Event) (w : Multipart)
    → IsSound parts (completing ps) w.calls
    → IsSoundNext parts (on_completing e w)
unfolding on_completing give_up
on_completing-IsSound parts ps complete_resolved w (c, p) = rw c p
on_completing-IsSound parts ps (complete_rejected error) w (c, p) = rw c refl
on_completing-IsSound parts ps _ w h = tt

on_aborting-IsSound :
    (parts : List Part) (error : Text) (e : Event) (w : Multipart)
    → is_given_up w.calls ≡ true
    → IsSoundNext parts (on_aborting error e w)
unfolding on_aborting
on_aborting-IsSound parts error abort_settled w h = h
on_aborting-IsSound parts error _ w h = tt

in_phase-IsSound :
    (parts : List Part) (p : Phase) (e : Event) (w : Multipart)
    → IsSound parts p w.calls
    → IsSoundNext parts (in_phase parts p e w)
unfolding in_phase
in_phase-IsSound parts initiating e w h = on_initiating-IsSound parts e w h
in_phase-IsSound parts (uploading s) e w h = on_uploading-IsSound parts s e w h
in_phase-IsSound parts (completing ps) e w h = on_completing-IsSound parts ps e w h
in_phase-IsSound parts completed e w h = tt
in_phase-IsSound parts (aborting error) e w h = on_aborting-IsSound parts error e w h
in_phase-IsSound parts (failed error) e w h = tt

-- In every run, with the caller's abort at any time: while workers upload nothing but the initiation was
-- called, and at most three parts are under way; an upload that resolved was completed with the parts
-- of the file, each once; and one that was rejected, by any of its calls or workers or by the abort, was
-- aborted once, as its last call.
pub multipart_run-IsSound :
    {parts : List Part} {w : Multipart} → MultipartRun parts w → IsSound parts w.phase w.calls
unfolding begin
multipart_run-IsSound (begun aborted) = refl
multipart_run-IsSound {parts} (step {w} {v} e r h) =
    rw h at (in_phase-IsSound parts w.phase e w (multipart_run-IsSound r))
multipart_run-IsSound (abort_signal r) = multipart_run-IsSound r
