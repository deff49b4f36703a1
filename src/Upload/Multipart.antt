-- ===== src/Upload/Multipart.antt =====
-- `uploadMultipartToS3` of web/src/lib/uploadToS3.ts around its workers: the calls of the handlers, and the
-- abort signal. Its workers are the pool of Upload/Pool.antt. Once an upload is given up the signal ends what
-- the other workers do, which no longer counts, and progress reports are left out.
pub mod Handlers
mod Tests
use csg_learning_platform.Prelude.{
  ℕ, Bool, true, false, Option, none, some, List, [], ◌∷◌, ◌++◌, ◌≡◌, if◌then◌else◌, nat_beq,
}
use csg_learning_platform.Prelude.Text.{Text, txt}
use csg_learning_platform.Upload.Parts.{Part}
use csg_learning_platform.Upload.Mobile.{UploadedPart}
use csg_learning_platform.Upload.Pool.{Pool, workers, start, turn, resolve, reject}

-- The calls of the handlers that change what is stored; `getPartUrl` is asked within a part's upload, in
-- Upload/PartRetry.antt.
pub data HandlerCall : Type 0 where
  initiate : HandlerCall
  complete : List UploadedPart → HandlerCall
  abort : HandlerCall

-- Where the function waits, or how it ended.
pub data Phase : Type 0 where
  initiating : Phase
  uploading : Pool → Phase
  completing : List UploadedPart → Phase
  completed : Phase
  aborting failed : Text → Phase

-- `aborted` is that of the internal signal.
pub record Multipart : Type 0 where
  pub phase : Phase
  pub aborted : Bool
  pub calls : List HandlerCall

pub data Event : Type 0 where
  initiate_resolved complete_resolved abort_settled worker_turned workers_ended : Event
  initiate_rejected complete_rejected : Text → Event
  part_resolved : ℕ → Text → Event
  part_rejected : ℕ → Text → Event

-- The call, with the caller's signal as it is.
unfoldable pub begin : Bool → Multipart
begin aborted = record { phase = initiating; aborted = aborted; calls = initiate ∷ [] }

-- The `catch` block.
unfoldable pub give_up : Text → Multipart → Multipart
give_up error w = record w { phase = aborting error; aborted = true; calls = w.calls ++ abort ∷ [] }

abbrev pub with_pool : Multipart → Option Pool → Option Multipart
with_pool w none = none
with_pool w (some s) = some (record w { phase = uploading s })

abbrev pub rejected_part : Text → Multipart → Option Pool → Option Multipart
rejected_part error w none = none
rejected_part error w (some s) = some (give_up error w)

abbrev pub complete_parts : List UploadedPart → Multipart → Multipart
complete_parts ps w = record w { phase = completing ps; calls = w.calls ++ complete ps ∷ [] }

-- `Promise.all` resolves when every worker has left its loop.
unfoldable pub all_resolved : List Part → Pool → Multipart → Option Multipart
unfolding give_up
all_resolved parts s w =
    if nat_beq s.exited (workers parts)
    then if w.aborted
      then some (give_up (txt "Upload cancelled") w)
      else some (complete_parts s.completed_parts w)
    else none

unfoldable pub on_initiating : List Part → Event → Multipart → Option Multipart
unfolding give_up start
on_initiating parts initiate_resolved w = some (record w { phase = uploading (start parts) })
on_initiating parts (initiate_rejected error) w = some (give_up error w)
on_initiating parts _ w = none

unfoldable pub on_uploading : List Part → Pool → Event → Multipart → Option Multipart
unfolding all_resolved turn resolve reject
on_uploading parts s worker_turned w = with_pool w (turn parts s)
on_uploading parts s (part_resolved i etag) w = with_pool w (resolve i etag s)
on_uploading parts s (part_rejected i error) w = rejected_part error w (reject i s)
on_uploading parts s workers_ended w = all_resolved parts s w
on_uploading parts s _ w = none

unfoldable pub on_completing : Event → Multipart → Option Multipart
unfolding give_up
on_completing complete_resolved w = some (record w { phase = completed })
on_completing (complete_rejected error) w = some (give_up error w)
on_completing _ w = none

unfoldable pub on_aborting : Text → Event → Multipart → Option Multipart
on_aborting error abort_settled w = some (record w { phase = failed error })
on_aborting error _ w = none

unfoldable pub in_phase : List Part → Phase → Event → Multipart → Option Multipart
unfolding on_initiating on_uploading on_completing on_aborting
in_phase parts initiating e w = on_initiating parts e w
in_phase parts (uploading s) e w = on_uploading parts s e w
in_phase parts (completing ps) e w = on_completing e w
in_phase parts completed e w = none
in_phase parts (aborting error) e w = on_aborting error e w
in_phase parts (failed error) e w = none

-- An event of the phase, or the caller's abort at any time.
pub data MultipartRun (parts : List Part) : Multipart → Type 0 where
  begun : (aborted : Bool) → MultipartRun parts (begin aborted)
  step :
      {w v : Multipart} (e : Event)
      → MultipartRun parts w
      → in_phase parts w.phase e w ≡ some v
      → MultipartRun parts v
  abort_signal :
      {w : Multipart} → MultipartRun parts w → MultipartRun parts (record w { aborted = true })
