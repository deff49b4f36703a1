-- ===== src/Upload/Multipart/Tests.antt =====
-- A run of `uploadMultipartToS3` in web/src/lib/uploadToS3.ts, for a file of one part.
use csg_learning_platform.Prelude.{false, List, [], ◌∷◌, refl}
use csg_learning_platform.Prelude.Text.{txt}
use csg_learning_platform.Upload.Parts.{Part}
use csg_learning_platform.Upload.Pool.{start, turn, resolve, get_elem?, pick, uploaded}
use csg_learning_platform.Upload.Multipart.{
  initiate, complete, Multipart, completed, MultipartRun, begun, step, initiate_resolved,
  worker_turned, part_resolved, workers_ended, complete_resolved, begin, all_resolved,
  on_initiating, on_uploading, on_completing, in_phase,
}
use csg_learning_platform.Upload.Multipart.Handlers.{IsSound, multipart_run-IsSound}

abbrev only : Part
only = record { number = 1; start = 0; finish = 10 }

abbrev parts : List Part
parts = only ∷ []

abbrev ended : Multipart
ended = record {
  phase = completed;
  aborted = false;
  calls = initiate ∷ complete (uploaded only (txt "a") ∷ []) ∷ [];
}

uploaded_run : MultipartRun parts ended
unfolding begin in_phase on_initiating on_uploading on_completing all_resolved start turn resolve
    get_elem? pick
uploaded_run =
    step complete_resolved
      (step workers_ended
        (step worker_turned
          (step (part_resolved 0 (txt "a"))
            (step worker_turned (step initiate_resolved (begun false) refl) refl) refl)
          refl)
        refl)
      refl

multipart_run-IsSound_example : IsSound parts ended.phase ended.calls
multipart_run-IsSound_example = multipart_run-IsSound uploaded_run
