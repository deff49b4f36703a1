-- ===== src/Upload/Context/Tests.antt =====
-- Runs of an upload of web/src/contexts/UploadContext.tsx.
use csg_learning_platform.Prelude.{none, [], ◌∷◌, ◌≡◌, refl}
use csg_learning_platform.Prelude.Text.{Text, txt}
use csg_learning_platform.Upload.Context.{
  StartOpts, File, Session, update_upload, remove_upload, row_of, abandoned, start_video_upload,
  initiated, stored, cancel_upload, plan_of,
}

abbrev video : File
video = record { name = "talk.mp4"; size = 200000000; content_type = "video/mp4" }

-- No target yet: the object waits for one.
abbrev untargeted : StartOpts
untargeted = record {
  content_block_id = none;
  defer_persistence = none;
  cohort_recording = none;
  link_to = none;
  link_label = none;
}

abbrev key : Text
key = txt "videos/1"

abbrev begun_upload : Session
begun_upload = start_video_upload "a" video untargeted []

abbrev sent : Session
sent = initiated "a" key begun_upload

abbrev held : Session
held = stored "a" untargeted sent

abbrev shown : Session → Session
shown s = record s { rendered = s.uploads }

-- Cancelled while it waits, the object is given up.
cancelled_waiting : (cancel_upload "a" (shown held)).calls ≡ abandoned key ∷ []
unfolding cancel_upload stored plan_of row_of initiated start_video_upload update_upload
cancelled_waiting = refl

-- Cancelled while storage completes the parts, the object is stored all the same, and no call is made.
overtaken_calls : (stored "a" untargeted (cancel_upload "a" (shown sent))).calls ≡ []
unfolding cancel_upload stored plan_of row_of initiated start_video_upload update_upload
    remove_upload
overtaken_calls = refl

-- Cancelled before the waiting row is rendered, the object is not given up.
cancelled_before_render : (cancel_upload "a" (stored "a" untargeted (shown sent))).calls ≡ []
unfolding cancel_upload stored plan_of row_of initiated start_video_upload update_upload
cancelled_before_render = refl
