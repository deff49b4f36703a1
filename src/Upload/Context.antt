-- ===== src/Upload/Context.antt =====
-- The uploads of web/src/contexts/UploadContext.tsx: the list that the provider keeps, and one upload
-- from its start to its end, step by step as its promises settle. Steps of other uploads interleave.
pub mod Rows
pub mod Accounted
mod Tests
use csg_learning_platform.Prelude.{
  ℕ, String, Bool, true, false, not, ◌&&◌, ◌||◌, Option, none, some, List, [], ◌∷◌, ◌++◌, map, ◌≡◌,
  ◌≢◌, if◌then◌else◌, ◌==◌, nat_beq, string_eq, filter, find, any, ◌⊎◌,
}
use csg_learning_platform.Prelude.Text.{Text, is_empty, text_eq}

pub data Status : Type 0 where
  presigning uploading waiting saving done error : Status

pub record CohortRecording : Type 0 where
  pub cohort_id : ℕ
  pub title : String
  pub description : Option String
  pub recorded_date : Option String

-- `UploadStartOpts`; an option that is left out is `none`.
pub record StartOpts : Type 0 where
  pub content_block_id : Option ℕ
  pub defer_persistence : Option Bool
  pub cohort_recording : Option CohortRecording
  pub link_to : Option String
  pub link_label : Option String

pub record Patch : Type 0 where
  pub content_block_id : Option ℕ
  pub link_to : Option String
  pub link_label : Option String

-- The abort controller is with the run that it belongs to.
pub record ActiveUpload : Type 0 where
  pub id : String
  pub file_name : String
  pub file_size : ℕ
  pub content_type : String
  pub progress : ℕ
  pub status : Status
  pub error_message : Option String
  pub s3_key : Option Text
  pub content_block_id : Option ℕ
  pub defer_persistence : Option Bool
  pub cohort_recording : Option CohortRecording
  pub link_to : Option String
  pub link_label : Option String

pub record File : Type 0 where
  pub name : String
  pub size : ℕ
  pub content_type : String

abbrev pub on_id : String → (ActiveUpload → ActiveUpload) → ActiveUpload → ActiveUpload
on_id id f u = if u.id == id then f u else u

unfoldable pub update_upload :
    String → (ActiveUpload → ActiveUpload) → List ActiveUpload → List ActiveUpload
update_upload id f uploads = map (on_id id f) uploads

unfoldable pub remove_upload : String → List ActiveUpload → List ActiveUpload
remove_upload id uploads = filter (λ u. not (u.id == id)) uploads

unfoldable pub row_of : String → List ActiveUpload → Option ActiveUpload
row_of id uploads = find (λ u. u.id == id) uploads

abbrev pub is_active : Status → Bool
is_active done = false
is_active error = false
is_active _ = true

-- `left ?? right`
abbrev pub coalesce {ℓ} : {A : Type ℓ} → Option A → Option A → Option A
coalesce none right = right
coalesce (some a) right = some a

-- What `persistUploadTarget` decides to do: nothing, or one of two calls.
pub data Plan : Type 0 where
  keep : Plan
  save_block : ℕ → Plan
  save_recording : CohortRecording → Plan

abbrev pub is_true : Option Bool → Bool
is_true (some true) = true
is_true _ = false

abbrev recording_plan : Option CohortRecording → Plan
recording_plan none = keep
recording_plan (some r) = save_recording r

-- `if (contentBlockId) …`: 0 is falsy.
abbrev plan_for : Option ℕ → Option Bool → Option CohortRecording → Plan
plan_for none defer recording = recording_plan recording
plan_for (some block) defer recording =
    if nat_beq block 0
    then recording_plan recording
    else if is_true defer
    then keep
    else save_block block

unfoldable pub plan_of : Option ActiveUpload → StartOpts → Plan
plan_of none opts = plan_for opts.content_block_id opts.defer_persistence opts.cohort_recording
plan_of (some live) opts =
    plan_for (coalesce live.content_block_id opts.content_block_id)
      (coalesce live.defer_persistence opts.defer_persistence)
      (coalesce live.cohort_recording opts.cohort_recording)

-- The calls that decide what becomes of the stored object. `adopted` is the caller's, who takes a
-- deferred upload over.
pub data Call : Type 0 where
  persisted : Text → Call
  abandoned : Text → Call
  adopted : Call

-- Where the upload's promises are: without a key yet, sending to storage, waiting for the call that persists, from the
-- start or from an attachment, or at rest.
pub data Phase : Type 0 where
  preparing sending persisting attaching resting : Phase

-- One upload among the others. `rendered` is `uploadsRef.current`, the list of the last render. `is_stored` says that storage has the whole object, and `overtaken` that
-- it got there after the upload was cancelled. `calls` has the latest call first.
pub record Session : Type 0 where
  pub uploads : List ActiveUpload
  pub rendered : List ActiveUpload
  pub aborted : Bool
  pub phase : Phase
  pub is_stored : Bool
  pub overtaken : Bool
  pub calls : List Call

abbrev pub with_status : Status → ActiveUpload → ActiveUpload
with_status status u = record u { status = status }

abbrev pub with_error : String → ActiveUpload → ActiveUpload
with_error message u = record u { status = error; error_message = some message }

abbrev pub or_old {ℓ} : {A : Type ℓ} → Option A → Option A → Option A
or_old old none = old
or_old old (some a) = some a

-- `{ ...current, ...patch }`
abbrev pub patched : Patch → ActiveUpload → ActiveUpload
patched patch u = record u {
  content_block_id = or_old u.content_block_id patch.content_block_id;
  link_to = or_old u.link_to patch.link_to;
  link_label = or_old u.link_label patch.link_label;
}

-- A call that keeps the stored object or gives it up.
abbrev pub is_settled : Text → Call → Bool
is_settled key (persisted k) = k == key
is_settled key (abandoned k) = k == key
is_settled key adopted = true

module _ (id : String) where
  abbrev pub update : (ActiveUpload → ActiveUpload) → Session → Session
  update f s = record s { uploads = update_upload id f s.uploads }

  abbrev pub remove : Session → Session
  remove s = record s { uploads = remove_upload id s.uploads }

  unfoldable pub progressed : ℕ → Session → Session
  unfolding update_upload
  progressed percent s = update (λ u. record u { progress = percent }) s

  abbrev pub by_plan : Plan → Phase → Session → Session
  by_plan keep next s = s
  by_plan (save_block block) next s = record (update (with_status saving) s) { phase = next }
  by_plan (save_recording recording) next s = record (update (with_status saving) s) {
    phase = next;
  }

  abbrev pub rest : Plan → Session → Session
  rest keep s =
      update (λ u. record u { status = waiting; progress = 100 }) (record s { phase = resting })
  rest (save_block block) s = s
  rest (save_recording recording) s = s

  unfoldable pub complete_upload : Session → Session
  complete_upload s = update (with_status done) s

  -- The caller has saved a deferred upload; nothing is sent for it here.
  unfoldable pub complete_deferred : Session → Session
  unfolding complete_upload
  complete_deferred s = complete_upload (record s { calls = adopted ∷ s.calls })

  abbrev pub abandon_key : Option Text → List Call → List Call
  abandon_key none calls = calls
  abandon_key (some k) calls = if is_empty k then calls else abandoned k ∷ calls

  abbrev is_waiting : Status → Bool
  is_waiting waiting = true
  is_waiting _ = false

  abbrev cancel_row : Option ActiveUpload → Session → Session
  cancel_row none s = s
  cancel_row (some u) s = record s {
    aborted = true;
    calls = if is_waiting u.status then abandon_key u.s3_key s.calls else s.calls;
  }

  unfoldable pub cancel_upload : Session → Session
  unfolding row_of
  cancel_upload s = remove (cancel_row (row_of id s.rendered) s)

  abbrev pub is_id : Option ℕ → Bool
  is_id none = false
  is_id (some n) = not (nat_beq n 0)

  abbrev pub has_text : Option Text → Bool
  has_text none = false
  has_text (some k) = not (is_empty k)

  abbrev pub attach_opts : ActiveUpload → StartOpts
  attach_opts next = record {
    content_block_id = next.content_block_id;
    defer_persistence = none;
    cohort_recording = none;
    link_to = next.link_to;
    link_label = next.link_label;
  }

  abbrev attach_row : Patch → Option ActiveUpload → Session → Session
  attach_row patch none s = s
  attach_row patch (some u) s =
      if (is_id (patched patch u).content_block_id && has_text u.s3_key) && is_waiting u.status
      then by_plan (plan_of (some u) (attach_opts (patched patch u))) attaching s
      else s

  -- The patch, and `persistUploadTarget` up to its call where the object waits.
  unfoldable pub attach_upload : Patch → Session → Session
  unfolding row_of plan_of
  attach_upload patch s = attach_row patch (row_of id s.rendered) (update (patched patch) s)

  module _ (file : File) (opts : StartOpts) where
    abbrev pub new_upload : ActiveUpload
    new_upload = record {
      id = id;
      file_name = file.name;
      file_size = file.size;
      content_type = if file.content_type == "" then "video/mp4" else file.content_type;
      progress = 0;
      status = presigning;
      error_message = none;
      s3_key = none;
      content_block_id = opts.content_block_id;
      defer_persistence = opts.defer_persistence;
      cohort_recording = opts.cohort_recording;
      link_to = opts.link_to;
      link_label = opts.link_label;
    }

    -- The beginning of `startVideoUpload`.
    unfoldable pub start_video_upload : List ActiveUpload → Session
    start_video_upload uploads = record {
      uploads = uploads ++ new_upload ∷ [];
      rendered = uploads;
      aborted = false;
      phase = preparing;
      is_stored = false;
      overtaken = false;
      calls = [];
    }

  module _ (opts : StartOpts) where
    -- Storage has the whole object: `persistUploadTarget` up to its call, or the end without one.
    unfoldable pub stored : Session → Session
    stored s =
        let plan = plan_of (row_of id s.rendered) opts in
        rest plan (by_plan plan persisting (record s { is_stored = true; overtaken = s.aborted }))

  module _ (key : Text) where
    -- The server has given the key.
    unfoldable pub initiated : Session → Session
    unfolding update_upload
    initiated s =
        update (λ u. record u { status = uploading; s3_key = some key })
          (record s { phase = sending })

    -- The call that persists has succeeded.
    unfoldable pub saved : Session → Session
    unfolding complete_upload
    saved s = complete_upload (record s { phase = resting; calls = persisted key ∷ s.calls })

    -- `catch (err)` of `startVideoUpload`, with `uploadedS3Key`.
    unfoldable pub caught : Bool → String → Session → Session
    caught has_key message s =
        let calls = if has_key && not (is_empty key) then abandoned key ∷ s.calls else s.calls in
        let s' : Session = record s { phase = resting; calls = calls } in
        if s.aborted then remove s' else update (with_error message) s'

    -- The `catch` of `attachUpload`.
    unfoldable pub attach_failed : String → Session → Session
    attach_failed message s =
        update (with_error message) (record s { phase = resting; calls = abandoned key ∷ s.calls })

  module _ (file : File) (opts : StartOpts) (key : Text) where
    pub data Step (s : Session) : Session → Type 0 where
      initiate : s.phase ≡ preparing → Step s (initiated key s)
      progress : (percent : ℕ) → s.phase ≡ sending → Step s (progressed percent s)
      store : s.phase ≡ sending → Step s (stored opts s)
      fail :
          (message : String)
          → (s.phase ≡ preparing) ⊎ (s.phase ≡ sending)
          → Step s (caught key false message s)
      save : s.phase ≡ persisting → Step s (saved key s)
      save_failed : (message : String) → s.phase ≡ persisting → Step s (caught key true message s)
      attached : s.phase ≡ attaching → Step s (saved key s)
      attaching_failed :
          (message : String) → s.phase ≡ attaching → Step s (attach_failed key message s)
      rerender : Step s (record s { rendered = s.uploads })
      -- A click, or a caller's call, where the last render shows the row as it is.
      cancel : row_of id s.rendered ≡ row_of id s.uploads → Step s (cancel_upload s)
      attach :
          (patch : Patch)
          → row_of id s.rendered ≡ row_of id s.uploads
          → Step s (attach_upload patch s)
      complete : Step s (complete_deferred s)
      -- The user takes a row that is done or failed off the list; so does the timer of `completeUpload`.
      dismiss :
          (u : ActiveUpload)
          → row_of id s.uploads ≡ some u
          → is_active u.status ≡ false
          → Step s (remove s)
      expire : any (is_settled key) s.calls ≡ true → Step s (remove s)
      -- Other uploads change their rows.
      elsewhere :
          (uploads : List ActiveUpload)
          → row_of id uploads ≡ row_of id s.uploads
          → Step s (record s { uploads = uploads })

    pub data Reach : Session → Type 0 where
      begun :
          (uploads : List ActiveUpload)
          → row_of id uploads ≡ none
          → Reach (start_video_upload file opts uploads)
      next : {s t : Session} → Reach s → Step s t → Reach t
