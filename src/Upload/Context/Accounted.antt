-- ===== src/Upload/Context/Accounted.antt =====
-- No stored object is lost by web/src/contexts/UploadContext.tsx.
use csg_learning_platform.Prelude.{
  String, Bool, true, false, not, ◌&&◌, ◌||◌, Option, none, some, ◌≡◌, ◌==◌, string_eq, any,
}
use csg_learning_platform.Prelude.Text.{Text, text_eq, is_empty}
use csg_learning_platform.Upload.Context.{
  Status, waiting, is_active, ActiveUpload, StartOpts, Phase, preparing, sending, persisting,
  attaching, Session, row_of, is_settled,
}

abbrev is_early : Phase → Bool
is_early preparing = true
is_early sending = true
is_early _ = false

abbrev pub is_saving : Phase → Bool
is_saving persisting = true
is_saving attaching = true
is_saving _ = false

abbrev is_waiting : Status → Bool
is_waiting waiting = true
is_waiting _ = false

abbrev pub waits : Option ActiveUpload → Bool
waits none = false
waits (some u) = is_waiting u.status

abbrev is_on : Option ActiveUpload → Bool
is_on none = false
is_on (some u) = is_active u.status

abbrev is_sending : Phase → Bool
is_sending sending = true
is_sending _ = false

abbrev has_key : Text → Phase → Bool → Option Text → Bool
has_key key phase is_stored none = not is_stored && not (is_sending phase)
has_key key phase is_stored (some k) = k == key

abbrev row_has_key : Text → Phase → Bool → Option ActiveUpload → Bool
row_has_key key phase is_stored none = true
row_has_key key phase is_stored (some u) = has_key key phase is_stored u.s3_key

module _ (id : String) (opts : StartOpts) (key : Text) (full : is_empty key ≡ false) where
  -- The object is persisted, given up or adopted, a call that persists it is under way, a row waits
  -- for its target, or the upload was cancelled before it was stored.
  abbrev pub is_accounted : Option ActiveUpload → Session → Bool
  is_accounted row s = any (is_settled key) s.calls || is_saving s.phase || waits row || s.overtaken

  abbrev is_sound : Option ActiveUpload → Session → Bool
  is_sound row s =
      row_has_key key s.phase s.is_stored row
      && (not s.is_stored || (is_accounted row s && not (is_early s.phase)))
      && (not (is_early s.phase) || is_on row || s.aborted || any (is_settled key) s.calls)

  abbrev IsSound : Session → Type 0
  IsSound s = is_sound (row_of id s.uploads) s ≡ true
