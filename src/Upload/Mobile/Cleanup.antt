-- ===== src/Upload/Mobile/Cleanup.antt =====
-- What a recording's upload leaves in storage (mobile/src/lib/recording-upload.ts).
use csg_learning_platform.Prelude.{false, ◌≡◌}
use csg_learning_platform.Prelude.Text.{Text, text_eq, is_empty}
use csg_learning_platform.Upload.Mobile.{Remote, M, succeeded}
use csg_learning_platform.Upload.Mobile.Stored.{
  Stored, absent, partial, unnamed, named, unsure, given_up, After,
}

module _ (remote : Remote) where
  -- Nothing is left in storage that no recording names, unless the call that removes it failed, or
  -- the request that posts the file was not answered.
  abbrev pub IsCleaned : Stored → Type 0
  IsCleaned absent = Unit
  IsCleaned given_up = Unit
  IsCleaned (partial key) = succeeded (remote.abort key) ≡ false
  IsCleaned (unnamed key) = succeeded (remote.abandon key) ≡ false
  IsCleaned (unsure key) = succeeded (remote.post key) ≡ false
  IsCleaned (named key) = ⊥

  -- Of a run from no object: it ends with the object, or with nothing that is left.
  abbrev Uploads : M Text → Type 0
  Uploads m = After absent m (λ k t. (t ≡ unnamed k) × (is_empty k ≡ false)) IsCleaned
