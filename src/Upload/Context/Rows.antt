-- ===== src/Upload/Context/Rows.antt =====
-- What the list operations of web/src/contexts/UploadContext.tsx do to the row of an upload.
use csg_learning_platform.Prelude.{
  String, Option, none, some, List, [], ◌∷◌, ◌++◌, ◌≡◌, ◌≢◌, refl, arith, string_eq,
}
use text.Mathlib.TextEquality.{eq_iff}
use csg_learning_platform.Upload.Context.{ActiveUpload, update_upload, remove_upload, row_of}

abbrev pub map_row : (ActiveUpload → ActiveUpload) → Option ActiveUpload → Option ActiveUpload
map_row f none = none
map_row f (some u) = some (f u)

pub row_of-update_upload :
    (id : String) (f : ActiveUpload → ActiveUpload) (us : List ActiveUpload)
    → ((u : ActiveUpload) → (f u).id ≡ u.id)
    → row_of id (update_upload id f us) ≡ map_row f (row_of id us)
unfolding row_of update_upload
row_of-update_upload id f [] h = refl
row_of-update_upload id f (u ∷ us) h =
    ground (arith, row_of-update_upload id f us h, h u, eq_iff u.id id)

pub row_of-remove_upload :
    (id : String) (us : List ActiveUpload) → row_of id (remove_upload id us) ≡ none
unfolding row_of remove_upload
row_of-remove_upload id [] = refl
row_of-remove_upload id (u ∷ us) = ground (arith, row_of-remove_upload id us)

pub row_of-append :
    (id : String) (u : ActiveUpload) (us : List ActiveUpload)
    → row_of id us ≡ none
    → u.id ≡ id
    → row_of id (us ++ u ∷ []) ≡ some u
unfolding row_of
row_of-append id u [] h e = ground (arith, eq_iff u.id id)
row_of-append id u (v ∷ us) h e = ground (arith, row_of-append id u us)

-- Updating or removing the upload of one id leaves the rows of all other ids as they were.
rows_isolated :
    (id other : String) (f : ActiveUpload → ActiveUpload) (us : List ActiveUpload)
    → id ≢ other
    → ((u : ActiveUpload) → (f u).id ≡ u.id)
    → (row_of other (update_upload id f us) ≡ row_of other us)
      × (row_of other (remove_upload id us) ≡ row_of other us)
unfolding row_of update_upload remove_upload
rows_isolated id other f [] differ h = (refl, refl)
rows_isolated id other f (u ∷ us) differ h =
    let (updated, removed) = rows_isolated id other f us differ h in
    (
      ground (arith, updated, h u, eq_iff u.id id, eq_iff u.id other, differ),
      ground (arith, removed, eq_iff u.id id, eq_iff u.id other, differ),
    )
