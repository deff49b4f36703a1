-- ===== src/Dialogs/Tests.antt =====
-- A run of web/src/contexts/ConfirmContext.tsx.
use csg_learning_platform.Prelude.{true, false, none, some, [], ◌∷◌, ◌≡◌, refl}
use csg_learning_platform.Prelude.Text.{Text, txt, trim}
use csg_learning_platform.Dialogs.{
  ConfirmOptions, danger, no_request, asked, typed, cancelled, confirmed, confirm_run,
}
use csg_learning_platform.Dialogs.Confirmed.{IsAccounted, confirm_run-IsAccounted}

abbrev same : Text → Text
same s = s

abbrev delete : ConfirmOptions
delete = record {
  title = txt "Delete";
  description = [];
  confirm_label = none;
  cancel_label = none;
  tone = some danger;
  confirmation_text = some (txt "yes");
  confirmation_label = none;
}

answers_test :
    (confirm_run same
      (asked delete ∷ asked delete ∷ confirmed ∷ typed (txt " yes") ∷ confirmed ∷ cancelled ∷ [])
      no_request).answers
    ≡ (1, true) ∷ (0, false) ∷ []
unfolding confirm_run trim
answers_test = refl

confirm_run-IsAccounted_example :
    IsAccounted (confirm_run same (asked delete ∷ confirmed ∷ []) no_request)
confirm_run-IsAccounted_example = confirm_run-IsAccounted same (asked delete ∷ confirmed ∷ [])
