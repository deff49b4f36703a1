-- ===== src/Dialogs.antt =====
-- The web client's confirmations: web/src/contexts/ConfirmContext.tsx. A promise is the number of the request that made it.
pub mod Confirmed
mod Tests
use csg_learning_platform.Prelude.{
  ℕ, suc, ◌+◌, Bool, true, false, not, ◌&&◌, Option, none, some, List, [], ◌∷◌, ◌++◌, if◌then◌else◌,
  ◌==◌, filter, nat_beq,
}
use csg_learning_platform.Prelude.Text.{Text, text_eq, is_empty, trim}

pub data Tone : Type 0 where
  default danger : Tone

pub record ConfirmOptions : Type 0 where
  pub title : Text
  pub description : Text
  pub confirm_label : Option Text
  pub cancel_label : Option Text
  pub tone : Option Tone
  pub confirmation_text : Option Text
  pub confirmation_label : Option Text

-- `requests` counts the promises that were made, and `answers` has what they resolved to.
pub record Confirm : Type 0 where
  pub options : Option ConfirmOptions
  pub confirmation_value : Text
  pub resolver : Option ℕ
  pub requests : ℕ
  pub answers : List (ℕ × Bool)

abbrev pub no_request : Confirm
no_request = record {
  options = none;
  confirmation_value = [];
  resolver = none;
  requests = 0;
  answers = [];
}

-- `resolverRef.current?.(confirmed)`
abbrev pub resolve : Option ℕ → Bool → List (ℕ × Bool) → List (ℕ × Bool)
resolve none confirmed answers = answers
resolve (some n) confirmed answers = (n, confirmed) ∷ answers

unfoldable pub request_confirm : ConfirmOptions → Confirm → Confirm
request_confirm next_options w = record {
  answers = resolve w.resolver false w.answers;
  confirmation_value = [];
  options = some next_options;
  resolver = some w.requests;
  requests = suc w.requests;
}

unfoldable pub finish : Bool → Confirm → Confirm
finish confirmed w = record w {
  answers = resolve w.resolver confirmed w.answers;
  resolver = none;
  confirmation_value = [];
  options = none;
}

-- Whether the button that confirms is disabled; `lower` is toLowerCase.
abbrev pub needs_text : (Text → Text) → Text → Option Text → Bool
needs_text lower value none = false
needs_text lower value (some []) = false
needs_text lower value (some (c ∷ s)) = not (lower (trim value) == lower (trim (c ∷ s)))

abbrev pub is_disabled : (Text → Text) → Text → Option ConfirmOptions → Bool
is_disabled lower value none = false
is_disabled lower value (some options) = needs_text lower value options.confirmation_text

pub data ConfirmEvent : Type 0 where
  asked : ConfirmOptions → ConfirmEvent
  typed : Text → ConfirmEvent
  cancelled confirmed : ConfirmEvent

unfoldable pub confirm_step : (Text → Text) → ConfirmEvent → Confirm → Confirm
unfolding request_confirm finish
confirm_step lower (asked options) w = request_confirm options w
confirm_step lower (typed value) w = record w { confirmation_value = value }
confirm_step lower cancelled w = finish false w
confirm_step lower confirmed w =
    if is_disabled lower w.confirmation_value w.options then w else finish true w

unfoldable pub confirm_run : (Text → Text) → List ConfirmEvent → Confirm → Confirm
unfolding confirm_step
confirm_run lower [] w = w
confirm_run lower (e ∷ es) w = confirm_run lower es (confirm_step lower e w)
