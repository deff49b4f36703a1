-- ===== src/CodeRunner.antt =====
-- The configuration of the code runner: web/src/lib/codeRunner.ts. `String(value)` is a parameter.
pub mod Laws
mod Tests
use csg_learning_platform.Prelude.{
  ℕ, suc, zero, Bool, true, false, not, ◌||◌, Option, none, some, if◌then◌else◌, ◌==◌,
}
use csg_learning_platform.Prelude.Text.{Text, txt, text_eq, is_empty}
use csg_learning_platform.Json.{
  Json, null, bool, num, negsuc, str, arr, obj, Fields, end, field, property, is_object, truthy,
}

pub record CodeRunnerConfig : Type 0 where
  pub enabled : Bool
  pub language : Json

unfoldable pub is_runnable_language : Text → Bool
is_runnable_language language = language == txt "ruby" || language == txt "javascript"

unfoldable pub code_runner_language_from_editor : Text → Option Text
code_runner_language_from_editor language =
    if language == txt "ruby"
    then some (txt "ruby")
    else if language == txt "javascript" || language == txt "typescript"
    then some (txt "javascript")
    else none

abbrev pub disabled : Text → CodeRunnerConfig
disabled fallback = record { enabled = false; language = str fallback }

-- The value if it is an object, null and `undefined` apart.
abbrev pub object_of : Option Json → Option Json
object_of none = none
object_of (some v) = if is_object v then some v else none

abbrev pub property_of : Text → Option Json → Option Json
property_of name none = none
property_of name (some v) = property name v

module _ (to_string : Json → Text) where
  -- `String(undefined)` is no language.
  abbrev pub language_or : Option Json → Text → Json
  language_or none fallback = str fallback
  language_or (some v) fallback = if is_runnable_language (to_string v) then v else str fallback

  abbrev pub runner_config : Option Json → Text → CodeRunnerConfig
  runner_config none fallback = disabled fallback
  runner_config (some runner) fallback = record {
    enabled = truthy (property (txt "enabled") runner);
    language = language_or (property (txt "language") runner) fallback;
  }

  unfoldable pub normalize_code_runner_config : Option Json → Text → CodeRunnerConfig
  unfolding is_runnable_language
  normalize_code_runner_config config fallback =
      runner_config (object_of (property_of (txt "runner") (object_of config))) fallback

-- `{ ...fields, [name]: value }`
unfoldable pub set_field : Text → Json → Fields → Fields
set_field name value end = field name value end
set_field name value (field k v fs) =
    let rest = set_field name value fs in if k == name then field k value fs else field k v rest

abbrev pub or_no_fields : Option Fields → Fields
or_no_fields none = end
or_no_fields (some fs) = fs

unfoldable pub build_submission_config_with_runner : Option Fields → CodeRunnerConfig → Json
unfolding set_field
build_submission_config_with_runner existing runner = obj (
    set_field (txt "runner")
      (obj
        (field (txt "enabled") (bool runner.enabled) (field (txt "language") runner.language end)))
      (or_no_fields existing))
