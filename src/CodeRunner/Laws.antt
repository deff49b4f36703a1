-- ===== src/CodeRunner/Laws.antt =====
-- What web/src/lib/codeRunner.ts makes of a configuration that it wrote, and of any other.
use csg_learning_platform.Prelude.{
  Bool, true, Option, none, some, ◌≡◌, refl, arith, Bool-cases, inl, inr,
}
use csg_learning_platform.Prelude.Text.{Text, txt, text_eq, text_beq_iff}
use csg_learning_platform.Json.{Json, str, obj, Fields, end, field, property, get_field}
use csg_learning_platform.CodeRunner.{
  CodeRunnerConfig, is_runnable_language, object_of, property_of, language_or, runner_config,
  normalize_code_runner_config, set_field, or_no_fields, build_submission_config_with_runner,
}

get_field-set_field :
    (name : Text) (v : Json) (fs : Fields) → get_field name (set_field name v fs) ≡ some v
unfolding set_field
get_field-set_field name v end = ground (arith, text_beq_iff name name)
get_field-set_field name v (field k w fs) = ground (arith, get_field-set_field name v fs)

abbrev pub runs_if_string : Json → Bool
runs_if_string (str t) = is_runnable_language t
runs_if_string _ = true

module _ (to_string : Json → Text) where
  abbrev IsRunnable : Json → Type 0
  IsRunnable language = is_runnable_language (to_string language) ≡ true

  language_or-IsRunnable :
      (v : Option Json) (fallback : Text)
      → IsRunnable (str fallback)
      → IsRunnable (language_or to_string v fallback)
  language_or-IsRunnable none fallback h = h
  language_or-IsRunnable (some v) fallback h =
      elim (Bool-cases (is_runnable_language (to_string v))) [ inl e ↦ rw e e | inr e ↦ rw e h ]

  runner_config-IsRunnable :
      (v : Option Json) (fallback : Text)
      → IsRunnable (str fallback)
      → IsRunnable (runner_config to_string v fallback).language
  runner_config-IsRunnable none fallback h = h
  runner_config-IsRunnable (some v) fallback h =
      language_or-IsRunnable (property (txt "language") v) fallback h

  runner_config-same :
      (runner : CodeRunnerConfig) (fallback : Text)
      → IsRunnable runner.language
      → runner_config to_string
          (some (
            obj (
              field
                (txt "enabled")
                (Json.bool runner.enabled)
                (field (txt "language") runner.language end))))
          fallback
        ≡ runner
  runner_config-same runner fallback h = rw h refl

  string_runs :
      ((t : Text) → to_string (str t) ≡ t)
      → (language : Json) → IsRunnable language
      → runs_if_string language ≡ true
  string_runs same (str t) h = rw (same t) at h
  string_runs same _ h = refl

  -- A runner's configuration that was written into a submission's is read back as it was, whatever
  -- else the latter has. Of any value a language is read whose text, `String(language)`, is one that can
  -- be run, and which is one itself if it is a string. The fallback can be run, and `String` of a string
  -- is the string.
  pub normalize_code_runner_config_correct :
      (existing : Option Fields) (runner : CodeRunnerConfig) (config : Option Json)
      (fallback : Text)
      → ((t : Text) → to_string (str t) ≡ t)
      → is_runnable_language (to_string runner.language) ≡ true
      → is_runnable_language (to_string (str fallback)) ≡ true
      → (normalize_code_runner_config to_string
            (some (build_submission_config_with_runner existing runner))
            fallback
          ≡ runner)
        × (is_runnable_language
              (to_string (normalize_code_runner_config to_string config fallback).language)
            ≡ true)
        × (runs_if_string (normalize_code_runner_config to_string config fallback).language ≡ true)
  unfolding normalize_code_runner_config build_submission_config_with_runner
  normalize_code_runner_config_correct existing runner config fallback same h k = (
    rw (get_field-set_field (txt "runner") _ (or_no_fields existing))
        (runner_config-same runner fallback h),
    runner_config-IsRunnable (object_of (property_of (txt "runner") (object_of config))) fallback k,
    string_runs same _ (
        runner_config-IsRunnable (object_of (property_of (txt "runner") (object_of config)))
          fallback k),
  )
