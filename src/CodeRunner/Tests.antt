-- ===== src/CodeRunner/Tests.antt =====
-- A run of web/src/lib/codeRunner.ts.
use csg_learning_platform.Prelude.{true, some, ◌≡◌, refl}
use csg_learning_platform.Prelude.Text.{Text, txt, text_eq}
use csg_learning_platform.Json.{Json, null, str, end, field}
use csg_learning_platform.CodeRunner.{
  CodeRunnerConfig, is_runnable_language, normalize_code_runner_config,
  build_submission_config_with_runner,
}
use csg_learning_platform.CodeRunner.Laws.{runs_if_string, normalize_code_runner_config_correct}

-- Of a string and of anything else.
abbrev to_string : Json → Text
to_string (str s) = s
to_string _ = txt "[object Object]"

abbrev ruby : CodeRunnerConfig
ruby = record { enabled = true; language = str (txt "ruby") }

runs_ruby : is_runnable_language (txt "ruby") ≡ true
unfolding is_runnable_language
runs_ruby = refl

normalize_code_runner_config_correct_example :
    (normalize_code_runner_config to_string
        (some (build_submission_config_with_runner (some (field (txt "runner") null end)) ruby))
        (txt "ruby")
      ≡ ruby)
    × (is_runnable_language
          (to_string (normalize_code_runner_config to_string (some null) (txt "ruby")).language)
        ≡ true)
    × (runs_if_string (normalize_code_runner_config to_string (some null) (txt "ruby")).language
        ≡ true)
normalize_code_runner_config_correct_example =
    normalize_code_runner_config_correct to_string (some (field (txt "runner") null end)) ruby
      (some null) (txt "ruby") (λ t. refl) runs_ruby runs_ruby
