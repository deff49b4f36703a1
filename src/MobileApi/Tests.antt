-- ===== src/MobileApi/Tests.antt =====
-- Runs of the mobile app's `request` (mobile/src/lib/api.ts).
use csg_learning_platform.Prelude.{ℕ, zero, suc, true, false, none, some, [], ◌∷◌, ◌≡◌, refl}
use csg_learning_platform.Json.{obj, end}
use csg_learning_platform.MobileApi.{Answer, ok, not_ok, other_failure, value, Call, request}
use csg_learning_platform.MobileApi.Requests.{keeps_session, request-keeps_session}

abbrev busy : Answer
busy = not_ok 503 (some (record { error = none; errors = none; code = none }))

abbrev then_fine : ℕ → Answer
then_fine zero = busy
then_fine (suc n) = ok 200 (some (obj end))

abbrev flaky : Call
flaky = record { answer = then_fine; caller_aborted = λ n. false }

abbrev offline : Call
offline = record { answer = λ n. other_failure; caller_aborted = λ n. false }

request_test : request none flaky ≡ (value (obj end), false ∷ true ∷ [])
unfolding request
request_test = refl

request-keeps_session_example :
    (keeps_session (request none offline).0 ≡ true) × ((request none offline).1 ≡ false ∷ [])
request-keeps_session_example = request-keeps_session none offline refl refl
