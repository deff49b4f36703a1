-- ===== src/MobileApi/Requests.antt =====
-- How often mobile/src/lib/api.ts sends a request, and what its errors say.
use csg_learning_platform.Prelude.{
  ℕ, Bool, none, some, true, false, not, ◌&&◌, ◌||◌, Option, [], ◌∷◌, ◌≡◌, refl, arith, ◌∙◌, ap,
  if◌then◌else◌, nat_beq, Bool-cases, inl, inr,
}
use csg_learning_platform.Prelude.Text.{Text, text_eq}
use csg_learning_platform.Session.{is_session_access_denied, can_use_cached_session}
use csg_learning_platform.MobileApi.{
  Answer, ok, not_ok, abort_error, other_failure, Settled, failed, is_retryable, Method, Call,
  settle, is_retried, send, is_get_request, request_method, request, transcribe_voice,
  transcription_method,
}

-- No response came.
abbrev pub is_unanswered : Answer → Bool
is_unanswered abort_error = true
is_unanswered other_failure = true
is_unanswered _ = false

abbrev pub has_status : ℕ → Answer → Bool
has_status n (not_ok status payload) = nat_beq status n
has_status n _ = false

abbrev pub is_passing : Answer → Bool
is_passing (not_ok status payload) = is_retryable status
is_passing _ = false

is_retried-request :
    (method : Option Text) (a : Answer)
    → is_retried (request_method method) a
      ≡ (has_status 401 a || (is_get_request method && is_passing a))
is_retried-request method (ok status json) = ground arith
is_retried-request method (not_ok status payload) = refl
is_retried-request method abort_error = ground arith
is_retried-request method other_failure = ground arith

is_retried-transcription : (a : Answer) → is_retried transcription_method a ≡ has_status 401 a
is_retried-transcription (ok status json) = refl
is_retried-transcription (not_ok status payload) = refl
is_retried-transcription abort_error = refl
is_retried-transcription other_failure = refl

send-log :
    (m : Method) (call : Call)
    → (send m call).1 ≡ (if is_retried m (call.answer 0) then false ∷ true ∷ [] else false ∷ [])
unfolding send
send-log m call = elim (Bool-cases (is_retried m (call.answer 0))) [
  | inl e ↦ rw e refl
  | inr e ↦ rw e refl
]

-- A request is sent a second time, with a fresh token, if the first one was answered 401, or if it was a GET
-- that failed for a passing reason, and otherwise once; a recording is sent again after 401 only.
request-sends :
    (method : Option Text) (call : Call)
    → ((request method call).1 ≡ (
        if has_status 401 (call.answer 0) || (is_get_request method && is_passing (call.answer 0))
        then false ∷ true ∷ []
        else false ∷ []))
      × ((transcribe_voice call).1
          ≡ (if has_status 401 (call.answer 0) then false ∷ true ∷ [] else false ∷ []))
unfolding request transcribe_voice
request-sends method call = (
  send-log (request_method method) call
      ∙ ap (λ b. if b then false ∷ true ∷ [] else false ∷ [])
          (is_retried-request method (call.answer 0)),
  send-log transcription_method call
      ∙ ap (λ b. if b then false ∷ true ∷ [] else false ∷ [])
          (is_retried-transcription (call.answer 0)),
)

-- The cached session may be used after this outcome.
abbrev pub keeps_session : Settled → Bool
keeps_session (failed e) = can_use_cached_session e && not (is_session_access_denied e)
keeps_session _ = false

settle-keeps_session :
    (m : Method) (a : Answer) → is_unanswered a ≡ true → keeps_session (settle m false a) ≡ true
unfolding can_use_cached_session is_session_access_denied
settle-keeps_session m (ok status json) h = cc
settle-keeps_session m (not_ok status none) h = cc
settle-keeps_session m (not_ok status (some payload)) h = cc
settle-keeps_session m abort_error h = refl
settle-keeps_session m other_failure h = refl

unanswered_once : (m : Method) (a : Answer) → is_unanswered a ≡ true → is_retried m a ≡ false
unanswered_once m (ok status json) h = refl
unanswered_once m (not_ok status payload) h = cc
unanswered_once m abort_error h = refl
unanswered_once m other_failure h = refl

-- A request that no response comes to, and that its caller did not abort, is sent once, and is rejected
-- with an error on which the app keeps its cached session.
pub request-keeps_session :
    (method : Option Text) (call : Call)
    → is_unanswered (call.answer 0) ≡ true
    → call.caller_aborted 0 ≡ false
    → (keeps_session (request method call).0 ≡ true) × ((request method call).1 ≡ false ∷ [])
unfolding request send
request-keeps_session method call h k =
    rw (unanswered_once (request_method method) (call.answer 0) h)
      (rw k (settle-keeps_session (request_method method) (call.answer 0) h, refl))
