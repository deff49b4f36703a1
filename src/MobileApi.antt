-- ===== src/MobileApi.antt =====
-- The mobile app's requests: `request` and `transcribeVoice` of the class CsgApi in
-- mobile/src/lib/api.ts. What an attempt settles to is a parameter, an abort by the time limit or by the
-- caller among it; the calls of the token getter are logged.
pub mod Requests
mod Tests
use csg_learning_platform.Prelude.{
  ℕ, Bool, true, false, not, ◌&&◌, ◌||◌, Option, none, some, List, [], ◌∷◌, ◌++◌, if◌then◌else◌,
  ◌==◌, nat_beq, leb,
}
use csg_learning_platform.Prelude.Text.{Text, txt, text_eq, is_empty, show}
use csg_learning_platform.Json.{Json}
use csg_learning_platform.MessageFormat.Editor.{join}
use csg_learning_platform.Session.{RequestError, api_error, other_error}

-- The body of a response that is not ok; without JSON all is absent.
pub record Payload : Type 0 where
  pub error : Option Text
  pub errors : Option (List Text)
  pub code : Option Text

pub data Answer : Type 0 where
  ok : (status : ℕ) (json : Option Json) → Answer
  -- `none` for the JSON value null, of which reading a property throws.
  not_ok : (status : ℕ) → Option Payload → Answer
  abort_error other_failure : Answer

-- What the call settles to: a value, `undefined`, a rejection with an error, or the rejections that are not
-- wrapped, of the caller's own abort and of a body that is no JSON.
pub data Settled : Type 0 where
  value : Json → Settled
  no_content aborted unreadable_body : Settled
  failed : RequestError → Settled

abbrev pub is_retryable : ℕ → Bool
is_retryable s = nat_beq s 429 || nat_beq s 500 || nat_beq s 502 || nat_beq s 503 || nat_beq s 504

abbrev pub or_text : Option Text → Text → Text
or_text none other = other
or_text (some []) other = other
or_text (some (c ∷ s)) other = c ∷ s

abbrev pub joined : Option (List Text) → Option Text
joined none = none
joined (some errors) = some (join (txt ", ") errors)

-- The ApiError of a response that is not ok.
unfoldable pub response_error : ℕ → Payload → RequestError
unfolding join show
response_error status payload =
    api_error
      (or_text payload.error
        (or_text (joined payload.errors) (txt "Request failed (" ++ (show status ++ txt ")"))))
      (some status) payload.code

-- What the two methods do differently.
pub record Method : Type 0 where
  -- Whether a status makes the first attempt be followed by another.
  pub retries : ℕ → Bool
  -- Whether the status 204 means a response without a body.
  pub empty_on_204 : Bool
  pub timeout_message : Text
  pub unreachable_message : Text

-- The call: what its attempts settle to, and whether the caller has aborted it by then.
pub record Call : Type 0 where
  pub answer : ℕ → Answer
  pub caller_aborted : ℕ → Bool

abbrev pub parsed : Option Json → Settled
parsed none = unreadable_body
parsed (some json) = value json

abbrev pub settle : Method → Bool → Answer → Settled
settle m by_caller (ok status json) =
    if m.empty_on_204 && nat_beq status 204 then no_content else parsed json
settle m by_caller (not_ok status none) = failed (api_error m.unreachable_message none none)
settle m by_caller (not_ok status (some payload)) = failed (response_error status payload)
settle m by_caller abort_error =
    if by_caller then aborted else failed (api_error m.timeout_message none none)
settle m by_caller other_failure = failed (api_error m.unreachable_message none none)

abbrev pub is_retried : Method → Answer → Bool
is_retried m (not_ok status payload) = m.retries status
is_retried m _ = false

-- The result, and for each request whether its token skipped the cache.
unfoldable pub send : Method → Call → Settled × List Bool
unfolding response_error
send m call =
    if is_retried m (call.answer 0)
    then (settle m (call.caller_aborted 1) (call.answer 1), false ∷ true ∷ [])
    else (settle m (call.caller_aborted 0) (call.answer 0), false ∷ [])

-- `!init.method || init.method === 'GET'`
abbrev pub is_get_request : Option Text → Bool
is_get_request none = true
is_get_request (some []) = true
is_get_request (some (c ∷ s)) = (c ∷ s) == txt "GET"

abbrev pub request_method : Option Text → Method
request_method method = record {
  retries = λ status. nat_beq status 401 || (is_get_request method && is_retryable status);
  empty_on_204 = true;
  timeout_message = txt "The request timed out. Check your connection and try again.";
  unreachable_message = txt "Could not reach Code School. Check your connection and try again.";
}

unfoldable pub request : Option Text → Call → Settled × List Bool
unfolding send
request method call = send (request_method method) call

abbrev pub transcription_method : Method
transcription_method = record {
  retries = λ status. nat_beq status 401;
  empty_on_204 = false;
  timeout_message = txt "Transcription timed out. Your recording is still available to retry.";
  unreachable_message =
      txt "Could not reach Code School. Your recording is still available to retry.";
}

unfoldable pub transcribe_voice : Call → Settled × List Bool
unfolding send
transcribe_voice call = send transcription_method call
