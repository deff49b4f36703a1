-- ===== src/WebApi/Fetch.antt =====
-- `fetchApi` of web/src/lib/api.ts: its attempts, one after the other, as a loop over what each
-- request settles to. Waiting between attempts is left out: it changes no result.
use csg_learning_platform.Prelude.{
  ℕ, zero, suc, ◌+◌, Bool, true, false, not, ◌&&◌, Option, none, some, List, [], ◌∷◌, ◌++◌,
  if◌then◌else◌, ltb, nat_beq,
}
use csg_learning_platform.Prelude.Text.{Text, txt, show, is_empty}
use csg_learning_platform.Json.{Json, Items, nil, cons, str, arr, property}
use csg_learning_platform.WebApi.{
  ApiResponse, ApiErrorKind, network, timeout, Failure, abort_error, other_error, Body, text,
  unreadable, Response, Outcome, responded, rejected, is_ok, is_retryable, is_cache_fallback,
  error_kind_for_status, Platform,
}
use csg_learning_platform.WebApi.Cache.{
  Store, has_scope, should_cache_response, write_cached_response, read_cached_response,
}

-- `options.method`, GET if it is left out, in upper case.
pub data Method : Type 0 where
  get head post put patch delete : Method

abbrev pub is_get : Method → Bool
is_get get = true
is_get _ = false

-- `canRetry`
abbrev pub can_retry : Method → Bool
can_retry get = true
can_retry head = true
can_retry _ = false

abbrev pub max_attempts : Method → ℕ
max_attempts m = if can_retry m then 3 else 2

-- What `getAuthToken` settles to; the rejection of it leaves `fetchApi` too.
pub data TokenResult : Type 0 where
  token : Option Text → TokenResult
  token_rejected : TokenResult

-- One request as it is sent: the bearer token, and whether a fresh token was asked for.
pub record Sent : Type 0 where
  pub bearer : Option Text
  pub forced : Bool

pub record Request : Type 0 where
  pub method : Method
  pub endpoint : Text
  pub require_auth : Bool
  pub cache_scope : Option Text

-- The outside world: the token getter, if one is set, and what the n-th request settles to.
pub record Network : Type 0 where
  pub get_auth_token : Option (Bool → TokenResult)
  pub fetch : ℕ → Sent → Outcome

pub data Settled : Type 0 where
  resolved : ApiResponse → Settled
  -- The call itself rejects: the token getter did.
  threw : Settled
  -- The statement behind the loop.
  fell_through : Settled

-- A response, or the next attempt with `shouldForceTokenRefresh` and `didRetryUnauthorized`.
pub data Step : Type 0 where
  done : ApiResponse → Store → Step
  retry : Bool → Bool → Step

abbrev join_items : (Json → Text) → Items → Text
join_items display nil = []
join_items display (cons v nil) = display v
join_items display (cons v vs) = display v ++ (txt ", " ++ join_items display vs)

abbrev errors_message : (Json → Text) → Option Json → Text → Text
errors_message display (some (arr vs)) fallback = join_items display vs
errors_message display _ fallback = fallback

abbrev string_or : Option Json → Text → Text
string_or (some (str s)) fallback = s
string_or _ fallback = fallback

-- `body.error`, or `body.errors` joined, or the status.
unfoldable pub error_message : Platform → Option Json → ℕ → Text
error_message p none status = txt "Request failed with status " ++ show status
error_message p (some body) status = string_or (property (txt "error") body) (
    errors_message p.display (property (txt "errors") body)
      (txt "Request failed with status " ++ show status))

abbrev string_of : Option Json → Option Text
string_of (some (str s)) = some s
string_of _ = none

unfoldable pub api_error_code : Option Json → Option Text
api_error_code none = none
api_error_code (some body) = string_of (property (txt "code") body)

abbrev message_or : Option Text → Text → Text
message_or none fallback = fallback
message_or (some m) fallback = m

unfoldable pub network_error_message : Platform → Option Text → Text
network_error_message p message =
    if not p.online
    then txt "You appear to be offline. Showing saved data when available."
    else message_or message (txt "Network error")

abbrev pub failure_kind : Failure → ApiErrorKind
failure_kind abort_error = timeout
failure_kind (other_error m) = network

abbrev pub failure_message : Platform → Failure → Text
failure_message p abort_error = txt "Request timed out. Check your connection and try again."
failure_message p (other_error m) = network_error_message p m

abbrev pub plain : Option Json → ApiResponse
plain value = record {
  content = value;
  error = none;
  status = none;
  error_kind = none;
  error_code = none;
  from_cache = false;
  cache_age_ms = none;
}

abbrev or_response : Option ApiResponse → ApiResponse → ApiResponse
or_response none r = r
or_response (some r) _ = r

abbrev pub Run : Type 0
Run = Settled × Store × List (Sent × Outcome)

abbrev pub logged : Sent → Outcome → Run → Run
logged sent outcome (result, store, log) = (result, store, (sent, outcome) ∷ log)

-- What follows the outcome of a request, with the next attempt as a function.
unfoldable pub after : Sent → Outcome → Step → (Bool → Bool → Run) → Run
after sent outcome (done r store) next = (resolved r, store, (sent, outcome) ∷ [])
after sent outcome (retry force did_retry) next = logged sent outcome (next force did_retry)

-- One attempt: the token, the request and what follows.
unfoldable pub launch :
    Option Sent → (Sent → Outcome) → (Outcome → Step) → Store → (Bool → Bool → Run) → Run
unfolding after
launch none send judge store next = (threw, store, [])
launch (some sent) send judge store next = after sent (send sent) (judge (send sent)) next

abbrev pub unauthenticated : Sent
unauthenticated = record { bearer = none; forced = false }

-- `if (token)`: an empty token is not sent.
abbrev pub from_token : Bool → Option Text → Sent
from_token force none = record { bearer = none; forced = force }
from_token force (some t) = record { bearer = if is_empty t then none else some t; forced = force }

abbrev pub from_result : Bool → TokenResult → Option Sent
from_result force token_rejected = none
from_result force (token t) = some (from_token force t)

abbrev pub from_getter : Bool → Option (Bool → TokenResult) → Option Sent
from_getter force none = some unauthenticated
from_getter force (some getter) = from_result force (getter force)

module _ (p : Platform) (req : Request) where
  abbrev pub can_use_cache : Bool
  can_use_cache = req.require_auth && is_get req.method && has_scope req.cache_scope

  abbrev pub cached : Store → Option ApiResponse
  cached store = read_cached_response p req.cache_scope req.endpoint store

  abbrev pub with_error : ApiResponse → Response → ApiResponse
  with_error r response = record r {
    error = some (error_message p response.json response.status);
    error_code = api_error_code response.json;
    status = some response.status;
    error_kind = some (error_kind_for_status response.status);
  }

  -- `{ ...cached, error, … }`, and the error alone where nothing is cached.
  abbrev pub error_response : Option ApiResponse → Response → ApiResponse
  error_response none response = with_error (plain none) response
  error_response (some r) response = with_error r response

  -- `if (!response.ok) { … }`
  unfoldable pub on_error : ℕ → Bool → Store → Response → Step
  on_error attempt did_retry store response =
      if (nat_beq response.status 401 && not did_retry) && ltb attempt (max_attempts req.method)
      then retry true true
      else if (can_retry req.method && is_retryable response.status)
          && ltb attempt (max_attempts req.method)
      then retry false did_retry
      else if can_use_cache && is_cache_fallback response.status
      then done (error_response (cached store) response) store
      else done (error_response none response) store

  abbrev pub failed_response : Failure → ApiResponse → ApiResponse
  failed_response f r = record r {
    error = some (failure_message p f);
    error_kind = some (failure_kind f);
  }

  abbrev pub failure_response : Failure → Option ApiResponse → ApiResponse
  failure_response f none = failed_response f (plain none)
  failure_response f (some r) = failed_response f r

  -- `catch (err) { … }`
  unfoldable pub on_failure : ℕ → Bool → Store → Failure → Step
  on_failure attempt did_retry store failure =
      if can_retry req.method && ltb attempt (max_attempts req.method)
      then retry false did_retry
      else if can_use_cache
      then done (failure_response failure (cached store)) store
      else done (failure_response failure none) store

  abbrev pub stored : Json → Store → Store
  stored value store =
      if can_use_cache && should_cache_response req.endpoint value
      then write_cached_response p req.cache_scope req.endpoint value store
      else store

  abbrev pub with_status : ℕ → ApiResponse → ApiResponse
  with_status status r = record r { status = some status }

  abbrev pub parsed_step : ℕ → Bool → Store → ℕ → Text → Option Json → Step
  parsed_step attempt did_retry store status body none =
      on_failure attempt did_retry store (other_error (some (p.parse_message body)))
  parsed_step attempt did_retry store status body (some value) =
      done (with_status status (plain (some value))) (stored value store)

  -- The body of a successful response.
  abbrev pub body_step : ℕ → Bool → Store → ℕ → Body → Step
  body_step attempt did_retry store status (unreadable f) = on_failure attempt did_retry store f
  body_step attempt did_retry store status (text body) =
      if is_empty body
      then done (with_status status (plain none)) store
      else parsed_step attempt did_retry store status body (p.parse body)

  -- One run of the loop's body, from what the request settled to.
  unfoldable pub settle : ℕ → Bool → Store → Outcome → Step
  settle attempt did_retry store (rejected failure) = on_failure attempt did_retry store failure
  settle attempt did_retry store (responded response) =
      if not (is_ok response.status)
      then on_error attempt did_retry store response
      else if nat_beq response.status 204
      then done (with_status response.status (plain none)) store
      else body_step attempt did_retry store response.status response.body

  module _ (net : Network) where
    -- The request of an attempt, `none` if the token getter rejects.
    abbrev pub prepare : Bool → Option Sent
    prepare force =
        if req.require_auth then from_getter force net.get_auth_token else some unauthenticated

    -- The loop, with the attempts that are left: `attempt` counts from 1.
    unfoldable pub attempts : (left attempt : ℕ) (force did_retry : Bool) → Store → Run
    unfolding launch
    attempts zero attempt force did_retry store = (fell_through, store, [])
    attempts (suc left) attempt force did_retry store =
        launch (prepare force) (net.fetch attempt) (settle attempt did_retry store) store
          (λ force' did_retry'. attempts left (attempt + 1) force' did_retry' store)

    unfoldable pub fetch_api : Store → Run
    unfolding attempts settle on_error on_failure
    fetch_api store = attempts (max_attempts req.method) 1 false false store
