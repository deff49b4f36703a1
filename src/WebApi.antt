-- ===== src/WebApi.antt =====
-- The web client's requests: web/src/lib/api.ts, with its cache in WebApi/Cache.antt.
pub mod Cache
pub mod CacheLaws
pub mod Fetch
pub mod Requests
pub mod Fallback
pub mod Outage
mod Tests
use csg_learning_platform.Prelude.{
  ℕ, Bool, true, false, Option, none, some, List, ◌||◌, ◌≡◌, leb, nat_beq, if◌then◌else◌, ◌&&◌,
}
use csg_learning_platform.Prelude.Text.{Text, txt, show}
use csg_learning_platform.Prelude.Int.{ℤ}
use csg_learning_platform.Json.{Json}

pub data ApiErrorKind : Type 0 where
  auth forbidden not_found server network timeout unknown : ApiErrorKind

-- A number of JavaScript, as far as times need it.
pub data Milliseconds : Type 0 where
  ms : ℤ → Milliseconds
  nan : Milliseconds

-- `ApiResponse<T>`. An absent property is `none`.
pub record ApiResponse : Type 0 where
  pub content : Option Json
  pub error : Option Text
  pub status : Option ℕ
  pub error_kind : Option ApiErrorKind
  pub error_code : Option Text
  pub from_cache : Bool
  pub cache_age_ms : Option Milliseconds

-- What a rejected promise carries: an `AbortError`, or another value with the message of an `Error`.
pub data Failure : Type 0 where
  abort_error : Failure
  other_error : Option Text → Failure

-- `response.text()`.
pub data Body : Type 0 where
  text : Text → Body
  unreadable : Failure → Body

-- `json` is what `response.json()` gives, `none` if it rejects.
pub record Response : Type 0 where
  pub status : ℕ
  pub json : Option Json
  pub body : Body

-- What `fetchWithTimeout` settles to.
pub data Outcome : Type 0 where
  responded : Response → Outcome
  rejected : Failure → Outcome

-- `response.ok`
abbrev pub is_ok : ℕ → Bool
is_ok status = leb 200 status && leb status 299

-- `RETRYABLE_STATUSES` and `CACHE_FALLBACK_STATUSES`.
abbrev pub is_retryable : ℕ → Bool
is_retryable s = nat_beq s 429 || nat_beq s 500 || nat_beq s 502 || nat_beq s 503 || nat_beq s 504

abbrev pub is_cache_fallback : ℕ → Bool
is_cache_fallback s = nat_beq s 408 || is_retryable s

unfoldable pub error_kind_for_status : ℕ → ApiErrorKind
error_kind_for_status status =
    if nat_beq status 401
    then auth
    else if nat_beq status 403
    then forbidden
    else if nat_beq status 404
    then not_found
    else if leb 500 status
    then server
    else unknown

-- The platform: JSON, the text of a value (`String(value)`), its number (`Number(value)`), the clock (its readings within one call
-- are taken as one), and whether the browser is online. `local_storage` says whether storage works.
pub record Platform : Type 0 where
  pub parse : Text → Option Json
  pub parse_message : Text → Text
  pub stringify : Json → Text
  pub display : Json → Text
  pub to_number : Json → Milliseconds
  pub now : ℕ
  pub online : Bool
  pub local_storage : Bool
