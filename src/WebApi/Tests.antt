-- ===== src/WebApi/Tests.antt =====
-- Runs of `fetchApi` (web/src/lib/api.ts) against small networks.
use csg_learning_platform.Prelude.{
  Bool, true, Option, some, none, [], ◌∷◌, ◌≡◌, ◌≢◌, refl, arith, length,
}
use csg_learning_platform.Prelude.Text.{Text, txt, text_eq}
use csg_learning_platform.Prelude.Assoc.{get_item}
use csg_learning_platform.Json.{Json, num, obj, end, field}
use csg_learning_platform.Prelude.Int.{pos, ◌-ℤ◌}
use csg_learning_platform.WebApi.{
  Milliseconds, ms, nan, ApiResponse, abort_error, timeout, text, Response, responded, rejected,
  Platform,
}
use csg_learning_platform.WebApi.Cache.{
  Store, cache_key, entry, fresh_response, write_cached_response, read_cached_response,
  should_cache_response,
}
use csg_learning_platform.WebApi.CacheLaws.{at_time, read-write}
use csg_learning_platform.WebApi.Fetch.{
  get, post, Request, Network, TokenResult, token, fell_through, fetch_api,
}
use csg_learning_platform.WebApi.Requests.{OnlyAfter401, fetch_api_settles, fetch_api-OnlyAfter401}
use csg_learning_platform.WebApi.Outage.{ServedFromCache, fetch_api_outage}

-- A platform that stores one kind of entry: an empty object, and its time.
abbrev write : Json → Text
write (obj (field _ (obj end) (field _ (num n) end))) = b'#' ∷ n ∷ []
write _ = txt "?"

abbrev read : Text → Option Json
read (_ ∷ n ∷ []) = some (entry (obj end) n)
read _ = none

abbrev to_ms : Json → Milliseconds
to_ms (num n) = ms (pos n)
to_ms _ = nan

abbrev browser : Platform
browser = record {
  parse = read;
  parse_message = λ s. txt "Unexpected token";
  stringify = write;
  display = write;
  to_number = to_ms;
  now = 1000;
  online = true;
  local_storage = true;
}

abbrev ana : Option Text
ana = some (txt "user_1")

abbrev modules : Text
modules = txt "/api/v1/modules"

abbrev filled : Store
filled = (cache_key ana modules, b'#' ∷ 400 ∷ []) ∷ []

abbrev reading : Request
reading = record { method = get; endpoint = modules; require_auth = true; cache_scope = ana }

abbrev posting : Request
posting = record { method = post; endpoint = modules; require_auth = true; cache_scope = none }

abbrev six_hundred : Milliseconds
six_hundred = ms (pos 600)

abbrev signed_in : Bool → TokenResult
signed_in fresh = token (some (txt "token"))

abbrev offline : Network
offline = record { get_auth_token = some signed_in; fetch = λ n sent. rejected abort_error }

abbrev unauthorized : Response
unauthorized = record { status = 401; json = none; body = text [] }

abbrev expired : Network
expired = record { get_auth_token = some signed_in; fetch = λ n sent. responded unauthorized }

read-write_example :
    read_cached_response
      (at_time browser 1500)
      ana
      modules
      (write_cached_response browser ana modules (obj end) [])
    ≡ some (fresh_response (some (obj end)) (ms (pos 1500 -ℤ pos 1000)))
unfolding should_cache_response
read-write_example =
    read-write browser ana modules (obj end) [] 1500 refl refl refl (omega arith) refl refl refl

differ : cache_key (some (txt "user_2")) modules ≢ cache_key ana modules
unfolding cache_key
differ e = ground arith

found :
    read_cached_response browser ana modules filled
    ≡ some (fresh_response (some (obj end)) six_hundred)
unfolding read_cached_response get_item cache_key should_cache_response ◌-ℤ◌
found = refl

fetch_api_settles_example : (fetch_api browser reading offline filled).0 ≢ fell_through
fetch_api_settles_example = fetch_api_settles browser reading offline filled

fetch_api-OnlyAfter401_example : OnlyAfter401 (fetch_api browser posting expired []).2
fetch_api-OnlyAfter401_example = fetch_api-OnlyAfter401 browser posting expired [] refl

-- The second request is answered 401 too, and there is no third.
fetch_api_test : length (fetch_api browser posting expired []).2 ≡ 2
unfolding fetch_api
fetch_api_test = refl

fetch_api_outage_example :
    ServedFromCache browser reading filled
      (fresh_response (some (obj end)) six_hundred)
      3
      (fetch_api browser reading offline filled)
fetch_api_outage_example =
    fetch_api_outage browser reading offline filled (fresh_response (some (obj end)) six_hundred)
      refl refl found (λ force. (record { bearer = some (txt "token"); forced = force }, refl))
      (λ n sent. refl)

abbrev stale_response : ApiResponse
stale_response = record {
  content = some (obj end);
  error = some (txt "Request timed out. Check your connection and try again.");
  status = none;
  error_kind = some timeout;
  error_code = none;
  from_cache = true;
  cache_age_ms = some six_hundred;
}
