-- ===== src/WebSession/Tests.antt =====
-- A run of web/src/contexts/AuthContext.tsx.
use csg_learning_platform.Prelude.{true, false, none, some, [], ◌∷◌, ◌≡◌, refl, Option}
use csg_learning_platform.Prelude.Text.{Text, txt}
use csg_learning_platform.Json.{obj, end}
use csg_learning_platform.WebApi.{nan, ApiResponse, Platform}
use csg_learning_platform.WebApi.Cache.{read_cached_response, cache_key}
use csg_learning_platform.WebSession.{
  WebSession, response, change_scope, load_session, is_access_denied_response,
}
use csg_learning_platform.WebSession.Cleared.{cleared_session}

abbrev browser : Platform
browser = record {
  parse = λ s. some (obj end);
  parse_message = λ s. txt "Unexpected token";
  stringify = λ v. txt "#";
  display = λ v. txt "#";
  to_number = λ v. nan;
  now = 1000;
  online = true;
  local_storage = true;
}

abbrev scope : Option Text
scope = some (txt "clerk:user_1")

abbrev session : WebSession
session = record {
  user = some (obj end);
  is_loading = false;
  session_error = none;
  access_denied = false;
  cache_scope_ref = scope;
  api_cache_scope = scope;
  store = (cache_key scope (txt "/api/v1/modules"), txt "#") ∷ [];
}

abbrev denied : ApiResponse
denied = record {
  content = none;
  error = some (txt "Forbidden");
  status = some 403;
  error_kind = none;
  error_code = some (txt "account_archived");
  from_cache = false;
  cache_age_ms = none;
}

is_denied : is_access_denied_response denied ≡ true
unfolding is_access_denied_response
is_denied = refl

cleared_session_example :
    (read_cached_response browser scope
        (txt "/api/v1/modules")
        (change_scope browser none session).store
      ≡ none)
    × ((read_cached_response browser scope
            (txt "/api/v1/modules")
            (load_session browser true (response denied) session).store
          ≡ none)
        × (((load_session browser true (response denied) session).user ≡ none)
            × ((load_session browser true (response denied) session).access_denied ≡ true)))
cleared_session_example =
    cleared_session browser session denied (txt "/api/v1/modules") refl refl is_denied refl
