-- ===== src/WebApi/Cache.antt =====
-- The response cache of web/src/lib/api.ts, in the browser's local storage.
use csg_learning_platform.Prelude.{
  ℕ, Bool, true, false, not, ◌||◌, ◌&&◌, Option, none, some, List, ◌++◌, if◌then◌else◌, ◌==◌,
}
use csg_learning_platform.Prelude.Int.{pos, ◌-ℤ◌, ltb_ℤ}
use csg_learning_platform.Prelude.Text.{Text, txt, starts_with, text_eq, is_empty}
use csg_learning_platform.Prelude.Assoc.{get_item, set_item, remove_if}
use csg_learning_platform.Json.{
  Json, num, obj, end, field, property, truthy, is_array, is_boolean, is_object,
}
use csg_learning_platform.WebApi.{Milliseconds, ms, nan, ApiResponse, Platform}

abbrev pub Store : Type 0
Store = List (Text × Text)

abbrev pub cache_prefix : Text
cache_prefix = txt "csg-api-cache:"

-- 1000 * 60 * 60 * 24 * 7
abbrev pub cache_max_age_ms : ℕ
cache_max_age_ms = 604800000

-- `${CACHE_PREFIX}${scope}:`, with `null` for no scope.
abbrev pub scope_prefix : Option Text → Text
scope_prefix none = cache_prefix ++ (txt "null" ++ txt ":")
scope_prefix (some scope) = cache_prefix ++ (scope ++ txt ":")

unfoldable pub cache_key : Option Text → Text → Text
cache_key scope endpoint = scope_prefix scope ++ endpoint

-- `Boolean(scope)`: neither null nor empty.
abbrev pub has_scope : Option Text → Bool
has_scope none = false
has_scope (some s) = not (is_empty s)

abbrev pub dashboard_enrolled : Option Json → Bool
dashboard_enrolled none = false
dashboard_enrolled (some dashboard) = is_boolean (property (txt "enrolled") dashboard)

unfoldable pub should_cache_response : Text → Json → Bool
should_cache_response endpoint value =
    if not (is_object value)
    then false
    else if starts_with endpoint (txt "/api/v1/help_requests")
        || endpoint == txt "/api/v1/support_queue"
    then false
    else if endpoint == txt "/api/v1/dashboard"
    then dashboard_enrolled (property (txt "dashboard") value)
    else if endpoint == txt "/api/v1/resources"
    then is_array (property (txt "resources") value)
    else if endpoint == txt "/api/v1/recordings"
    then is_array (property (txt "recordings") value)
      || is_array (property (txt "s3_recordings") value)
    else true

-- `should_cache_response` of a value that may be `undefined`.
abbrev pub should_cache : Text → Option Json → Bool
should_cache endpoint none = false
should_cache endpoint (some value) = should_cache_response endpoint value

-- `{ data, savedAt }`
abbrev pub entry : Json → ℕ → Json
entry value saved_at = obj (field (txt "data") value (field (txt "savedAt") (num saved_at) end))

-- `Date.now() - parsed.savedAt`, which is NaN where `savedAt` is no number.
abbrev pub age_at : ℕ → Milliseconds → Milliseconds
age_at now nan = nan
age_at now (ms saved_at) = ms (pos now -ℤ saved_at)

abbrev pub is_too_old : Milliseconds → Bool
is_too_old nan = false
is_too_old (ms age) = ltb_ℤ (pos cache_max_age_ms) age

abbrev pub fresh_response : Option Json → Milliseconds → ApiResponse
fresh_response value age = record {
  content = value;
  error = none;
  status = none;
  error_kind = none;
  error_code = none;
  from_cache = true;
  cache_age_ms = some age;
}

module _ (p : Platform) where
  unfoldable pub write_cached_response : Option Text → Text → Json → Store → Store
  write_cached_response scope endpoint value store =
      if has_scope scope && p.local_storage
      then set_item (cache_key scope endpoint) (p.stringify (entry value p.now)) store
      else store

  -- The checks on a parsed entry, from its `data` and its `savedAt`.
  unfoldable pub use_entry : Text → Option Json → Option Json → Option ApiResponse
  use_entry endpoint value none = none
  use_entry endpoint value (some saved_at) =
      if not (truthy (some saved_at)) || is_too_old (age_at p.now (p.to_number saved_at))
      then none
      else if should_cache endpoint value
      then some (fresh_response value (age_at p.now (p.to_number saved_at)))
      else none

  -- `JSON.parse(raw)`; reading a property of `null` throws, and gives null as well.
  unfoldable pub read_entry : Text → Option Json → Option ApiResponse
  unfolding use_entry
  read_entry endpoint none = none
  read_entry endpoint (some parsed) =
      use_entry endpoint (property (txt "data") parsed) (property (txt "savedAt") parsed)

  unfoldable pub read_raw : Text → Option Text → Option ApiResponse
  unfolding read_entry
  read_raw endpoint none = none
  read_raw endpoint (some raw) = if is_empty raw then none else read_entry endpoint (p.parse raw)

  unfoldable pub read_cached_response : Option Text → Text → Store → Option ApiResponse
  unfolding read_raw
  read_cached_response scope endpoint store =
      if has_scope scope && p.local_storage
      then read_raw endpoint (get_item (cache_key scope endpoint) store)
      else none

  -- Removes the entries of a scope, and those that were written with no scope.
  unfoldable pub clear_api_cache : Option Text → Store → Store
  clear_api_cache scope store =
      if has_scope scope && p.local_storage
      then remove_if
          (λ key. starts_with key (scope_prefix scope) || starts_with key (scope_prefix none)) store
      else store
