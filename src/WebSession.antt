-- ===== src/WebSession.antt =====
-- The web client's session: web/src/contexts/AuthContext.tsx with web/src/lib/sessionAccess.ts, over the
-- response cache of web/src/lib/api.ts. An effect or a synchronization runs to its end with what the API
-- call settled to. Product analytics are left out.
pub mod Cleared
mod Tests
use csg_learning_platform.Prelude.{
  ℕ, Bool, true, false, not, ◌&&◌, ◌||◌, Option, none, some, List, [], ◌∷◌, ◌++◌, if◌then◌else◌,
  ◌==◌, nat_beq,
}
use csg_learning_platform.Prelude.Text.{Text, txt, text_eq}
use csg_learning_platform.Json.{Json, null, bool, num, str, property, truthy}
use csg_learning_platform.WebApi.{ApiResponse, Platform}
use csg_learning_platform.WebApi.Cache.{Store, has_scope, clear_api_cache}

abbrev pub is_access_code : Option Text → Bool
is_access_code none = false
is_access_code (some code) = code == txt "account_not_authorized" || code == txt "account_archived"

abbrev pub has_status : ℕ → Option ℕ → Bool
has_status n none = false
has_status n (some m) = nat_beq m n

unfoldable pub is_access_denied_response : ApiResponse → Bool
is_access_denied_response response =
    has_status 403 response.status && is_access_code response.error_code

-- The provider's state, the two places that hold the cache's scope, and local storage.
pub record WebSession : Type 0 where
  pub user : Option Json
  pub is_loading : Bool
  pub session_error : Option Text
  pub access_denied : Bool
  pub cache_scope_ref : Option Text
  pub api_cache_scope : Option Text
  pub store : Store

-- `clerkUserId ? `clerk:${clerkUserId}` : null`
abbrev pub scope_of : Option Text → Option Text
scope_of none = none
scope_of (some []) = none
scope_of (some (c ∷ s)) = some (txt "clerk:" ++ (c ∷ s))

-- What `api.createSession()` settles to: a response, or a rejection with the message of an `Error`.
pub data SessionAnswer : Type 0 where
  response : ApiResponse → SessionAnswer
  thrown : Option Text → SessionAnswer

-- `res.data?.user`, if it is truthy.
abbrev pub user_of : Option Json → Option Json
user_of user = if truthy user then user else none

abbrev pub user_in : Option Json → Option Json
user_in none = none
user_in (some content) = user_of (property (txt "user") content)

abbrev pub text_or : Option Text → Text → Text
text_or none other = other
text_or (some []) other = other
text_or (some (c ∷ s)) other = c ∷ s

abbrev pub given_or : Option Text → Text → Text
given_or none other = other
given_or (some s) other = s

module _ (p : Platform) where
  -- `if (… && cacheScopeRef.current) clearApiCache(cacheScopeRef.current)`
  abbrev pub clear_scope : Bool → WebSession → Store
  clear_scope b w =
      if b && has_scope w.cache_scope_ref
      then clear_api_cache p w.cache_scope_ref w.store
      else w.store

  -- The effect on a change of the signed-in user's id.
  unfoldable pub change_scope : Option Text → WebSession → WebSession
  change_scope clerk_user_id w =
      let scope = scope_of clerk_user_id in
      record w {
        store = clear_scope (not (has_scope scope)) w;
        cache_scope_ref = scope;
        api_cache_scope = scope;
      }

  abbrev pub on_user : ApiResponse → Option Json → WebSession → Bool × WebSession
  on_user res (some user) w = (true, record w { user = some user })
  on_user res none w = (
    false,
    record w {
      user = none;
      access_denied = is_access_denied_response res;
      store = clear_scope (is_access_denied_response res) w;
      session_error = some (
          text_or res.error
            (txt "Could not connect to your CSG account. Check your connection and try again."));
    },
  )

  abbrev pub on_session_answer : SessionAnswer → WebSession → Bool × WebSession
  on_session_answer (response res) w = on_user res (user_in res.content) w
  on_session_answer (thrown message) w = (
    false,
    record w {
      user = none;
      access_denied = false;
      session_error = some (given_or message (txt "Could not connect to your CSG account."));
    },
  )

  unfoldable pub sync_session : Bool → SessionAnswer → WebSession → Bool × WebSession
  unfolding is_access_denied_response
  sync_session signed_in answer w =
      if signed_in
      then on_session_answer answer (record w { session_error = none; access_denied = false })
      else (false, w)

  -- The effect when Clerk has loaded.
  unfoldable pub load_session : Bool → SessionAnswer → WebSession → WebSession
  unfolding sync_session
  load_session signed_in answer w =
      if signed_in
      then record ((sync_session signed_in answer w).1) { is_loading = false }
      else record w { user = none; session_error = none; access_denied = false; is_loading = false }
