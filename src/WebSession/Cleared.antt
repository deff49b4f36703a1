-- ===== src/WebSession/Cleared.antt =====
-- What the browser keeps of an account behind web/src/contexts/AuthContext.tsx.
use csg_learning_platform.Prelude.{true, none, ◌≡◌, refl}
use csg_learning_platform.Prelude.Text.{Text}
use csg_learning_platform.WebApi.{ApiResponse, Platform}
use csg_learning_platform.WebApi.Cache.{has_scope, read_cached_response}
use csg_learning_platform.WebApi.CacheLaws.{clear_api_cache_correct}
use csg_learning_platform.WebSession.{
  WebSession, response, is_access_denied_response, user_in, change_scope, load_session,
}

-- When the user is gone, and when the server denies access, no response is read any more from the
-- cache of the scope that was in use. In the second case no user is left and the denial is known,
-- whatever the session held. Local storage works.
pub cleared_session :
    (p : Platform) (w : WebSession) (res : ApiResponse) (endpoint : Text)
    → p.local_storage ≡ true
    → has_scope w.cache_scope_ref ≡ true
    → is_access_denied_response res ≡ true
    → user_in res.content ≡ none
    → (read_cached_response p w.cache_scope_ref endpoint (change_scope p none w).store ≡ none)
      × ((read_cached_response p w.cache_scope_ref endpoint
              (load_session p true (response res) w).store
            ≡ none)
          × (((load_session p true (response res) w).user ≡ none)
              × ((load_session p true (response res) w).access_denied ≡ true)))
unfolding change_scope load_session
cleared_session p w res endpoint works scoped denied gone =
    let cleared = (clear_api_cache_correct p w.cache_scope_ref w.store scoped works).0 endpoint in
    (rw scoped cleared, rw gone (rw denied (rw scoped (cleared, (refl, refl)))))
