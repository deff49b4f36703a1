-- ===== src/Session.antt =====
-- The mobile app's session: mobile/src/providers/session-provider.tsx with
-- mobile/src/lib/session-access.ts. The state is the provider's and the device's; an operation runs
-- to its end with what the server answered, and the two references are set when it has rendered.
-- A value of JSON stands for a user, `null` for no user, and what is no number is read as no id.
pub mod Laws
mod Tests
use csg_learning_platform.Prelude.{
  ℕ, zero, suc, ◌+◌, Bool, true, false, not, ◌&&◌, ◌||◌, Option, none, some, List, [], ◌∷◌, ◌++◌,
  if◌then◌else◌, ◌==◌, leb, nat_beq, ◌⊎◌, inl, inr,
}
use csg_learning_platform.Prelude.Text.{Text, txt, text_eq, is_empty, show}
use csg_learning_platform.Json.{Json, null, num, property}
use csg_learning_platform.Storage.{KeyValueStore}
use csg_learning_platform.Storage.Conversations.{clear_user_conversation_storage}
use csg_learning_platform.Storage.Submissions.{clear_user_submission_drafts}
use csg_learning_platform.Storage.Cache.{clear_learning_cache}

-- An ApiError, or another error, which has no status.
pub data RequestError : Type 0 where
  api_error : (message : Text) (status : Option ℕ) (code : Option Text) → RequestError
  other_error : (message : Text) → RequestError

abbrev pub message_of : RequestError → Text
message_of (api_error message status code) = message
message_of (other_error message) = message

abbrev pub is_status : ℕ → Option ℕ → Bool
is_status n none = false
is_status n (some m) = nat_beq m n

abbrev pub is_denied_code : Option Text → Bool
is_denied_code none = false
is_denied_code (some code) = code == txt "account_not_authorized" || code == txt "account_archived"

unfoldable pub is_session_access_denied : RequestError → Bool
is_session_access_denied (api_error message status code) =
    is_status 403 status && is_denied_code code
is_session_access_denied (other_error message) = false

unfoldable pub can_use_cached_session : RequestError → Bool
can_use_cached_session (other_error message) = false
can_use_cached_session (api_error message none code) = true
can_use_cached_session (api_error message (some status) code) =
    nat_beq status 408 || nat_beq status 429 || leb 500 status

pub record Auth : Type 0 where
  pub signed_in : Bool
  pub demo : Bool
  pub subject : Option Text

-- `auth.subject ? `csg.session.user.${auth.subject}` : null`
abbrev pub subject_key : Option Text → Option Text
subject_key none = none
subject_key (some []) = none
subject_key (some (c ∷ s)) = some (txt "csg.session.user." ++ (c ∷ s))

-- `value || other` of ids, where 0 is not kept.
abbrev pub or_id : Option ℕ → Option ℕ → Option ℕ
or_id (some (suc n)) other = some (suc n)
or_id _ other = other

abbrev pub number_of : Option Json → Option ℕ
number_of (some (num n)) = some n
number_of _ = none

abbrev pub id_of : Json → Option ℕ
id_of user = number_of (property (txt "id") user)

-- `(JSON.parse(cached) as SessionUser).id`, and null where it throws.
abbrev pub parsed_id : Option Json → Option ℕ
parsed_id none = none
parsed_id (some user) = id_of user

module _ (parse : Text → Option Json) where
  abbrev pub cached_id : Option Text → Option ℕ
  cached_id none = none
  cached_id (some text) = parsed_id (parse text)

-- A text that is truthy.
abbrev pub some_text : Option Text → Option Text
some_text none = none
some_text (some []) = none
some_text (some (c ∷ s)) = some (c ∷ s)

-- The provider's state, the device's stores, and the calls of other services that were made.
pub record World (S L : Type 0) : Type 0 where
  pub user : Json
  pub loading : Bool
  pub error : Option Text
  pub access_denied : Bool
  pub user_id_ref : Option ℕ
  pub last_user_id_ref : Option ℕ
  pub storage : S
  pub cache : L
  pub registrations : ℕ
  pub unregistered : List Text
  pub sign_outs : ℕ

abbrev pub push_token_key : Text
push_token_key = txt "csg.push.token"

abbrev pub key_list : Option Text → List Text
key_list none = []
key_list (some k) = k ∷ []

abbrev pub user_keys : Option ℕ → List Text
user_keys (some (suc n)) =
    (txt "csg.inbox." ++ show (suc n))
    ∷ (txt "csg.workspaces." ++ show (suc n))
    ∷ (txt "csg.workspace.active." ++ show (suc n))
    ∷ []
user_keys _ = []

abbrev pub account_keys : Auth → Option ℕ → List Text
account_keys auth user = push_token_key ∷ (key_list (subject_key auth.subject) ++ user_keys user)

module _ {S L : Type 0} where
  -- The effect behind a render.
  unfoldable pub sync_refs : World S L → World S L
  sync_refs w = record w {
    user_id_ref = id_of w.user;
    last_user_id_ref = or_id (id_of w.user) w.last_user_id_ref;
  }

module _ {S : Type 0} ⦃d : KeyValueStore S⦄ where
  abbrev pub clear_storage : Option ℕ → S → S
  clear_storage (some (suc n)) s =
      clear_user_submission_drafts (suc n) (clear_user_conversation_storage (suc n) s)
  clear_storage _ s = s

  -- `AsyncStorage.getItem(userCacheKey)` if there is a key, and null for the empty text.
  abbrev pub cached_text : Option Text → S → Option Text
  cached_text none s = none
  cached_text (some k) s = some_text (d.get k s)

  abbrev pub clear_cache : Option ℕ → S → S
  clear_cache (some (suc n)) l = clear_learning_cache (suc n) l
  clear_cache _ l = l

  abbrev pub store_user : Option Text → Text → S → S
  store_user none text s = s
  store_user (some k) text s = d.set k text s

  abbrev pub remove_user : Option Text → S → S
  remove_user none s = s
  remove_user (some k) s = d.remove k s

module _ {S L : Type 0} ⦃d : KeyValueStore S⦄ ⦃t : KeyValueStore L⦄ where
  -- The three clean-ups of a user, if there is one, and `AsyncStorage.multiRemove(keys)`.
  unfoldable pub forget : Auth → Option ℕ → World S L → World S L
  forget auth user w = record w {
    storage = d.multi_remove (account_keys auth user) (clear_storage user w.storage);
    cache = clear_cache user w.cache;
  }

  module _ (parse : Text → Option Json) where
    -- Whose data is removed when access is denied, and when the user signs out.
    unfoldable pub denied_user_id : Auth → World S L → Option ℕ
    denied_user_id auth w =
        or_id (cached_id parse (cached_text (subject_key auth.subject) w.storage))
          (or_id w.user_id_ref w.last_user_id_ref)

    unfoldable pub cleanup_user_id : Auth → World S L → Option ℕ
    cleanup_user_id auth w =
        or_id (or_id (id_of w.user) w.last_user_id_ref)
          (cached_id parse (cached_text (subject_key auth.subject) w.storage))

    abbrev pub restore_user : Auth → Option Json → World S L → World S L
    restore_user auth none w = record w {
      storage = remove_user (subject_key auth.subject) w.storage;
      user = null;
    }
    restore_user auth (some user) w = record w { user = user }

    -- The branches of the `catch` block that do not deny access.
    abbrev pub keep_session : Auth → Option Text → Bool → World S L → World S L
    keep_session auth (some text) true w = restore_user auth (parse text) w
    keep_session auth _ _ w = record w { user = null }

    abbrev pub deny_access : Auth → World S L → World S L
    deny_access auth w = record (forget auth (denied_user_id auth w) w) {
      user = null;
      access_denied = true;
    }

    unfoldable pub on_request_error : Auth → RequestError → World S L → World S L
    unfolding forget denied_user_id is_session_access_denied can_use_cached_session
    on_request_error auth e w =
        let settled =
          if is_session_access_denied e
          then deny_access auth w
          else keep_session auth (cached_text (subject_key auth.subject) w.storage)
              (can_use_cached_session e) w in
        record settled { error = some (message_of e); loading = false }

    -- `setUser(user); setError(null); setAccessDenied(false); setLoading(false);`
    abbrev pub set_session : Json → World S L → World S L
    set_session user w = record w {
      user = user;
      error = none;
      access_denied = false;
      loading = false;
    }

    module _ (stringify : Json → Text) where
      abbrev pub on_session : Auth → Json → World S L → World S L
      on_session auth user w = record (set_session user w) {
        storage = store_user (subject_key auth.subject) (stringify user) w.storage;
        registrations = w.registrations + 1;
      }

      abbrev pub on_answer : Auth → RequestError ⊎ Json → World S L → World S L
      on_answer auth (inl e) w = on_request_error auth e w
      on_answer auth (inr user) w = on_session auth user w

      unfoldable pub refresh : Auth → Json → RequestError ⊎ Json → World S L → World S L
      unfolding sync_refs on_request_error
      refresh auth demo_user answer w =
          let next =
            if not auth.signed_in
            then set_session null w
            else if auth.demo
            then set_session demo_user w
            else on_answer auth answer w in
          sync_refs next

    -- `await api.unregisterDevice(pushToken)`
    abbrev pub unregister : Bool → Option Text → World S L → World S L
    unregister false (some token) w = record w { unregistered = token ∷ w.unregistered }
    unregister _ _ w = w

    unfoldable pub sign_out : Auth → World S L → World S L
    unfolding forget cleanup_user_id
    sign_out auth w =
        let told = unregister auth.demo (some_text (d.get push_token_key w.storage)) w in
        let forgotten = forget auth (cleanup_user_id auth told) told in
        record forgotten { last_user_id_ref = none; sign_outs = forgotten.sign_outs + 1 }
