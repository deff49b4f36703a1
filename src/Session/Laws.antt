-- ===== src/Session/Laws.antt =====
-- What a device keeps of an account behind mobile/src/providers/session-provider.tsx.
use csg_learning_platform.Prelude.{
  ℕ, zero, suc, Bool, true, false, not, ◌&&◌, Option, none, some, [], ◌∷◌, ◌++◌, if◌then◌else◌,
  ◌==◌, nat_beq, nat_beq_iff, ◌⊎◌, inl, inr, ◌≡◌, refl, arith, ap, ◌∙◌, any, beq_refl,
}
use csg_learning_platform.Prelude.Text.{Text, txt, text_eq, text_beq, starts_with, is_empty, show}
use csg_learning_platform.Json.{Json, null}
use csg_learning_platform.Storage.{KeyValueStore}
use csg_learning_platform.Storage.Keys.{
  user_key, starts_with-user_key, draft_name, thread_name, failed_name, submission_name,
}
use csg_learning_platform.Storage.Conversations.{
  clear_user_conversation_storage, has_prefix, user_prefixes,
}
use csg_learning_platform.Storage.ConversationLaws.{
  get-remove_passing, draft_prefix, thread_prefix, failed_prefix,
}
use csg_learning_platform.Storage.Submissions.{clear_user_submission_drafts}
use csg_learning_platform.Storage.Cache.{learning_cache_key, clear_learning_cache}
use csg_learning_platform.Session.{
  RequestError, Auth, World, account_keys, user_keys, subject_key, key_list, forget, clear_storage,
  sync_refs, refresh, sign_out, cleanup_user_id, denied_user_id, on_request_error,
  is_session_access_denied, can_use_cached_session, push_token_key, some_text, unregister,
  message_of,
}

text_beq-other_prefix : (p x key : Text) → starts_with key p ≡ false → text_beq (p ++ x) key ≡ false
text_beq-other_prefix [] x key h = absurd (ground arith)
text_beq-other_prefix (c ∷ p) x [] h = refl
text_beq-other_prefix (c ∷ p) x (e ∷ key) h =
    ground (arith, text_beq-other_prefix p x key, nat_beq_iff c e)

-- No key of an account begins as this key does.
abbrev IsDraftKey : Text → Type 0
IsDraftKey key =
    ((starts_with key (txt "csg.push") ≡ false)
      × (starts_with key (txt "csg.session.user.") ≡ false))
    × ((starts_with key (txt "csg.inbox.") ≡ false)
        × (starts_with key (txt "csg.workspace") ≡ false))

user_keys-other :
    (user : Option ℕ) (key : Text)
    → starts_with key (txt "csg.inbox.") ≡ false
    → starts_with key (txt "csg.workspace") ≡ false
    → any (λ k. k == key) (user_keys user) ≡ false
user_keys-other none key h g = refl
user_keys-other (some zero) key h g = refl
user_keys-other (some (suc n)) key h g = ground (
  arith,
  text_beq-other_prefix (txt "csg.inbox.") (show (suc n)) key h,
  text_beq-other_prefix (txt "csg.workspace") (txt "s." ++ show (suc n)) key g,
  text_beq-other_prefix (txt "csg.workspace") (txt ".active." ++ show (suc n)) key g,
)

account_keys-other :
    (subject : Option Text) (user : Option ℕ) (key : Text)
    → IsDraftKey key
    → any (λ k. k == key) (push_token_key ∷ (key_list (subject_key subject) ++ user_keys user))
      ≡ false
account_keys-other none user key ((h, i), (j, k)) = ground (
  arith,
  text_beq-other_prefix (txt "csg.push") (txt ".token") key h,
  user_keys-other user key j k,
)
account_keys-other (some []) user key ((h, i), (j, k)) = ground (
  arith,
  text_beq-other_prefix (txt "csg.push") (txt ".token") key h,
  user_keys-other user key j k,
)
account_keys-other (some (c ∷ s)) user key ((h, i), (j, k)) = ground (
  arith,
  text_beq-other_prefix (txt "csg.push") (txt ".token") key h,
  text_beq-other_prefix (txt "csg.session.user.") (c ∷ s) key i,
  user_keys-other user key j k,
)

none_if {ℓ} :
    {A : Type ℓ} (b : Bool) (o x : Option A)
    → o ≡ (if b then none else x)
    → (if b then o else none) ≡ none
none_if true o x h = h
none_if false o x h = refl

some_text_full : (v : Text) → is_empty v ≡ false → some_text (some v) ≡ some v
some_text_full [] h = absurd (ground arith)
some_text_full (c ∷ v) h = refl

-- The four kinds of text that the app keeps for a user, by the names of their keys.
pub data DraftKind : Type 0 where
  message thread failed submission : DraftKind

abbrev pub draft_kind_name : DraftKind → Text
draft_kind_name message = draft_name
draft_kind_name thread = thread_name
draft_kind_name failed = failed_name
draft_kind_name submission = submission_name

user_key-IsDraftKey :
    (kind : DraftKind) (owner : ℕ) (rest : Text)
    → IsDraftKey (user_key (draft_kind_name kind) owner rest)
user_key-IsDraftKey message owner rest = ((refl, refl), (refl, refl))
user_key-IsDraftKey thread owner rest = ((refl, refl), (refl, refl))
user_key-IsDraftKey failed owner rest = ((refl, refl), (refl, refl))
user_key-IsDraftKey submission owner rest = ((refl, refl), (refl, refl))

abbrev conversation_part : DraftKind → Bool
conversation_part submission = false
conversation_part _ = true

kind-has_prefix :
    (kind : DraftKind) (user owner : ℕ) (rest : Text)
    → has_prefix (user_prefixes user) (user_key (draft_kind_name kind) owner rest)
      ≡ (conversation_part kind && nat_beq owner user)
kind-has_prefix message user owner rest = draft_prefix user owner rest
kind-has_prefix thread user owner rest = thread_prefix user owner rest
kind-has_prefix failed user owner rest = failed_prefix user owner rest
kind-has_prefix submission user owner rest = refl

kind-starts_with :
    (kind : DraftKind) (user owner : ℕ) (rest : Text)
    → starts_with (user_key (draft_kind_name kind) owner rest) (user_key submission_name user [])
      ≡ (not (conversation_part kind) && nat_beq owner user)
kind-starts_with message user owner rest = refl
kind-starts_with thread user owner rest = refl
kind-starts_with failed user owner rest = refl
kind-starts_with submission user owner rest = starts_with-user_key submission_name owner user rest

module _ {S : Type 0} ⦃d : KeyValueStore S⦄ where
  get-clear_storage :
      (kind : DraftKind) (user owner : ℕ) (rest : Text) (s : S)
      → d.get (user_key (draft_kind_name kind) owner rest) (clear_storage (some (suc user)) s) ≡ (
          if nat_beq owner (suc user)
          then none
          else d.get (user_key (draft_kind_name kind) owner rest) s)
  unfolding clear_user_submission_drafts clear_user_conversation_storage
  get-clear_storage kind user owner rest s =
      let key = user_key (draft_kind_name kind) owner rest in
      ground (
        arith,
        get-remove_passing (λ k. starts_with k (user_key submission_name (suc user) [])) key
            (clear_user_conversation_storage (suc user) s),
        get-remove_passing (has_prefix (user_prefixes (suc user))) key s,
        kind-has_prefix kind (suc user) owner rest,
        kind-starts_with kind (suc user) owner rest,
      )

  -- A draft's value behind the removal of an account's keys.
  get-multi_remove_account :
      (subject : Option Text) (user : Option ℕ) (kind : DraftKind) (owner : ℕ) (rest : Text) (s : S)
      → d.get
          (user_key (draft_kind_name kind) owner rest)
          (d.multi_remove (push_token_key ∷ (key_list (subject_key subject) ++ user_keys user)) s)
        ≡ d.get (user_key (draft_kind_name kind) owner rest) s
  get-multi_remove_account subject user kind owner rest s =
      d.get-multi_remove _ (user_key (draft_kind_name kind) owner rest) s
      ∙ ap (λ b. if b then none else d.get (user_key (draft_kind_name kind) owner rest) s)
          (account_keys-other subject user (user_key (draft_kind_name kind) owner rest)
            (user_key-IsDraftKey kind owner rest))

module _ {S L : Type 0} ⦃d : KeyValueStore S⦄ ⦃t : KeyValueStore L⦄ where
  -- What the clean-up of a user leaves: of that user and the account nothing is stored, and what
  -- is stored of another user's drafts is as it was in `w`.
  abbrev pub IsForgotten : Auth → ℕ → World S L → World S L → Type 0
  IsForgotten auth user w after =
      ((kind : DraftKind) (owner : ℕ) (rest : Text)
        → d.get (user_key (draft_kind_name kind) owner rest) after.storage ≡ (
            if nat_beq owner user
            then none
            else d.get (user_key (draft_kind_name kind) owner rest) w.storage))
      × (((key : Text)
            → (if any (λ k. k == key) (account_keys auth (some user))
                then d.get key after.storage
                else none)
              ≡ none)
          × (t.get (learning_cache_key user) after.cache ≡ none))

  forget-IsForgotten :
      (auth : Auth) (user : ℕ) (w : World S L)
      → IsForgotten auth (suc user) w (forget auth (some (suc user)) w)
  unfolding forget clear_learning_cache
  forget-IsForgotten auth user w = (
    λ kind owner rest.
        get-multi_remove_account auth.subject (some (suc user)) kind owner rest
          (clear_storage (some (suc user)) w.storage)
        ∙ get-clear_storage kind user owner rest w.storage,
    (
      λ key. none_if _ _ _ (d.get-multi_remove (account_keys auth (some (suc user))) key _),
      t.get-remove _ _ w.cache ∙ rw (beq_refl (learning_cache_key (suc user))) refl,
    ),
  )

  module _ (parse : Text → Option Json) where
    cleanup-unregister :
        (auth : Auth) (demo : Bool) (token : Option Text) (user : ℕ) (w : World S L)
        → cleanup_user_id parse auth w ≡ some (suc user)
        → let told = unregister parse demo token w in
          IsForgotten auth (suc user) w (forget auth (cleanup_user_id parse auth told) told)
    unfolding cleanup_user_id
    cleanup-unregister auth true token user w h = rw h (forget-IsForgotten auth user w)
    cleanup-unregister auth false none user w h = rw h (forget-IsForgotten auth user w)
    cleanup-unregister auth false (some token) user w h =
        rw h (forget-IsForgotten auth user (record w { unregistered = token ∷ w.unregistered }))

    -- Behind signing out, where the user's id is known, nothing is stored of the user's drafts, of the
    -- account's keys and of the learning cache, and what is stored of other users' drafts is as it was; and
    -- after the refresh that follows with the session signed out, no reference to the user is left.
    pub sign_out-IsForgotten :
        (stringify : Json → Text) (auth later : Auth) (demo_user : Json)
        (answer : RequestError ⊎ Json) (user : ℕ) (w : World S L)
        → cleanup_user_id parse auth w ≡ some (suc user)
        → later.signed_in ≡ false
        → let after = refresh parse stringify later demo_user answer (sign_out parse auth w) in
          IsForgotten auth (suc user) w (sign_out parse auth w)
          × IsForgotten auth (suc user) w after
          × (after.user ≡ null)
          × (after.user_id_ref ≡ none)
          × (after.last_user_id_ref ≡ none)
    unfolding sign_out refresh sync_refs
    sign_out-IsForgotten stringify auth later demo_user answer user w h out =
        let gone = cleanup-unregister auth auth.demo _ user w h in
        (gone, rw out gone, rw out refl, rw out refl, rw out refl)

    -- When the server denies access, the same is removed, no user is left, and the app knows that access was
    -- denied. The session is neither signed out nor a demo, and the id of its user is known.
    pub refresh-IsForgotten :
        (stringify : Json → Text) (auth : Auth) (demo_user : Json) (e : RequestError) (user : ℕ)
        (w : World S L)
        → auth.signed_in ≡ true
        → auth.demo ≡ false
        → is_session_access_denied e ≡ true
        → denied_user_id parse auth w ≡ some (suc user)
        → IsForgotten auth (suc user) w (refresh parse stringify auth demo_user (inl e) w)
          × (((refresh parse stringify auth demo_user (inl e) w).user ≡ null)
              × ((refresh parse stringify auth demo_user (inl e) w).access_denied ≡ true))
    unfolding refresh on_request_error sync_refs
    refresh-IsForgotten stringify auth demo_user e user w h k f g =
        rw h (rw k (rw f (rw g (forget-IsForgotten auth user w, (refl, refl)))))

    -- A session that the server gave once is there again when a later request fails for a passing
    -- reason, whatever happened to the provider's state in between, as long as the device kept
    -- what it stored. JSON reads back the user that it wrote, and what it wrote is not empty.
    pub refresh_restores :
        (stringify : Json → Text) (auth : Auth) (demo_user user : Json) (e : RequestError)
        (key : Text) (before after : World S L)
        → auth.signed_in ≡ true
        → auth.demo ≡ false
        → subject_key auth.subject ≡ some key
        → is_session_access_denied e ≡ false
        → can_use_cached_session e ≡ true
        → is_empty (stringify user) ≡ false
        → parse (stringify user) ≡ some user
        → d.get key after.storage
          ≡ d.get key (refresh parse stringify auth demo_user (inr user) before).storage
        → ((refresh parse stringify auth demo_user (inl e) after).user ≡ user)
          × ((refresh parse stringify auth demo_user (inl e) after).error ≡ some (message_of e))
    unfolding refresh on_request_error sync_refs
    refresh_restores stringify auth demo_user user e key before after h k s f g n p same =
        let stored : d.get key after.storage ≡ some (stringify user) = rw same (
          rw h (
            rw k (
              rw s
                (d.get-set key key (stringify user) before.storage ∙ rw (beq_refl key) refl)))) in
        rw h (
          rw k (
            rw f (
              rw g
                (rw s (rw stored (rw (some_text_full (stringify user) n) (rw p (refl, refl))))))))
