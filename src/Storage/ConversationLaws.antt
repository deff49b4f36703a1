-- ===== src/Storage/ConversationLaws.antt =====
-- What mobile/src/lib/conversation-storage.ts gives back, and to whom.
use csg_learning_platform.Prelude.{
  ℕ, Bool, true, false, Option, none, some, List, [], ◌∷◌, if◌then◌else◌, ◌==◌, filter, any, ◌&&◌,
  ◌≡◌, refl, arith, nat_beq, ◌∙◌, ap, inl, inr, Option-cases,
}
use csg_learning_platform.Prelude.Text.{Text, text_eq, is_empty, trim, text_beq_iff}
use csg_learning_platform.Json.{Json}
use csg_learning_platform.Storage.{KeyValueStore, or_empty}
use csg_learning_platform.Storage.Keys.{
  ConversationKind, kind_beq, draft_name, failed_name, thread_name, user_key,
  conversation_draft_key, failed_messages_key, thread_draft_key, starts_with-user_key, user_key_beq,
  conversation_rest_beq,
}
use csg_learning_platform.Storage.Conversations.{
  failed_of, has_prefix, user_prefixes, remove_keys, load_failed, load_conversation_draft,
  save_conversation_draft, load_thread_draft, save_draft, load_failed_messages,
  clear_user_conversation_storage,
}

-- What a saved draft reads back as.
abbrev pub kept_body : Text → Text
kept_body body = if is_empty (trim body) then [] else body

any-filter :
    (p : Text → Bool) (k : Text) (ks : List Text)
    → any (λ j. j == k) (filter p ks) ≡ (p k && any (λ j. j == k) ks)
any-filter p k [] = ground arith
any-filter p k (j ∷ ks) = ground (arith, any-filter p k ks, text_beq_iff j k)

pub draft_prefix :
    (user owner : ℕ) (rest : Text)
    → has_prefix (user_prefixes user) (user_key draft_name owner rest) ≡ nat_beq owner user
draft_prefix user owner rest = ground (arith, starts_with-user_key draft_name owner user rest)

pub thread_prefix :
    (user owner : ℕ) (rest : Text)
    → has_prefix (user_prefixes user) (user_key thread_name owner rest) ≡ nat_beq owner user
thread_prefix user owner rest = ground (arith, starts_with-user_key thread_name owner user rest)

pub failed_prefix :
    (user owner : ℕ) (rest : Text)
    → has_prefix (user_prefixes user) (user_key failed_name owner rest) ≡ nat_beq owner user
failed_prefix user owner rest = ground (arith, starts_with-user_key failed_name owner user rest)

module _ {S : Type 0} ⦃d : KeyValueStore S⦄ where
  pub or_empty-save_draft :
      (k other body : Text) (s : S)
      → or_empty (d.get other (save_draft k body s))
        ≡ (if k == other then kept_body body else or_empty (d.get other s))
  unfolding save_draft
  or_empty-save_draft k other body s =
      ground (arith, d.get-set k other body s, d.get-remove k other s)

  -- A saved draft reads back as it was written, or as the empty text if it is blank, in its own
  -- conversation and for its own user, and every other conversation's draft and every thread's
  -- is as it was.
  pub save_conversation_draft_correct :
      (user owner : ℕ) (kind type : ConversationKind) (id other root : ℕ) (body : Text) (s : S)
      → (load_conversation_draft owner type other (save_conversation_draft user kind id body s) ≡ (
          if nat_beq user owner && (kind_beq kind type && nat_beq id other)
          then kept_body body
          else load_conversation_draft owner type other s))
        × (load_thread_draft owner root (save_conversation_draft user kind id body s)
            ≡ load_thread_draft owner root s)
  unfolding load_conversation_draft save_conversation_draft load_thread_draft conversation_draft_key
      thread_draft_key
  save_conversation_draft_correct user owner kind type id other root body s = (
    or_empty-save_draft _ _ body s
        ∙ ap (λ b. if b then kept_body body else load_conversation_draft owner type other s)
            (user_key_beq draft_name user owner _ _
              ∙ ap (λ b. nat_beq user owner && b) (conversation_rest_beq kind type id other)),
    or_empty-save_draft _ _ body s,
  )

  get-remove_keys :
      (ks : List Text) (k : Text) (s : S)
      → d.get k (remove_keys ks s) ≡ (if any (λ j. j == k) ks then none else d.get k s)
  get-remove_keys [] k s = refl
  get-remove_keys (j ∷ ks) k s = d.get-multi_remove (j ∷ ks) k s

  -- Removing all the keys that pass a test.
  pub get-remove_passing :
      (p : Text → Bool) (k : Text) (s : S)
      → d.get k (remove_keys (filter p (d.all_keys s)) s) ≡ (if p k then none else d.get k s)
  get-remove_passing p k s = ground (
    arith,
    get-remove_keys (filter p (d.all_keys s)) k s,
    any-filter p k (d.all_keys s),
    d.all_keys-get k s,
    Option-cases (d.get k s),
  )

  -- A key of one of the three names goes with its user's storage.
  pub cleared-get :
      (user owner : ℕ) (key : Text) (s : S)
      → has_prefix (user_prefixes user) key ≡ nat_beq owner user
      → d.get key (clear_user_conversation_storage user s)
        ≡ (if nat_beq owner user then none else d.get key s)
  unfolding clear_user_conversation_storage
  cleared-get user owner key s h =
      get-remove_passing (has_prefix (user_prefixes user)) key s
      ∙ ap (λ b. if b then none else d.get key s) h

  load_failed-of :
      (parse : Text → Option Json) (b : Bool) (k : Text) (o : Option Text) (s t : S)
      → (load_failed parse k (if b then none else o) s).0
        ≡ (if b then [] else (load_failed parse k o t).0)
  load_failed-of parse true k o s t = refl
  load_failed-of parse false k none s t = refl
  load_failed-of parse false k (some []) s t = refl
  load_failed-of parse false k (some (c ∷ v)) s t =
      elim (Option-cases (failed_of (parse (c ∷ v)))) [
        | inl e ↦ rw e refl
        | inr (ms, e) ↦ rw e refl
      ]

  -- After the storage of a user is cleared none of their drafts, drafts of threads and failed messages is
  -- read, and those of every other user are as they were.
  pub clear_user_conversation_storage_correct :
      (parse : Text → Option Json) (user owner : ℕ) (kind : ConversationKind) (id : ℕ) (s : S)
      → (load_conversation_draft owner kind id (clear_user_conversation_storage user s)
          ≡ (if nat_beq owner user then [] else load_conversation_draft owner kind id s))
        × ((load_thread_draft owner id (clear_user_conversation_storage user s)
              ≡ (if nat_beq owner user then [] else load_thread_draft owner id s))
            × ((load_failed_messages parse owner kind id (clear_user_conversation_storage user s)).0
                ≡ (if nat_beq owner user
                    then []
                    else (load_failed_messages parse owner kind id s).0)))
  unfolding load_conversation_draft load_thread_draft load_failed_messages conversation_draft_key
      thread_draft_key failed_messages_key
  clear_user_conversation_storage_correct parse user owner kind id s = (
    ground (
      arith,
      cleared-get user owner (conversation_draft_key owner kind id) s (draft_prefix user owner _),
    ),
    (
      ground (
        arith,
        cleared-get user owner (thread_draft_key owner id) s (thread_prefix user owner _),
      ),
      rw (cleared-get user owner (failed_messages_key owner kind id) s (failed_prefix user owner _))
          (load_failed-of parse (nat_beq owner user) _ _ _ s),
    ),
  )
