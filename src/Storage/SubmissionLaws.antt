-- ===== src/Storage/SubmissionLaws.antt =====
-- What mobile/src/lib/submission-storage.ts gives back, and to whom.
use csg_learning_platform.Prelude.{
  ℕ, Bool, true, false, Option, none, some, [], ◌∷◌, if◌then◌else◌, ◌==◌, ◌≡◌, refl, arith, ◌∙◌, ap,
  Bool-cases, inl, inr, Option-cases, beq_refl, nat_beq, not, is_some,
}
use csg_learning_platform.Prelude.Int.{ℤ, pos, negsuc, int_eq}
use csg_learning_platform.Prelude.Text.{Text, text_eq, is_empty, starts_with, trim}
use csg_learning_platform.Json.{Json}
use csg_learning_platform.Storage.{KeyValueStore}
use csg_learning_platform.Storage.Keys.{
  submission_name, user_key, submission_draft_key, starts_with-user_key,
}
use csg_learning_platform.Storage.ConversationLaws.{get-remove_passing}
use csg_learning_platform.Storage.Submissions.{
  SubmissionDraft, submission_draft_matches, same_option, draft_of, draft_json, load_draft,
  load_submission_draft, save_submission_draft, clear_user_submission_drafts,
}

same_option_refl {ℓ} :
    {A : Type ℓ} (same : A → A → Bool)
    → ((a : A) → same a a ≡ true)
    → (o : Option A) → same_option same o o ≡ true
same_option_refl same r none = refl
same_option_refl same r (some a) = r a

-- `if (!value)` is not taken.
abbrev pub has_text : Option Text → Bool
has_text none = false
has_text (some v) = not (is_empty v)

-- The draft that a save writes.
abbrev pub draft_at : Text → Text → Option ℤ → Option Text → SubmissionDraft
draft_at now body id updated_at = record {
  text = body;
  base_submission_id = id;
  base_submission_updated_at = updated_at;
  saved_at = now;
}

pub draft_at-matches :
    (now body : Text) (id : Option ℤ) (updated_at : Option Text)
    → submission_draft_matches (draft_at now body id updated_at) id updated_at ≡ true
unfolding submission_draft_matches
draft_at-matches now body id updated_at =
    rw
      (
        same_option_refl (λ a b. a == b) beq_refl id,
        same_option_refl (λ a b. a == b) beq_refl updated_at,
      )
      refl

draft_of-draft_at :
    (now body : Text) (id : Option ℤ) (updated_at : Option Text)
    → draft_of (some (draft_json (draft_at now body id updated_at)))
      ≡ some (draft_at now body id updated_at)
unfolding draft_of
draft_of-draft_at now body none none = refl
draft_of-draft_at now body none (some v) = refl
draft_of-draft_at now body (some (pos n)) none = refl
draft_of-draft_at now body (some (pos n)) (some v) = refl
draft_of-draft_at now body (some (negsuc n)) none = refl
draft_of-draft_at now body (some (negsuc n)) (some v) = refl

module _ {S : Type 0} ⦃d : KeyValueStore S⦄ where
  get_removed : (k : Text) (s : S) → d.get k (d.remove k s) ≡ none
  get_removed k s = d.get-remove k k s ∙ rw (beq_refl k) refl

  get_stored : (k v : Text) (s : S) → d.get k (d.set k v s) ≡ some v
  get_stored k v s = d.get-set k k v s ∙ rw (beq_refl k) refl

  module _ (parse : Text → Option Json) where
    load_draft_again :
        (k : Text) (o : Option Text) (s : S)
        → d.get k s ≡ o
        → load_draft parse k (d.get k (load_draft parse k o s).1) (load_draft parse k o s).1
          ≡ load_draft parse k o s
    load_draft_again k none s e = rw e refl
    load_draft_again k (some []) s e = rw e refl
    load_draft_again k (some (c ∷ v)) s e = elim (Option-cases (draft_of (parse (c ∷ v)))) [
      | inl f ↦ rw f (rw (get_removed k s) refl)
      | inr (draft, f) ↦ rw f (rw e (rw f refl))
    ]

    load_draft-has_text :
        (k : Text) (o : Option Text) (s : S)
        → d.get k s ≡ o
        → has_text (d.get k (load_draft parse k o s).1) ≡ is_some (load_draft parse k o s).0
    load_draft-has_text k none s e = rw e refl
    load_draft-has_text k (some []) s e = rw e refl
    load_draft-has_text k (some (c ∷ v)) s e = elim (Option-cases (draft_of (parse (c ∷ v)))) [
      | inl f ↦ rw f (rw (get_removed k s) refl)
      | inr (draft, f) ↦ rw f (rw e refl)
    ]

    load_stored_draft :
        (k v : Text) (value : Json) (draft : SubmissionDraft) (s : S)
        → is_empty v ≡ false
        → parse v ≡ some value
        → draft_of (some value) ≡ some draft
        → load_draft parse k (some v) s ≡ (some draft, s)
    load_stored_draft k [] value draft s e p f = absurd (ground arith)
    load_stored_draft k (c ∷ v) value draft s e p f = rw (p, f) refl

    -- Whatever is stored, text that is no JSON or an object of another kind included: behind a load
    -- the key holds a text that is not empty exactly if a draft was loaded, and a second load gives
    -- the same and changes nothing.
    pub load_submission_draft_recovers :
        (user block : ℕ) (s : S)
        → (has_text
              (d.get (submission_draft_key user block) (load_submission_draft parse user block s).1)
            ≡ is_some (load_submission_draft parse user block s).0)
          × (load_submission_draft parse user block (load_submission_draft parse user block s).1
              ≡ load_submission_draft parse user block s)
    unfolding load_submission_draft
    load_submission_draft_recovers user block s = (
      load_draft-has_text _ _ s refl,
      load_draft_again (submission_draft_key user block) _ s refl,
    )

  module _ (parse : Text → Option Json) (stringify : Json → Text) where
    -- A submission's draft reads back as it was written, or not at all if its text is blank, and it
    -- matches the submission that it was begun from. JSON reads back the object that it wrote,
    -- which is not the empty text.
    pub load-save_submission_draft :
        (now body : Text) (user block : ℕ) (id : Option ℤ) (updated_at : Option Text) (s : S)
        → is_empty (stringify (draft_json (draft_at now body id updated_at))) ≡ false
        → parse (stringify (draft_json (draft_at now body id updated_at)))
          ≡ some (draft_json (draft_at now body id updated_at))
        → ((load_submission_draft parse user block
              (save_submission_draft stringify now user block body id updated_at s)).0
            ≡ (if is_empty (trim body) then none else some (draft_at now body id updated_at)))
          × (submission_draft_matches (draft_at now body id updated_at) id updated_at ≡ true)
    unfolding load_submission_draft save_submission_draft
    load-save_submission_draft now body user block id updated_at s e p = (
      elim (Bool-cases (is_empty (trim body))) [
        | inl b ↦ rw b (rw (get_removed (submission_draft_key user block) s) refl)
        | inr b ↦ rw b (
            rw (get_stored (submission_draft_key user block) _ s) (
              ap (λ r. r.0)
                (load_stored_draft parse _ _ _ _ _ e p (draft_of-draft_at now body id updated_at))))
      ],
      draft_at-matches now body id updated_at,
    )

  -- Clearing a user's drafts removes those of all their blocks and no other user's.
  pub clear_user_submission_drafts_correct :
      (user owner block : ℕ) (s : S)
      → d.get (submission_draft_key owner block) (clear_user_submission_drafts user s)
        ≡ (if nat_beq owner user then none else d.get (submission_draft_key owner block) s)
  unfolding clear_user_submission_drafts submission_draft_key
  clear_user_submission_drafts_correct user owner block s =
      get-remove_passing (λ key. starts_with key (user_key submission_name user [])) _ s
      ∙ ap (λ b. if b then none else d.get (submission_draft_key owner block) s)
          (starts_with-user_key submission_name owner user _)
