-- ===== src/Storage/Keys.antt =====
-- The keys of the stores: mobile/src/lib/conversation-storage.ts, lines 4–14, and
-- mobile/src/lib/submission-storage.ts, lines 10–12. Whose a key is can be read from it.
use csg_learning_platform.Prelude.{
  ℕ, Bool, true, false, [], ◌∷◌, ◌++◌, ◌≡◌, refl, arith, nat_beq, nat_eq, ◌∙◌, ◌&&◌,
}
use csg_learning_platform.Prelude.Text.{Text, txt, text_beq, starts_with, show}
use csg_learning_platform.Prelude.Decimal.{starts_with-show, text_beq-show, show_beq}

pub data ConversationKind : Type 0 where
  channel dm : ConversationKind

abbrev pub kind_name : ConversationKind → Text
kind_name channel = txt "channel"
kind_name dm = txt "dm"

abbrev pub kind_beq : ConversationKind → ConversationKind → Bool
kind_beq channel channel = true
kind_beq dm dm = true
kind_beq _ _ = false

-- `${name}${userId}.${rest}`
abbrev pub user_key : Text → ℕ → Text → Text
user_key name user rest = name ++ (show user ++ (b'.' ∷ rest))

abbrev pub conversation_rest : ConversationKind → ℕ → Text
conversation_rest kind id = kind_name kind ++ (b'.' ∷ show id)

abbrev pub draft_name : Text
draft_name = txt "csg.message-draft."

abbrev pub failed_name : Text
failed_name = txt "csg.failed-messages."

abbrev pub thread_name : Text
thread_name = txt "csg.thread-draft."

abbrev pub submission_name : Text
submission_name = txt "csg.submission-draft."

unfoldable pub conversation_draft_key : ℕ → ConversationKind → ℕ → Text
conversation_draft_key user kind id = user_key draft_name user (conversation_rest kind id)

unfoldable pub failed_messages_key : ℕ → ConversationKind → ℕ → Text
failed_messages_key user kind id = user_key failed_name user (conversation_rest kind id)

unfoldable pub thread_draft_key : ℕ → ℕ → Text
thread_draft_key user root = user_key thread_name user (show root)

unfoldable pub submission_draft_key : ℕ → ℕ → Text
submission_draft_key user block = user_key submission_name user (show block)

-- Whose key it is.
starts_with-common : (p s t : Text) → starts_with (p ++ s) (p ++ t) ≡ starts_with s t
starts_with-common [] s t = refl
starts_with-common (c ∷ p) s t = ground (arith, starts_with-common p s t)

text_beq-common : (p s t : Text) → text_beq (p ++ s) (p ++ t) ≡ text_beq s t
text_beq-common [] s t = refl
text_beq-common (c ∷ p) s t = ground (arith, text_beq-common p s t)

pub starts_with-user_key :
    (name : Text) (owner user : ℕ) (rest : Text)
    → starts_with (user_key name owner rest) (user_key name user []) ≡ nat_beq owner user
starts_with-user_key name owner user rest =
    starts_with-common name _ _ ∙ starts_with-show b'.' owner user rest refl

pub user_key_beq :
    (name : Text) (owner user : ℕ) (r s : Text)
    → text_beq (user_key name owner r) (user_key name user s) ≡ (nat_beq owner user && text_beq r s)
user_key_beq name owner user r s = text_beq-common name _ _ ∙ text_beq-show b'.' owner user r s refl

pub conversation_rest_beq :
    (k l : ConversationKind) (i j : ℕ)
    → text_beq (conversation_rest k i) (conversation_rest l j) ≡ (kind_beq k l && nat_beq i j)
conversation_rest_beq channel channel i j = show_beq i j
conversation_rest_beq dm dm i j = show_beq i j
conversation_rest_beq channel dm i j = refl
conversation_rest_beq dm channel i j = refl
