-- ===== src/Storage/Tests.antt =====
-- Runs of the app's stores (mobile/src/lib/conversation-storage.ts, mobile/src/lib/submission-storage.ts)
-- in memory.
use csg_learning_platform.Prelude.{true, Option, none, some, [], ◌∷◌, ◌≡◌, refl, All}
use csg_learning_platform.Prelude.Int.{pos}
use csg_learning_platform.Prelude.Text.{Text, txt, trim, show}
use csg_learning_platform.Json.{Json, null, num, str, arr, obj, nil, cons, field, end, Fields}
use csg_learning_platform.Storage.Memory.{Memory, memory}
use csg_learning_platform.Storage.Keys.{channel, dm, conversation_draft_key, failed_messages_key}
use csg_learning_platform.Storage.Conversations.{
  load_conversation_draft, save_conversation_draft, load_thread_draft, has_failed,
  load_failed_messages, clear_user_conversation_storage,
}
use csg_learning_platform.Storage.ConversationLaws.{
  save_conversation_draft_correct, clear_user_conversation_storage_correct,
}
use csg_learning_platform.Storage.FailedLaws.{load_failed_messages_recovers}
use csg_learning_platform.Storage.Submissions.{
  SubmissionDraft, submission_draft_matches, load_submission_draft, save_submission_draft,
}
use csg_learning_platform.Storage.SubmissionLaws.{draft_at, load-save_submission_draft}

abbrev store : Memory
store =
    (conversation_draft_key 7 channel 3, txt "hello")
    ∷ (conversation_draft_key 71 channel 3, txt "other")
    ∷ (failed_messages_key 7 dm 4, txt "{")
    ∷ []

key_test : conversation_draft_key 7 channel 3 ≡ txt "csg.message-draft.7.channel.3"
unfolding conversation_draft_key show
key_test = refl

abbrev failing : Fields
failing = field (txt "id") (num 5) (field (txt "client_status") (str (txt "failed")) end)

abbrev sent : Fields
sent = field (txt "id") (num 6) end

-- JSON of one value.
abbrev one_value : Json → Text → Option Json
one_value v [] = none
one_value v (_ ∷ _) = some v

abbrev as_hash : Json → Text
as_hash v = txt "#"

save_conversation_draft_correct_example :
    (load_conversation_draft 71 channel 3 (save_conversation_draft 7 channel 3 (txt " ") store)
      ≡ load_conversation_draft 71 channel 3 store)
    × (load_thread_draft 71 9 (save_conversation_draft 7 channel 3 (txt " ") store)
        ≡ load_thread_draft 71 9 store)
save_conversation_draft_correct_example =
    save_conversation_draft_correct 7 71 channel channel 3 3 9 (txt " ") store

clear_user_conversation_storage_correct_example :
    (load_conversation_draft 71 channel 3 (clear_user_conversation_storage 7 store)
      ≡ load_conversation_draft 71 channel 3 store)
    × ((load_thread_draft 71 3 (clear_user_conversation_storage 7 store)
          ≡ load_thread_draft 71 3 store)
        × ((load_failed_messages
              (one_value null)
              71
              channel
              3
              (clear_user_conversation_storage 7 store)).0
            ≡ (load_failed_messages (one_value null) 71 channel 3 store).0))
clear_user_conversation_storage_correct_example =
    clear_user_conversation_storage_correct (one_value null) 7 71 channel 3 store

load_failed_messages_recovers_example :
    All (λ m. has_failed m ≡ true) (load_failed_messages (one_value null) 7 dm 4 store).0
    × (load_failed_messages
          (one_value null)
          7
          dm
          4
          (load_failed_messages (one_value null) 7 dm 4 store).1
        ≡ load_failed_messages (one_value null) 7 dm 4 store)
load_failed_messages_recovers_example = load_failed_messages_recovers (one_value null) 7 dm 4 store

abbrev array : Json
array = arr (cons (obj failing) nil)

abbrev answer : SubmissionDraft
answer = draft_at (txt "now") (txt "42") (some (pos 9)) none

abbrev answer_json : Json
answer_json = obj (
    field (txt "text") (str (txt "42")) (
      field (txt "base_submission_id") (num 9) (
        field (txt "base_submission_updated_at") null
          (field (txt "saved_at") (str (txt "now")) end))))

load-save_submission_draft_example :
    ((load_submission_draft
        (one_value answer_json)
        7
        2
        (save_submission_draft as_hash (txt "now") 7 2 (txt "42") (some (pos 9)) none store)).0
      ≡ some answer)
    × (submission_draft_matches answer (some (pos 9)) none ≡ true)
unfolding trim
load-save_submission_draft_example =
    load-save_submission_draft (one_value answer_json) as_hash (txt "now") (txt "42") 7 2
      (some (pos 9)) none store refl refl
