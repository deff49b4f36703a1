-- ===== src/Session/Tests.antt =====
-- Runs of the session provider (mobile/src/providers/session-provider.tsx) on a device in memory.
use csg_learning_platform.Prelude.{true, false, Option, none, some, [], ◌∷◌, ◌≡◌, refl, inl, inr}
use csg_learning_platform.Prelude.Text.{Text, txt}
use csg_learning_platform.Json.{Json, null, num, obj, field, end}
use csg_learning_platform.Prelude.Assoc.{get_item}
use csg_learning_platform.Storage.Memory.{Memory, memory}
use csg_learning_platform.Storage.Keys.{conversation_draft_key, channel}
use csg_learning_platform.Session.{
  RequestError, api_error, Auth, World, refresh, sign_out, cleanup_user_id, denied_user_id,
  is_session_access_denied, can_use_cached_session,
}
use csg_learning_platform.Session.Laws.{
  IsForgotten, sign_out-IsForgotten, refresh-IsForgotten, refresh_restores,
}

abbrev ana : Json
ana = obj (field (txt "id") (num 7) end)

abbrev parse_ana : Text → Option Json
parse_ana s = some ana

abbrev write_ana : Json → Text
write_ana v = txt "#"

abbrev auth : Auth
auth = record { signed_in = true; demo = false; subject = some (txt "u") }

abbrev world : World Memory Memory
world = record {
  user = ana;
  loading = false;
  error = none;
  access_denied = false;
  user_id_ref = some 7;
  last_user_id_ref = some 7;
  storage = (conversation_draft_key 7 channel 3, txt "hello") ∷ [];
  cache = [];
  registrations = 0;
  unregistered = [];
  sign_outs = 0;
}

abbrev denied : RequestError
denied = api_error (txt "no") (some 403) (some (txt "account_archived"))

abbrev offline : RequestError
offline = api_error (txt "offline") none none

denied_test : is_session_access_denied denied ≡ true
unfolding is_session_access_denied
denied_test = refl

offline_denied : is_session_access_denied offline ≡ false
unfolding is_session_access_denied
offline_denied = refl

offline_cached : can_use_cached_session offline ≡ true
unfolding can_use_cached_session
offline_cached = refl

denied_id : denied_user_id parse_ana auth world ≡ some 7
unfolding denied_user_id get_item conversation_draft_key
denied_id = refl

ana_id : cleanup_user_id parse_ana auth world ≡ some 7
unfolding cleanup_user_id
ana_id = refl

abbrev signed_out : Auth
signed_out = record { signed_in = false; demo = false; subject = none }

abbrev left : World Memory Memory
left = refresh parse_ana write_ana signed_out null (inl offline) (sign_out parse_ana auth world)

sign_out-IsForgotten_example :
    IsForgotten auth 7 world (sign_out parse_ana auth world)
    × IsForgotten auth 7 world left
    × (left.user ≡ null)
    × (left.user_id_ref ≡ none)
    × (left.last_user_id_ref ≡ none)
sign_out-IsForgotten_example =
    sign_out-IsForgotten parse_ana write_ana auth signed_out null (inl offline) 6 world ana_id refl

abbrev refused : World Memory Memory
refused = refresh parse_ana write_ana auth null (inl denied) world

refresh-IsForgotten_example :
    IsForgotten auth 7 world refused × ((refused.user ≡ null) × (refused.access_denied ≡ true))
refresh-IsForgotten_example =
    refresh-IsForgotten parse_ana write_ana auth null denied 6 world refl refl denied_test denied_id

abbrev kept : World Memory Memory
kept = refresh parse_ana write_ana auth null (inr ana) world

refresh_restores_example :
    ((refresh parse_ana write_ana auth null (inl offline) kept).user ≡ ana)
    × ((refresh parse_ana write_ana auth null (inl offline) kept).error ≡ some (txt "offline"))
refresh_restores_example =
    refresh_restores parse_ana write_ana auth null ana offline (txt "csg.session.user.u") world kept
      refl refl refl offline_denied offline_cached refl refl refl
