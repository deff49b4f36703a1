-- ===== src/Realtime/Web/Tests.antt =====
-- A subscription of web/src/lib/realtime.ts that is set up, loses its socket and ends.
use csg_learning_platform.Prelude.{ℕ, ◌≤◌, true, false, some, none, ◌≡◌, refl}
use csg_learning_platform.Realtime.{is_live}
use csg_learning_platform.Realtime.Web.{
  Subscription, active, initial, token_arrived, socket_opened, socket_closed, timer_fired,
  unsubscribed, handle, Reach, started, next,
}
use csg_learning_platform.Realtime.Web.Connection.{ways, connection_sound}

abbrev waiting : Subscription
waiting = (handle socket_closed (handle socket_opened (handle (token_arrived true) initial).0).0).0

waits : Reach waiting
unfolding handle
waits = next socket_closed (next socket_opened (next (token_arrived true) started refl) refl) refl

connection_sound_example :
    (waiting.phase ≡ active → waiting.is_closing ≡ false → ways waiting ≡ 1)
    × (waiting.is_closing ≡ true
        → (waiting.reconnect_timer ≡ none) × (is_live waiting.socket ≡ false))
    × ((delay : ℕ) → waiting.reconnect_timer ≡ some delay → (1000 ≤ delay) × (delay ≤ 10000))
connection_sound_example = connection_sound waits

abbrev asking : Subscription
asking = (handle timer_fired waiting).0

abbrev ended : Subscription
ended = (handle unsubscribed asking).0

ends : Reach ended
unfolding handle
ends = next unsubscribed (next timer_fired waits refl) refl

ended_awaits : ended.awaits_token ≡ true
unfolding handle
ended_awaits = refl
