-- ===== src/Realtime/Mobile/Tests.antt =====
-- A subscription of mobile/src/lib/cable.ts whose token is refused twice.
use csg_learning_platform.Prelude.{ℕ, ◌≤◌, true, false, some, none, ◌≡◌, refl}
use csg_learning_platform.Realtime.{is_live}
use csg_learning_platform.Realtime.Mobile.{
  Subscription, initial, token_failed, timer_fired, handle, Reach, started, next, reconnect_delay,
}
use csg_learning_platform.Realtime.Mobile.Connection.{ways, cable_sound}

abbrev waiting : Subscription
waiting = (handle token_failed (handle timer_fired (handle token_failed initial).0).0).0

waits : Reach waiting
unfolding handle
waits = next token_failed (next timer_fired (next token_failed started refl) refl) refl

second_delay : waiting.reconnect_timer ≡ some 4000
unfolding handle reconnect_delay
second_delay = refl

cable_sound_example :
    (waiting.cancelled ≡ false → ways waiting ≡ 1)
    × (waiting.cancelled ≡ true
        → (waiting.reconnect_timer ≡ none) × (is_live waiting.socket ≡ false))
    × ((delay : ℕ) → waiting.reconnect_timer ≡ some delay → (2000 ≤ delay) × (delay ≤ 30000))
cable_sound_example = cable_sound waits
