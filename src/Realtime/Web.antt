-- ===== src/Realtime/Web.antt =====
-- `subscribe` of web/src/lib/realtime.ts.
pub mod Connection
mod Tests
use csg_learning_platform.Prelude.{
  ℕ, zero, suc, ◌+◌, ◌-◌, Bool, true, false, not, ◌&&◌, ◌||◌, Option, none, some, List, [], ◌∷◌,
  ◌≡◌, if◌then◌else◌, is_some, ltb, min,
}
use csg_learning_platform.Realtime.{
  Socket, absent, connecting, opened, closed, is_live, close, is_open, is_opening, may_close,
}

-- `subscribe` awaits its first `connect`; it has returned; or that `connect` rejected, and so did it.
pub data Phase : Type 0 where
  starting active failed : Phase

pub data Status : Type 0 where
  connected disconnected error : Status

-- The closure's variables, and whether a `connect` waits for its token. `reconnect_timer` holds the
-- delay of the timer that is set.
pub record Subscription : Type 0 where
  pub phase : Phase
  pub is_closing : Bool
  pub reconnect_attempts : ℕ
  pub reconnect_timer : Option ℕ
  pub awaits_token : Bool
  pub socket : Socket

pub data Event : Type 0 where
  token_arrived : Bool → Event
  token_failed : Event
  socket_opened : Event
  confirmed : Event
  refused : Event
  socket_error : Event
  socket_closed : Event
  timer_fired : Event
  unsubscribed : Event

-- What the machine does outside: it calls `onStatus`, and sends a command.
pub data Output : Type 0 where
  status : Status → Output
  subscribe : Output
  unsubscribe : Output

-- `RECONNECT_DELAYS[Math.min(reconnectAttempts, RECONNECT_DELAYS.length - 1)]`, of four delays.
unfoldable pub reconnect_delay : ℕ → ℕ
reconnect_delay zero = 1000
reconnect_delay (suc zero) = 2500
reconnect_delay (suc (suc zero)) = 5000
reconnect_delay (suc (suc (suc n))) = 10000

unfoldable pub schedule_reconnect : Subscription → Subscription
unfolding reconnect_delay
schedule_reconnect s = if s.is_closing || is_some s.reconnect_timer then s else record s {
  reconnect_timer = some (reconnect_delay s.reconnect_attempts);
  reconnect_attempts = s.reconnect_attempts + 1;
}

abbrev pub initial : Subscription
initial = record {
  phase = starting;
  is_closing = false;
  reconnect_attempts = 0;
  reconnect_timer = none;
  awaits_token = true;
  socket = absent;
}

abbrev pub is_active : Phase → Bool
is_active active = true
is_active _ = false

-- Which callbacks can come.
abbrev pub is_enabled : Event → Subscription → Bool
is_enabled (token_arrived given) s = s.awaits_token
is_enabled token_failed s = s.awaits_token
is_enabled socket_opened s = is_opening s.socket
is_enabled confirmed s = is_open s.socket
is_enabled refused s = is_open s.socket
is_enabled socket_error s = is_live s.socket
is_enabled socket_closed s = may_close s.socket
is_enabled timer_fired s = is_some s.reconnect_timer
is_enabled unsubscribed s = is_active s.phase

-- The rest of `connect`, with a token or without.
unfoldable pub on_token : Bool → Subscription → Subscription × List Output
unfolding schedule_reconnect
on_token given s =
    if not given || s.is_closing
    then (schedule_reconnect (record s { phase = active; awaits_token = false }), status error ∷ [])
    else (record s { phase = active; awaits_token = false; socket = connecting }, [])

-- `connect().catch(…)` of the timer; the first `connect` has no `catch`.
unfoldable pub on_token_failed : Subscription → Subscription × List Output
unfolding schedule_reconnect
on_token_failed s =
    if is_active s.phase
    then (schedule_reconnect (record s { awaits_token = false }), status error ∷ [])
    else (record s { phase = failed; awaits_token = false }, [])

-- The callbacks. A message on the channel is passed on and changes nothing here.
unfoldable pub handle : Event → Subscription → Subscription × List Output
unfolding on_token on_token_failed schedule_reconnect
handle (token_arrived given) s = on_token given s
handle token_failed s = on_token_failed s
handle socket_opened s =
    if s.is_closing
    then (record s { socket = close opened }, [])
    else (record s { socket = opened }, subscribe ∷ [])
handle confirmed s = (record s { reconnect_attempts = 0 }, status connected ∷ [])
handle refused s = (s, status error ∷ [])
handle socket_error s = (s, status error ∷ [])
handle socket_closed s =
    if s.is_closing
    then (record s { socket = closed }, [])
    else (schedule_reconnect (record s { socket = closed }), status disconnected ∷ [])
handle timer_fired s = (record s { reconnect_timer = none; awaits_token = true }, [])
handle unsubscribed s = (
  record s { is_closing = true; reconnect_timer = none; socket = close s.socket },
  if is_open s.socket then unsubscribe ∷ [] else [],
)

pub data Reach : Subscription → Type 0 where
  started : Reach initial
  next : {s : Subscription} (e : Event) → Reach s → is_enabled e s ≡ true → Reach (handle e s).0
