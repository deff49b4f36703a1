-- ===== src/Realtime/Mobile.antt =====
-- `subscribeToUserMessages` of mobile/src/lib/cable.ts.
pub mod Connection
mod Tests
use csg_learning_platform.Prelude.{
  ℕ, ◌+◌, ◌*◌, ◌^◌, Bool, true, false, Option, none, some, List, [], ◌∷◌, ◌≡◌, if◌then◌else◌,
  is_some, min,
}
use csg_learning_platform.Realtime.{
  Socket, absent, connecting, opened, closed, is_live, close, is_open, is_opening, may_close,
}

pub data Status : Type 0 where
  connecting_now connected offline : Status

-- The closure's variables, and whether a `connect` waits for its token.
pub record Subscription : Type 0 where
  pub cancelled : Bool
  pub attempts : ℕ
  pub reconnect_timer : Option ℕ
  pub awaits_token : Bool
  pub socket : Socket

pub data Event : Type 0 where
  token_arrived : Event
  token_failed : Event
  socket_opened : Event
  confirmed : Event
  socket_error : Event
  socket_closed : Event
  timer_fired : Event
  unsubscribed : Event

pub data Output : Type 0 where
  status : Status → Output
  subscribe : Output
  unsubscribe : Output

-- `void connect()`
abbrev pub initial : Subscription
initial = record {
  cancelled = false;
  attempts = 0;
  reconnect_timer = none;
  awaits_token = true;
  socket = absent;
}

abbrev pub is_enabled : Event → Subscription → Bool
is_enabled token_arrived s = s.awaits_token
is_enabled token_failed s = s.awaits_token
is_enabled socket_opened s = is_opening s.socket
is_enabled confirmed s = is_open s.socket
is_enabled socket_error s = is_live s.socket
is_enabled socket_closed s = may_close s.socket
is_enabled timer_fired s = is_some s.reconnect_timer
is_enabled unsubscribed s = true

-- `Math.min(1_000 * 2 ** attempts, 30_000)`
unfoldable pub reconnect_delay : ℕ → ℕ
reconnect_delay attempts = min (1000 * 2 ^ attempts) 30000

-- `onStatus('offline'); attempts += 1; reconnectTimer = setTimeout(…)`, unless cancelled.
unfoldable pub go_offline : Subscription → Subscription × List Output
unfolding reconnect_delay
go_offline s = if s.cancelled then (s, []) else (
  record s { attempts = s.attempts + 1; reconnect_timer = some (reconnect_delay (s.attempts + 1)) },
  status offline ∷ [],
)

-- The callbacks. The variable still holds the id of a timer that has fired, which is no timer any
-- more. A message with an event is passed on and changes nothing here.
unfoldable pub handle : Event → Subscription → Subscription × List Output
unfolding go_offline
handle token_arrived s =
    if s.cancelled
    then (record s { awaits_token = false }, [])
    else (record s { awaits_token = false; socket = connecting }, [])
handle token_failed s = go_offline (record s { awaits_token = false })
handle socket_opened s = (record s { socket = opened }, subscribe ∷ [])
handle confirmed s = (record s { attempts = 0 }, status connected ∷ [])
handle socket_error s = (record s { socket = close s.socket }, [])
handle socket_closed s = go_offline (record s { socket = closed })
handle timer_fired s =
    if s.cancelled
    then (record s { reconnect_timer = none }, [])
    else (record s { reconnect_timer = none; awaits_token = true }, status connecting_now ∷ [])
handle unsubscribed s = (
  record s { cancelled = true; reconnect_timer = none; socket = close s.socket },
  if is_open s.socket then unsubscribe ∷ [] else [],
)

pub data Reach : Subscription → Type 0 where
  started : Reach initial
  next : {s : Subscription} (e : Event) → Reach s → is_enabled e s ≡ true → Reach (handle e s).0
