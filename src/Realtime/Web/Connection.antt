-- ===== src/Realtime/Web/Connection.antt =====
-- What `subscribe` of web/src/lib/realtime.ts keeps up, and what it leaves when it ends.
use csg_learning_platform.Prelude.{
  ℕ, zero, suc, ◌+◌, ◌≤◌, Bool, true, false, not, ◌&&◌, Option, none, some, ◌≡◌, refl, arith,
  if◌then◌else◌, is_some, nat_beq, leb, any,
}
use csg_learning_platform.Realtime.{Socket, absent, closing, is_live, one}
use csg_learning_platform.Realtime.Web.{
  active, is_active, Subscription, Event, token_arrived, token_failed, socket_opened, confirmed,
  refused, socket_error, socket_closed, timer_fired, unsubscribed, Output, subscribe,
  reconnect_delay, schedule_reconnect, is_enabled, on_token, on_token_failed, handle, Reach,
  started, next,
}

abbrev is_shutting : Socket → Bool
is_shutting closing = true
is_shutting _ = false

abbrev is_absent : Socket → Bool
is_absent absent = true
is_absent _ = false

-- The ways in which a subscription can come back to the server.
abbrev pub ways : Subscription → ℕ
ways s = one s.awaits_token + one (is_some s.reconnect_timer) + one (is_live s.socket)

abbrev in_range : Option ℕ → Bool
in_range none = true
in_range (some d) = leb 1000 d && leb d 10000

-- The state while it is subscribed, after it unsubscribed, and before it is set up.
abbrev is_sound : Subscription → Bool
is_sound s =
    in_range s.reconnect_timer
    && (if s.is_closing
        then is_active s.phase && not (is_some s.reconnect_timer) && not (is_live s.socket)
        else if is_active s.phase
        then nat_beq (ways s) 1 && not (is_shutting s.socket)
        else not (is_some s.reconnect_timer) && is_absent s.socket)

delay-in_range : (n : ℕ) → in_range (some (reconnect_delay n)) ≡ true
unfolding reconnect_delay
delay-in_range zero = refl
delay-in_range (suc zero) = refl
delay-in_range (suc (suc zero)) = refl
delay-in_range (suc (suc (suc n))) = refl

handle-is_sound :
    (e : Event) (s : Subscription)
    → is_enabled e s ≡ true
    → is_sound s ≡ true
    → is_sound (handle e s).0 ≡ true
unfolding handle on_token on_token_failed schedule_reconnect
handle-is_sound (token_arrived given) s h k = ground (arith, delay-in_range s.reconnect_attempts)
handle-is_sound token_failed s h k = ground (arith, delay-in_range s.reconnect_attempts)
handle-is_sound socket_opened s h k = ground arith
handle-is_sound confirmed s h k = ground arith
handle-is_sound refused s h k = ground arith
handle-is_sound socket_error s h k = ground arith
handle-is_sound socket_closed s h k = ground (arith, delay-in_range s.reconnect_attempts)
handle-is_sound timer_fired s h k = ground arith
handle-is_sound unsubscribed s h k = ground arith

Reach-is_sound : {s : Subscription} → Reach s → is_sound s ≡ true
Reach-is_sound started = refl
Reach-is_sound (next e r h) = handle-is_sound e _ h (Reach-is_sound r)

-- In every state that callbacks can lead to: a subscription that has been set up and not ended has
-- exactly one way back to the server, a request for a token, a timer or a socket that is not closed;
-- one that was ended has neither a timer nor such a socket; and a timer waits between 1 and 10 seconds.
pub connection_sound :
    {s : Subscription}
    → Reach s
    → (s.phase ≡ active → s.is_closing ≡ false → ways s ≡ 1)
      × (s.is_closing ≡ true → (s.reconnect_timer ≡ none) × (is_live s.socket ≡ false))
      × ((delay : ℕ) → s.reconnect_timer ≡ some delay → (1000 ≤ delay) × (delay ≤ 10000))
connection_sound {s} r =
    let sound : is_sound s ≡ true = Reach-is_sound r in
    (
      λ a c. ground (arith, a),
      λ c. (timer_off sound c, ground arith),
      λ delay t. (ground arith, ground arith),
    )
  where
    timer_off : is_sound s ≡ true → s.is_closing ≡ true → s.reconnect_timer ≡ none
    timer_off sound c = ground arith

abbrev pub is_subscribe : Output → Bool
is_subscribe subscribe = true
is_subscribe _ = false

handle-is_closing :
    (e : Event) (s : Subscription) → s.is_closing ≡ true → (handle e s).0.is_closing ≡ true
unfolding handle on_token on_token_failed schedule_reconnect
handle-is_closing (token_arrived given) s c = ground arith
handle-is_closing token_failed s c = ground arith
handle-is_closing socket_opened s c = ground arith
handle-is_closing confirmed s c = c
handle-is_closing refused s c = c
handle-is_closing socket_error s c = c
handle-is_closing socket_closed s c = ground arith
handle-is_closing timer_fired s c = c
handle-is_closing unsubscribed s c = refl

handle_silent :
    (e : Event) (s : Subscription) → s.is_closing ≡ true → any is_subscribe (handle e s).1 ≡ false
unfolding handle on_token on_token_failed
handle_silent (token_arrived given) s c = ground arith
handle_silent token_failed s c = ground arith
handle_silent socket_opened s c = ground arith
handle_silent confirmed s c = refl
handle_silent refused s c = refl
handle_silent socket_error s c = refl
handle_silent socket_closed s c = ground arith
handle_silent timer_fired s c = refl
handle_silent unsubscribed s c = ground arith

-- After `unsubscribe`, whatever callback comes, the subscription stays ended, no socket is opened, no
-- timer is set, and no command to subscribe is sent.
unsubscribe_final :
    {s : Subscription} (e : Event)
    → Reach s
    → s.is_closing ≡ true
    → is_enabled e s ≡ true
    → ((handle e s).0.is_closing ≡ true)
      × (is_live (handle e s).0.socket ≡ false)
      × ((handle e s).0.reconnect_timer ≡ none)
      × (any is_subscribe (handle e s).1 ≡ false)
unsubscribe_final {s} e r c h =
    let stays : (handle e s).0.is_closing ≡ true = handle-is_closing e s c in
    let (timer, live) = (connection_sound (next e r h)).1 stays in
    (stays, live, timer, handle_silent e s c)
