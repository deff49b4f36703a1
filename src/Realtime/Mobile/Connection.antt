-- ===== src/Realtime/Mobile/Connection.antt =====
-- What `subscribeToUserMessages` of mobile/src/lib/cable.ts keeps up, and what it leaves.
use native.Mathlib.Nat.{one-le-pow, pow-suc}
use csg_learning_platform.Prelude.{
  ℕ, suc, ◌+◌, ◌*◌, ◌^◌, ◌≤◌, Bool, true, false, not, ◌&&◌, ◌||◌, Option, none, some, ◌≡◌, refl,
  arith, if◌then◌else◌, is_some, nat_beq, leb,
}
use csg_learning_platform.Realtime.{Socket, closing, is_live, one}
use csg_learning_platform.Realtime.Mobile.{
  Subscription, Event, token_arrived, token_failed, socket_opened, confirmed, socket_error,
  socket_closed, timer_fired, unsubscribed, reconnect_delay, go_offline, is_enabled, handle, Reach,
  started, next,
}

-- A socket that will still report that it closed.
abbrev is_closing : Socket → Bool
is_closing closing = true
is_closing s = false

abbrev pub ways : Subscription → ℕ
ways s =
    one s.awaits_token
    + one (is_some s.reconnect_timer)
    + one (is_live s.socket || is_closing s.socket)

abbrev in_range : Option ℕ → Bool
in_range none = true
in_range (some d) = leb 2000 d && leb d 30000

abbrev is_sound : Subscription → Bool
is_sound s =
    in_range s.reconnect_timer
    && (if s.cancelled
        then not (is_some s.reconnect_timer) && not (is_live s.socket)
        else nat_beq (ways s) 1)

delay-in_range : (n : ℕ) → in_range (some (reconnect_delay (n + 1))) ≡ true
unfolding reconnect_delay
delay-in_range n =
    let e : 2 ^ (n + 1) ≡ 2 ^ n * 2 = rw (same n) (pow-suc 2 n) in
    ground (arith, one-le-pow n 2 (omega arith), e)
  where
    same : (k : ℕ) → k + 1 ≡ suc k
    same k = omega arith

handle-is_sound :
    (e : Event) (s : Subscription)
    → is_enabled e s ≡ true
    → is_sound s ≡ true
    → is_sound (handle e s).0 ≡ true
unfolding handle go_offline
handle-is_sound token_arrived s h k = ground arith
handle-is_sound token_failed s h k = ground (arith, delay-in_range s.attempts)
handle-is_sound socket_opened s h k = ground arith
handle-is_sound confirmed s h k = ground arith
handle-is_sound socket_error s h k = ground arith
handle-is_sound socket_closed s h k = ground (arith, delay-in_range s.attempts)
handle-is_sound timer_fired s h k = ground arith
handle-is_sound unsubscribed s h k = ground arith

Reach-is_sound : {s : Subscription} → Reach s → is_sound s ≡ true
Reach-is_sound started = refl
Reach-is_sound (next e r h) = handle-is_sound e _ h (Reach-is_sound r)

-- In every state that callbacks can lead to: a subscription that was not cancelled has exactly one way
-- back to the server, a request for a token, a timer or a socket that has still to close; a cancelled
-- one has neither a timer nor an open socket; and a timer waits between 2 and 30 seconds.
pub cable_sound :
    {s : Subscription}
    → Reach s
    → (s.cancelled ≡ false → ways s ≡ 1)
      × (s.cancelled ≡ true → (s.reconnect_timer ≡ none) × (is_live s.socket ≡ false))
      × ((delay : ℕ) → s.reconnect_timer ≡ some delay → (2000 ≤ delay) × (delay ≤ 30000))
cable_sound {s} r =
    let sound : is_sound s ≡ true = Reach-is_sound r in
    (
      λ c. ground arith,
      λ c. (timer_off sound c, ground arith),
      λ delay t. (ground arith, ground arith),
    )
  where
    timer_off : is_sound s ≡ true → s.cancelled ≡ true → s.reconnect_timer ≡ none
    timer_off sound c = ground arith
