-- ===== src/Realtime.antt =====
-- The connections for live events: web/src/lib/realtime.ts and mobile/src/lib/cable.ts. Each is a
-- machine whose steps are the callbacks of a socket, of a timer and of the request for a token.
pub mod Web
pub mod Mobile
use csg_learning_platform.Prelude.{ℕ, Bool, true, false, Option, none, some}

-- `socket`, by its `readyState`: not made, CONNECTING, OPEN, CLOSING and CLOSED.
pub data Socket : Type 0 where
  absent connecting opened closing closed : Socket

abbrev pub is_live : Socket → Bool
is_live connecting = true
is_live opened = true
is_live _ = false

-- `socket?.close()`
abbrev pub close : Socket → Socket
close connecting = closing
close opened = closing
close s = s

abbrev pub is_open : Socket → Bool
is_open opened = true
is_open _ = false

abbrev pub is_opening : Socket → Bool
is_opening connecting = true
is_opening _ = false

-- A close event comes once, from a socket that is not closed yet.
abbrev pub may_close : Socket → Bool
may_close absent = false
may_close closed = false
may_close _ = true

abbrev pub one : Bool → ℕ
one true = 1
one false = 0
