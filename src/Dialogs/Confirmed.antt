-- ===== src/Dialogs/Confirmed.antt =====
-- Every request for a confirmation (web/src/contexts/ConfirmContext.tsx) is answered once at most.
use csg_learning_platform.Prelude.{
  ℕ, suc, Bool, true, false, not, ◌&&◌, Option, none, some, List, [], ◌∷◌, ◌≡◌, refl, arith,
  nat_beq, nat_eq, ltb, is_some, if◌then◌else◌, Bool-cases, inl, inr,
}
use csg_learning_platform.Prelude.Text.{Text}
use csg_learning_platform.Prelude.Keyed.{has_key, UniqueKeys}
use csg_learning_platform.Dialogs.{
  Confirm, no_request, resolve, request_confirm, finish, is_disabled, ConfirmEvent, asked, typed,
  cancelled, confirmed, confirm_step, confirm_run, ConfirmOptions,
}

abbrev pub promise_of : ℕ × Bool → ℕ
promise_of (n, b) = n

abbrev is_open : ℕ → Option ℕ → Bool
is_open n none = false
is_open n (some m) = nat_beq m n

-- The promise n was made, and is answered unless it is the one that is open, which is not.
abbrev pub is_accounted : ℕ → Confirm → Bool
is_accounted n w =
    if ltb n w.requests
    then if is_open n w.resolver
      then not (has_key promise_of n w.answers)
      else has_key promise_of n w.answers
    else not (is_open n w.resolver) && not (has_key promise_of n w.answers)

abbrev pub IsAccounted : Confirm → Type 0
IsAccounted w =
    (((n : ℕ) → is_accounted n w ≡ true) × UniqueKeys promise_of w.answers)
    × (is_some w.options ≡ is_some w.resolver)

-- The same of the parts that an event changes.
abbrev accounted : (requests : ℕ) → Option ℕ → List (ℕ × Bool) → ℕ → Bool
accounted requests waiting answers n =
    if ltb n requests
    then if is_open n waiting
      then not (has_key promise_of n answers)
      else has_key promise_of n answers
    else not (is_open n waiting) && not (has_key promise_of n answers)

finish_accounted :
    (requests : ℕ) (waiting : Option ℕ) (answers : List (ℕ × Bool)) (b : Bool) (n : ℕ)
    → ((k : ℕ) → accounted requests waiting answers k ≡ true)
    → accounted requests none (resolve waiting b answers) n ≡ true
finish_accounted requests none answers b n h = h n
finish_accounted requests (some m) answers b n h = ground (arith, h n, h m)

ask_accounted :
    (requests : ℕ) (answers : List (ℕ × Bool)) (n : ℕ)
    → ((k : ℕ) → accounted requests none answers k ≡ true)
    → accounted (suc requests) (some requests) answers n ≡ true
ask_accounted requests answers n h = ground (arith, h n)

resolve_unique :
    (requests : ℕ) (waiting : Option ℕ) (answers : List (ℕ × Bool)) (b : Bool)
    → ((k : ℕ) → accounted requests waiting answers k ≡ true)
    → UniqueKeys promise_of answers
    → UniqueKeys promise_of (resolve waiting b answers)
resolve_unique requests none answers b h u = u
resolve_unique requests (some m) answers b h u = (ground (arith, h m), u)

finish-IsAccounted : (b : Bool) (w : Confirm) → IsAccounted w → IsAccounted (finish b w)
unfolding finish
finish-IsAccounted b w ((h, u), o) = (
  (
    λ n. finish_accounted w.requests w.resolver w.answers b n h,
    resolve_unique w.requests w.resolver w.answers b h u,
  ),
  refl,
)

request-IsAccounted :
    (options : ConfirmOptions) (w : Confirm)
    → IsAccounted w
    → IsAccounted (request_confirm options w)
unfolding request_confirm
request-IsAccounted options w ((h, u), o) = (
  (
    λ n.
        ask_accounted w.requests (resolve w.resolver false w.answers) n
          (λ k. finish_accounted w.requests w.resolver w.answers false k h),
    resolve_unique w.requests w.resolver w.answers false h u,
  ),
  refl,
)

confirm_step-IsAccounted :
    (lower : Text → Text) (e : ConfirmEvent) (w : Confirm)
    → IsAccounted w
    → IsAccounted (confirm_step lower e w)
unfolding confirm_step
confirm_step-IsAccounted lower (asked options) w h = request-IsAccounted options w h
confirm_step-IsAccounted lower (typed value) w h = h
confirm_step-IsAccounted lower cancelled w h = finish-IsAccounted false w h
confirm_step-IsAccounted lower confirmed w h =
    elim (Bool-cases (is_disabled lower w.confirmation_value w.options)) [
      | inl e ↦ rw e h
      | inr e ↦ rw e (finish-IsAccounted true w h)
    ]

IsAccounted-confirm_run :
    (lower : Text → Text) (es : List ConfirmEvent) (w : Confirm)
    → IsAccounted w
    → IsAccounted (confirm_run lower es w)
unfolding confirm_run
IsAccounted-confirm_run lower [] w h = h
IsAccounted-confirm_run lower (e ∷ es) w h =
    IsAccounted-confirm_run lower es (confirm_step lower e w) (confirm_step-IsAccounted lower e w h)

-- After any events every promise that was made has exactly one answer, but for the one whose dialog is open,
-- which has none; no other promise is answered, and the dialog is open exactly while a promise waits.
pub confirm_run-IsAccounted :
    (lower : Text → Text) (es : List ConfirmEvent) → IsAccounted (confirm_run lower es no_request)
confirm_run-IsAccounted lower es =
    IsAccounted-confirm_run lower es no_request ((λ n. ground arith, tt), refl)
