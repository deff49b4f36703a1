-- ===== src/WebApi/Requests.antt =====
-- Which requests `fetchApi` of web/src/lib/api.ts sends.
use mathlib.Core.Path.{subst}
use csg_learning_platform.Prelude.{
  ℕ, zero, suc, ◌+◌, ◌<◌, ◌≤◌, Bool, true, false, not, ◌&&◌, ◌||◌, sym, Option, none, some, List,
  [], ◌∷◌, ◌≡◌, ◌≢◌, refl, arith, if◌then◌else◌, nat_beq, length,
}
use csg_learning_platform.WebApi.{ApiResponse, Outcome, responded, rejected, Platform}
use csg_learning_platform.WebApi.Cache.{Store}
use csg_learning_platform.WebApi.Fetch.{
  can_retry, max_attempts, Sent, Request, Network, resolved, threw, fell_through, Step, TokenResult,
  done, retry, settle, on_error, on_failure, prepare, attempts, fetch_api, Run, logged, launch,
  after,
}

abbrev pub is_unauthorized : Outcome → Bool
is_unauthorized (responded r) = nat_beq r.status 401
is_unauthorized (rejected f) = false

abbrev pub Log : Type 0
Log = List (Sent × Outcome)

-- To prove a property of one attempt: for each way it can end or go on.
pub launch_elim {ℓ} :
    (P : Run → Type ℓ) (ready : Option Sent) (send : Sent → Outcome) (judge : Outcome → Step)
    (store : Store) (next : Bool → Bool → Run)
    → P (threw, store, [])
    → ((sent : Sent) (r : ApiResponse) (store' : Store)
        → ready ≡ some sent
        → judge (send sent) ≡ done r store'
        → P (resolved r, store', (sent, send sent) ∷ []))
    → ((sent : Sent) (force did : Bool)
        → ready ≡ some sent
        → judge (send sent) ≡ retry force did
        → P (logged sent (send sent) (next force did)))
    → P (launch ready send judge store next)
unfolding launch
launch_elim P none send judge store next t d r = t
launch_elim P (some sent) send judge store next t d r = go (judge (send sent)) refl
  where
    go : (s : Step) → judge (send sent) ≡ s → P (after sent (send sent) s next)
    go (done response store') e = d sent response store' refl e
    go (retry force did) e = r sent force did refl e

module _ (p : Platform) (req : Request) where
  -- A further attempt is made only below the limit.
  settle-retry_lt :
      (attempt : ℕ) (did : Bool) (store : Store) (o : Outcome) (force did' : Bool)
      → settle p req attempt did store o ≡ retry force did'
      → attempt < max_attempts req.method
  unfolding settle on_error on_failure
  settle-retry_lt attempt did store o force did' e = ground arith

  -- Where requests may not be repeated, a further attempt follows a 401 only, and only once.
  settle-retry_once :
      (attempt : ℕ) (did : Bool) (store : Store) (o : Outcome) (force did' : Bool)
      → can_retry req.method ≡ false
      → settle p req attempt did store o ≡ retry force did'
      → (is_unauthorized o ≡ true) × (did ≡ false) × (did' ≡ true)
  unfolding settle on_error on_failure
  settle-retry_once attempt did store o force did' once e = ground arith

  -- A fresh token is asked for exactly after the first 401.
  settle-retry_force :
      (attempt : ℕ) (did : Bool) (store : Store) (o : Outcome) (force did' : Bool)
      → settle p req attempt did store o ≡ retry force did'
      → (force ≡ (is_unauthorized o && not did)) × (did' ≡ (if force then true else did))
  unfolding settle on_error on_failure
  settle-retry_force attempt did store o force did' e = ground arith

  module _ (net : Network) where
    some_attempts : 1 ≤ max_attempts req.method
    some_attempts = ground arith

    attempts_settle_next :
        (left attempt : ℕ) (force did : Bool) (store : Store)
        → attempt + left ≡ max_attempts req.method + 1
        → attempt ≤ max_attempts req.method
        → (attempts p req net left attempt force did store).0 ≢ fell_through
    unfolding attempts
    attempts_settle_next zero attempt force did store e h = absurd (omega arith)
    attempts_settle_next (suc left) attempt force did store e h =
        launch_elim (λ run. run.0 ≢ fell_through) (prepare p req net force) (net.fetch attempt)
          (settle p req attempt did store) store _ (λ q. cc) (λ sent r store' _ _ q. cc)
          (λ sent force' did' _ again.
            attempts_settle_next left (attempt + 1) force' did' store (omega arith) (
              omega (
                arith,
                settle-retry_lt attempt did store (net.fetch attempt sent) force' did' again,
              )))

    -- The call never reaches the statement behind its loop: it ends inside it, with a response or by
    -- the token getter's rejection.
    pub fetch_api_settles : (store : Store) → (fetch_api p req net store).0 ≢ fell_through
    unfolding fetch_api
    fetch_api_settles store =
        attempts_settle_next (max_attempts req.method) 1 false false store
          (omega (arith, some_attempts)) some_attempts

    attempts_bounded :
        (left attempt : ℕ) (force did : Bool) (store : Store)
        → length (attempts p req net left attempt force did store).2 ≤ left
    unfolding attempts
    attempts_bounded zero attempt force did store = omega arith
    attempts_bounded (suc left) attempt force did store =
        launch_elim (λ run. length run.2 ≤ suc left) (prepare p req net force) (net.fetch attempt)
          (settle p req attempt did store) store _ (omega arith) (λ sent r store' _ _. omega arith)
          (λ sent force' did' _ _.
            omega (arith, attempts_bounded left (attempt + 1) force' did' store))

-- A log of a method that may not be repeated: one request, or two where the first met a 401.
abbrev pub OnlyAfter401 : Log → Type 0
OnlyAfter401 [] = Unit
OnlyAfter401 (x ∷ []) = Unit
OnlyAfter401 (x ∷ y ∷ []) = is_unauthorized x.1 ≡ true
OnlyAfter401 (x ∷ y ∷ z ∷ log) = ⊥

two_requests :
    (x : Sent × Outcome) (log : Log)
    → is_unauthorized x.1 ≡ true
    → length log ≤ 1
    → OnlyAfter401 (x ∷ log)
two_requests x [] u h = tt
two_requests x (y ∷ []) u h = u
two_requests x (y ∷ z ∷ log) u h = absurd (omega arith)

-- The bearer of each request: a fresh token was asked for exactly if the request before it met the
-- first 401.
abbrev pub RefreshesOnce : (expected did : Bool) → Log → Type 0
RefreshesOnce expected did [] = Unit
RefreshesOnce expected did ((sent, outcome) ∷ log) =
    (sent.forced ≡ expected)
    × RefreshesOnce (is_unauthorized outcome && not did) (is_unauthorized outcome || did) log

module _ (p : Platform) (req : Request) (net : Network) where
  last_request :
      (left attempt : ℕ) (force : Bool) (store : Store)
      → can_retry req.method ≡ false
      → length (attempts p req net left attempt force true store).2 ≤ 1
  unfolding attempts
  last_request zero attempt force store once = omega arith
  last_request (suc left) attempt force store once =
      launch_elim (λ run. length run.2 ≤ 1) (prepare p req net force) (net.fetch attempt)
        (settle p req attempt true store) store _ (omega arith) (λ sent r store' _ _. omega arith)
        (λ sent force' did' _ again. absurd (
          spent
            (settle-retry_once p req attempt true store (net.fetch attempt sent) force' did' once
              again).1))
    where
      spent : true ≡ false → ⊥
      spent e = cc

  only_after_401 :
      (left attempt : ℕ) (force : Bool) (store : Store)
      → can_retry req.method ≡ false
      → OnlyAfter401 (attempts p req net left attempt force false store).2
  unfolding attempts
  only_after_401 zero attempt force store once = tt
  only_after_401 (suc left) attempt force store once =
      launch_elim (λ run. OnlyAfter401 run.2) (prepare p req net force) (net.fetch attempt)
        (settle p req attempt false store) store _ tt (λ sent r store' _ _. tt)
        (λ sent force' did' _ again.
          let (met, _, spent) =
            settle-retry_once p req attempt false store (net.fetch attempt sent) force' did' once
              again in
          two_requests (sent, net.fetch attempt sent)
            (attempts p req net left (attempt + 1) force' did' store).2 met
            (subst (λ d. length (attempts p req net left (attempt + 1) force' d store).2 ≤ 1)
              (sym spent) (last_request left (attempt + 1) force' store once)))

  -- A request of a method other than GET and HEAD is sent once; it is sent a second time only if the
  -- first one was answered 401, and never a third time.
  pub fetch_api-OnlyAfter401 :
      (store : Store) → can_retry req.method ≡ false → OnlyAfter401 (fetch_api p req net store).2
  unfolding fetch_api
  fetch_api-OnlyAfter401 store once = only_after_401 (max_attempts req.method) 1 false store once

  refreshes_once :
      (left attempt : ℕ) (force did : Bool) (store : Store) (getter : Bool → TokenResult)
      → req.require_auth ≡ true
      → net.get_auth_token ≡ some getter
      → RefreshesOnce force did (attempts p req net left attempt force did store).2
  unfolding attempts
  refreshes_once zero attempt force did store getter auth set = tt
  refreshes_once (suc left) attempt force did store getter auth set =
      launch_elim (λ run. RefreshesOnce force did run.2) (prepare p req net force)
        (net.fetch attempt) (settle p req attempt did store) store _ tt
        (λ sent r store' ready _. (forced sent ready, tt))
        (λ sent force' did' ready again. (
          forced sent ready,
          next sent force' did' again
              (refreshes_once left (attempt + 1) force' did' store getter auth set),
        ))
    where
      forced : (sent : Sent) → prepare p req net force ≡ some sent → sent.forced ≡ force
      forced sent ready = ground arith

      next :
          (sent : Sent) (force' did' : Bool)
          → settle p req attempt did store (net.fetch attempt sent) ≡ retry force' did'
          → RefreshesOnce force' did' (attempts p req net left (attempt + 1) force' did' store).2
          → RefreshesOnce
              (is_unauthorized (net.fetch attempt sent) && not did)
              (is_unauthorized (net.fetch attempt sent) || did)
              (attempts p req net left (attempt + 1) force' did' store).2
      next sent force' did' again h =
          let (f, d) =
            settle-retry_force p req attempt did store (net.fetch attempt sent) force' did' again in
          let d' : did' ≡ (is_unauthorized (net.fetch attempt sent) || did) = ground arith in
          rw (← f, ← d') h

  -- Of a call with a token getter, which sends at most three requests: a fresh token is asked for by
  -- the request after the first 401, and by no other.
  fetch_api-RefreshesOnce :
      (store : Store) (getter : Bool → TokenResult)
      → req.require_auth ≡ true
      → net.get_auth_token ≡ some getter
      → RefreshesOnce false false (fetch_api p req net store).2
        × (length (fetch_api p req net store).2 ≤ 3)
  unfolding fetch_api
  fetch_api-RefreshesOnce store getter auth set =
      (refreshes_once (max_attempts req.method) 1 false false store getter auth set, three)
    where
      three : length (attempts p req net (max_attempts req.method) 1 false false store).2 ≤ 3
      three =
          ground (arith, attempts_bounded p req net (max_attempts req.method) 1 false false store)
