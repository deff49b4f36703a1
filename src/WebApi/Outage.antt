-- ===== src/WebApi/Outage.antt =====
-- `fetchApi` of web/src/lib/api.ts while the server does not answer.
use csg_learning_platform.Prelude.{
  ℕ, zero, suc, ◌+◌, ◌<◌, Bool, true, false, some, ◌≡◌, refl, arith, length, is_some, ap,
}
use csg_learning_platform.WebApi.{Outcome, responded, rejected, Platform, ApiResponse, is_retryable}
use csg_learning_platform.WebApi.Cache.{Store}
use csg_learning_platform.WebApi.Fetch.{
  is_get, can_retry, max_attempts, Sent, Request, Network, resolved, done, retry, settle, on_error,
  on_failure, prepare, attempts, fetch_api, Run, logged, launch, can_use_cache, cached,
  failure_response, error_response,
}

-- No answer, or one that says to try again later.
abbrev pub is_transient : Outcome → Bool
is_transient (rejected f) = true
is_transient (responded response) = is_retryable response.status

module _ (p : Platform) (req : Request) where
  -- The run ended with the cached content, after the given number of requests.
  abbrev pub ServedFromCache : Store → ApiResponse → ℕ → Run → Type 0
  ServedFromCache store c n run =
      (r : ApiResponse) × (run ≡ (resolved r, store, run.2))
      × (r.content ≡ c.content)
      × (r.from_cache ≡ c.from_cache)
      × (is_some r.error ≡ true)
      × (length run.2 ≡ n)

  transient_again :
      (attempt : ℕ) (did : Bool) (store : Store) (o : Outcome)
      → can_retry req.method ≡ true
      → attempt < 3
      → is_transient o ≡ true
      → settle p req attempt did store o ≡ retry false did
  unfolding settle on_error on_failure
  transient_again attempt did store (rejected f) may h t = ground arith
  transient_again attempt did store (responded r) may h t = ground arith

  transient_last :
      (attempt : ℕ) (did : Bool) (store : Store) (o : Outcome) (c : ApiResponse)
      → attempt ≡ 3
      → can_retry req.method ≡ true
      → can_use_cache p req ≡ true
      → cached p req store ≡ some c
      → is_transient o ≡ true
      → (r : ApiResponse) × (settle p req attempt did store o ≡ done r store)
        × (r.content ≡ c.content)
        × (r.from_cache ≡ c.from_cache)
        × (is_some r.error ≡ true)
  unfolding settle on_error on_failure
  transient_last attempt did store (rejected f) c end may served found t =
      (failure_response p req f (some c), ground arith, refl, refl, refl)
  transient_last attempt did store (responded r) c end may served found t =
      (error_response p req (some c) r, ground arith, refl, refl, refl)

  module _ (net : Network) (store : Store) (c : ApiResponse) (may : can_retry req.method ≡ true)
      (served : can_use_cache p req ≡ true) (found : cached p req store ≡ some c)
      (ready : (force : Bool) → (sent : Sent) × (prepare p req net force ≡ some sent))
      (down : (n : ℕ) (sent : Sent) → is_transient (net.fetch n sent) ≡ true) where
    outage_attempts :
        (left attempt : ℕ) (force did : Bool)
        → attempt + left ≡ 3
        → ServedFromCache store c (suc left) (attempts p req net (suc left) attempt force did store)
    unfolding attempts launch
    outage_attempts zero attempt force did e =
        let (sent, set) = ready force in
        let (r, last, same, from, failed) =
          transient_last attempt did store (net.fetch attempt sent) c (omega arith) may served found
            (down attempt sent) in
        rw set (rw last (r, refl, same, from, failed, refl))
    outage_attempts (suc left) attempt force did e =
        let (sent, set) = ready force in
        let again =
          transient_again attempt did store (net.fetch attempt sent) may (omega arith)
            (down attempt sent) in
        let (r, run, same, from, failed, count) =
          outage_attempts left (attempt + 1) false did (omega arith) in
        rw set (
          rw again
            (r, ap (logged sent (net.fetch attempt sent)) run, same, from, failed, ap suc count))

  -- While every request of an authenticated GET fails for a passing reason, and the cache holds a
  -- response, the call sends three requests and then resolves to the cached content, marked as
  -- cached and with an error; the cache is left as it was.
  pub fetch_api_outage :
      (net : Network) (store : Store) (c : ApiResponse)
      → is_get req.method ≡ true
      → can_use_cache p req ≡ true
      → cached p req store ≡ some c
      → ((force : Bool) → (sent : Sent) × (prepare p req net force ≡ some sent))
      → ((n : ℕ) (sent : Sent) → is_transient (net.fetch n sent) ≡ true)
      → ServedFromCache store c 3 (fetch_api p req net store)
  unfolding fetch_api
  fetch_api_outage net store c reads served found ready down =
      let three : max_attempts req.method ≡ 3 = ground arith in
      rw three
        (outage_attempts net store c (ground arith) served found ready down 2 1 false false refl)
