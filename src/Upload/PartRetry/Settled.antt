-- ===== src/Upload/PartRetry/Settled.antt =====
-- What `uploadPartWithRetry` (web/src/lib/uploadToS3.ts) settles to, and after which attempts and pauses.
use csg_learning_platform.Prelude.{
  ℕ, zero, suc, ◌+◌, ◌≤◌, ◌<◌, Bool, true, false, ◌&&◌, List, [], ◌∷◌, ◌++◌, ◌≡◌, refl, arith, ◌⊎◌,
  inl, inr, sym, ltb, Bool-cases,
}
use csg_learning_platform.Prelude.Text.{Text}
use csg_learning_platform.Upload.Mobile.{Result, ok, err}
use csg_learning_platform.Upload.PartRetry.{
  Attempt, pause, part_failure, multipart_max_attempts, on_part_error, try_upload, retry_upload,
  upload_part_with_retry,
}

abbrev is_failure : Result Text → Bool
is_failure (ok etag) = false
is_failure (err e) = true

-- Each of the first n attempts failed.
unfoldable pub all_failed : (ℕ → Attempt) → ℕ → Bool
all_failed w zero = true
all_failed w (suc n) = let before = all_failed w n in is_failure (try_upload (w (suc n))) && before

-- The pauses after the first n attempts.
unfoldable pub pauses : ℕ → List ℕ
pauses zero = []
pauses (suc n) = let before = pauses n in before ++ pause (suc n) ∷ []

-- Why no further attempt follows the n + 1 that failed.
abbrev pub IsOver : (ℕ → Attempt) → ℕ → ℕ → Text → List ℕ → Type 0
IsOver w number n e log =
    (((w (suc n)).aborted_in_catch ≡ true) × (log ≡ pauses n))
    ⊎ (((n < 3) × (((w (suc n)).aborted_in_wait ≡ true) × (log ≡ pauses (suc n))))
        ⊎ ((n ≡ 3) × ((log ≡ pauses 3) × ((last : Text) × (e ≡ part_failure number last)))))

abbrev pub IsSettled : (ℕ → Attempt) → ℕ → Result Text × List ℕ → Type 0
IsSettled w number (ok etag, log) =
    (n : ℕ) × (n ≤ 3)
    × (all_failed w n ≡ true)
    × (try_upload (w (suc n)) ≡ ok etag)
    × (log ≡ pauses n)
IsSettled w number (err e, log) =
    (n : ℕ) × (n ≤ 3) × (all_failed w (suc n) ≡ true) × IsOver w number n e log

all_failed-step :
    (w : ℕ → Attempt) (n : ℕ) (e : Text)
    → all_failed w n ≡ true
    → try_upload (w (suc n)) ≡ err e
    → all_failed w (suc n) ≡ true
unfolding all_failed
all_failed-step w n e before h = rw h before

pauses-step : (n : ℕ) (log : List ℕ) → log ≡ pauses n → log ++ pause (suc n) ∷ [] ≡ pauses (suc n)
unfolding pauses
pauses-step n log h = rw h refl

abbrev IsLater : (ℕ → Attempt) → ℕ → ℕ → (List ℕ → Text → Result Text × List ℕ) → Type 0
IsLater w number n next =
    (log : List ℕ) (e : Text)
    → n < 3
    → all_failed w (suc n) ≡ true
    → log ≡ pauses (suc n)
    → IsSettled w number (next log e)

-- One round of the loop, the last one included.
on_part_error-IsSettled :
    (w : ℕ → Attempt) (number n : ℕ) (log : List ℕ) (next : List ℕ → Text → Result Text × List ℕ)
    (r : Result Text)
    → n ≤ 3
    → all_failed w n ≡ true
    → log ≡ pauses n
    → try_upload (w (suc n)) ≡ r
    → IsLater w number n next
    → ((e : Text) → n ≡ 3 → next log e ≡ (err (part_failure number e), log))
    → IsSettled w number (on_part_error (w (suc n)) (suc n) log next r)
on_part_error-IsSettled w number n log next (ok etag) few before waits h later last =
    (n, few, before, h, waits)
on_part_error-IsSettled w number n log next (err e) few before waits h later last =
    let failed = all_failed-step w n e before h in
    elim (Bool-cases ((w (suc n)).aborted_in_catch)) [
      | inl a ↦ rw a (n, few, failed, inl (a, waits))
      | inr a ↦ elim (Bool-cases (ltb (suc n) multipart_max_attempts)) [
        | inl l ↦ elim (Bool-cases ((w (suc n)).aborted_in_wait)) [
          | inl b ↦ rw a (
              rw l (
                rw b (n, few, failed, inr (inl (ground (arith, l), (b, pauses-step n log waits))))))
          | inr b ↦
              rw a (rw l (rw b (later _ e (ground (arith, l)) failed (pauses-step n log waits))))
        ]
        | inr l ↦ rw a (
            rw l (
              rw (last e (ground (arith, l, few))) (
                n,
                few,
                failed,
                inr (inr (ground (arith, l, few), (three (ground (arith, l, few)), (e, refl)))),
              )))
      ]
    ]
  where
    three : n ≡ 3 → log ≡ pauses 3
    three h = rw (sym h) waits

retry_upload-IsSettled :
    (w : ℕ → Attempt) (number left n : ℕ) (log : List ℕ) (e : Text)
    → n + left ≡ 3
    → all_failed w n ≡ true
    → log ≡ pauses n
    → IsSettled w number (retry_upload w number (suc left) (suc n) log e)
unfolding retry_upload
retry_upload-IsSettled w number zero n log e sum before waits =
    on_part_error-IsSettled w number n log
      (λ log' e'. retry_upload w number zero (suc (suc n)) log' e') _ (omega (arith, sum)) before
      waits refl (λ log' e' l. absurd (omega (arith, sum, l))) (λ e' h. refl)
retry_upload-IsSettled w number (suc left) n log e sum before waits =
    on_part_error-IsSettled w number n log
      (λ log' e'. retry_upload w number (suc left) (suc (suc n)) log' e') _ (omega (arith, sum))
      before waits refl
      (λ log' e' l failed waits'.
        retry_upload-IsSettled w number left (suc n) log' e' (omega (arith, sum)) failed waits')
      (λ e' h. absurd (omega (arith, sum, h)))

-- The upload of a part ends after at most four attempts, with the ETag of the first attempt that
-- succeeds, or with an error when each attempt failed and the last was followed by an abort or was the
-- fourth; it waits 750 n² milliseconds after the n-th failure, if another attempt may follow.
pub upload_part_with_retry-IsSettled :
    (w : ℕ → Attempt) (number : ℕ) → IsSettled w number (upload_part_with_retry w number)
unfolding upload_part_with_retry all_failed pauses
upload_part_with_retry-IsSettled w number = retry_upload-IsSettled w number 3 0 [] [] refl refl refl
