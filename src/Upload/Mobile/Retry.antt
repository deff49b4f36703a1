-- ===== src/Upload/Mobile/Retry.antt =====
-- `uploadPartWithRetry` of mobile/src/lib/recording-upload.ts.
use csg_learning_platform.Prelude.{ℕ, suc, ◌≤◌, ◌≡◌, refl, arith, [], length, length-append}
use csg_learning_platform.Prelude.Text.{Text}
use csg_learning_platform.Upload.Mobile.{
  Result, ok, err, Remote, M, then_do, lift, fail, try_part, retry_part, upload_part_with_retry,
}

abbrev pub first_ok : {A : Type 0} → Result A → Result A → Result A
first_ok (ok a) r = ok a
first_ok (err e) r = r

module _ (remote : Remote) where
  try_part-length : (part attempt : ℕ) → length (try_part remote part attempt).1 ≤ 1
  unfolding try_part
  try_part-length part attempt = ground arith

  retry_step :
      (m : M Text) (next : Text → M Text) (r : Result Text) (n : ℕ)
      → length m.1 ≤ 1
      → ((e : Text) → m.0 ≡ err e → ((next e).0 ≡ r) × (length (next e).1 ≤ n))
      → ((then_do m (λ etag. lift (ok etag)) next).0 ≡ first_ok m.0 r)
        × (length (then_do m (λ etag. lift (ok etag)) next).1 ≤ suc n)
  retry_step (ok a, log) next r n h k = (refl, omega (arith, length-append {0} log []))
  retry_step (err e, log) next r n h k =
      let (same, few) = k e refl in (same, omega (arith, length-append {0} log (next e).1))

  last_try :
      (m : M Text)
      → length m.1 ≤ 1
      → ((then_do {B = Text} m (λ etag. lift (ok etag)) (λ e. fail e)).0 ≡ m.0)
        × (length (then_do {B = Text} m (λ etag. lift (ok etag)) (λ e. fail e)).1 ≤ 1)
  last_try (ok a, log) h = (refl, omega (arith, length-append {0} log []))
  last_try (err e, log) h = (refl, omega (arith, length-append {0} log []))

  -- A part is tried four times at most, and the result is that of the first attempt that succeeds,
  -- or the last attempt's error.
  upload_part_with_retry-first :
      (part : ℕ)
      → ((upload_part_with_retry remote part).0
          ≡ first_ok (try_part remote part 1).0 (
              first_ok
                (try_part remote part 2).0
                (first_ok (try_part remote part 3).0 (try_part remote part 4).0)))
        × (length (upload_part_with_retry remote part).1 ≤ 4)
  unfolding upload_part_with_retry retry_part
  upload_part_with_retry-first part =
      retry_step (try_part remote part 1) _ _ 3 (try_part-length part 1) λ _ _.
        retry_step (try_part remote part 2) _ _ 2 (try_part-length part 2) λ _ _.
          retry_step (try_part remote part 3) _ _ 1 (try_part-length part 3)
            λ _ _. last_try (try_part remote part 4) (try_part-length part 4)
