-- ===== src/Upload/Mobile/Order.antt =====
-- The parts that `uploadMultipart` of mobile/src/lib/recording-upload.ts completes an upload with.
use csg_learning_platform.Prelude.{
  ℕ, zero, suc, ◌+◌, List, [], ◌∷◌, ◌++◌, map, ◌≡◌, refl, sym, ◌∙◌, arith, All, All-append,
}
use mathlib.Core.List.{append-nil, append_assoc, map-append}
use csg_learning_platform.Prelude.Text.{Text, txt, show}
use csg_learning_platform.Upload.Parts.{Part, mobile_parts}
use csg_learning_platform.Upload.Mobile.{
  ok, err, Remote, Call, put_part, completed, M, then_do, lift, fail, try_part, retry_part,
  upload_part_with_retry, upload_parts, send_parts, UploadedPart,
}

abbrev pub part_number : UploadedPart → ℕ
part_number p = p.part_number

abbrev pub number : Part → ℕ
number p = p.number

-- A completion lists the parts of the file in their order; other calls do not matter.
abbrev pub CompletesInOrder : ℕ → Call → Type 0
CompletesInOrder size (completed key parts ok?) =
    map part_number parts ≡ map number (mobile_parts size)
CompletesInOrder size _ = Unit

module _ (P : Call → Type 0) where
  All-then_do :
      {A B : Type 0} (m : M A) (next : A → M B) (catch : Text → M B)
      → All P m.1
      → ((a : A) → m.0 ≡ ok a → All P (next a).1)
      → ((e : Text) → All P (catch e).1)
      → All P (then_do m next catch).1
  All-then_do (ok a, log) next catch h n c = All-append P log (next a).1 h (n a refl)
  All-then_do (err e, log) next catch h n c = All-append P log (catch e).1 h (c e)

  module _ (remote : Remote) (puts : (part attempt : ℕ) → P (put_part part attempt)) where
    All-retry_part :
        (left part attempt : ℕ) (last : Text) → All P (retry_part remote left part attempt last).1
    unfolding retry_part try_part
    All-retry_part zero part attempt last = tt
    All-retry_part (suc left) part attempt last =
        All-then_do _ _ _
          (All-then_do (lift (remote.part_url part attempt)) _ _ tt
            (λ url _. (puts part attempt, tt)) (λ e. tt))
          (λ etag _. tt) (λ e. All-retry_part left part (attempt + 1) e)

    All-upload_parts :
        (ps : List Part) (sent : List UploadedPart) → All P (upload_parts remote ps sent).1
    unfolding upload_parts upload_part_with_retry
    All-upload_parts [] sent = tt
    All-upload_parts (p ∷ ps) sent =
        All-then_do (upload_part_with_retry remote p.number) _ _
          (All-retry_part 4 p.number 1
            (txt "Part " ++ (show p.number ++ txt " failed after 4 attempts.")))
          (λ etag _. All-upload_parts ps _) (λ e. tt)

then_do-ok :
    {A B : Type 0} (m : M A) (next : A → M B) (b : B)
    → (then_do m next (λ e. fail e)).0 ≡ ok b
    → (a : A) × (m.0 ≡ ok a) × ((next a).0 ≡ ok b)
then_do-ok (ok a, log) next b h = (a, refl, h)
then_do-ok (err e, log) next b h = cc

module _ (remote : Remote) where
  upload_parts-numbers :
      (ps : List Part) (sent result : List UploadedPart)
      → (upload_parts remote ps sent).0 ≡ ok result
      → map part_number result ≡ map part_number sent ++ map number ps
  unfolding upload_parts
  upload_parts-numbers [] sent result h =
      let same : sent ≡ result = ground arith in rw (← same) (sym (append-nil _))
  upload_parts-numbers (p ∷ ps) sent result h =
      let (etag, _, rest) = then_do-ok (upload_part_with_retry remote p.number) _ result h in
      upload_parts-numbers ps _ result rest ∙ simp (map-append, append_assoc)

  -- An upload is completed with the parts of the file, each once and in ascending order, whatever
  -- attempts they took.
  pub send_parts-CompletesInOrder :
      (key : Text) (size : ℕ) → All (CompletesInOrder size) (send_parts remote key size).1
  unfolding send_parts
  send_parts-CompletesInOrder key size =
      All-then_do (CompletesInOrder size) _ _ _
        (All-then_do (CompletesInOrder size) (upload_parts remote (mobile_parts size) []) _ _
          (All-upload_parts (CompletesInOrder size) remote (λ _ _. tt) (mobile_parts size) [])
          (λ parts done. (upload_parts-numbers (mobile_parts size) [] parts done, tt)) (λ e. tt))
        (λ _ _. tt) (λ e. (tt, tt))
