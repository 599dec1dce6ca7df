-- ===== src/Browser.antt =====
-- apps/web/lib/multipart-upload.ts: how the browser cuts a file into parts and sends one part. A
-- file is its bytes. The network, the user's wish to abort and the timer are a parameter, on a
-- state of the outside world.
mod Examples
pub mod Chunks
pub mod Retried
use s3gator.Base.{
  ℕ, zero, suc, ◌+◌, ◌-◌, ◌*◌, ◌^◌, String, Bool, true, false, Option, none, some, List, [], ◌∷◌,
  leb, min, if◌then◌else◌, length, take, drop, keep_if, not, ◌==◌, ◌⊎◌, inl, inr, or_default,
}
use s3gator.Base.Text.{Text}

module _ {A : Type 0} where
  -- `file.slice(start, end)` for a start that is not negative
  abbrev slice : ℕ → ℕ → List A → List A
  slice start end file = take (end - start) (drop start file)

  -- The part with the number 0 would be the slice from a negative start to 0, which is empty.
  unfoldable pub get_chunk : List A → ℕ → ℕ → List A
  get_chunk file zero part_size = []
  get_chunk file (suc n) part_size =
      let start = n * part_size in
      let end = min (start + part_size) (length file) in slice start end file

pub record SignedPart : Type 0 where
  pub part_number : ℕ
  pub url : String

pub record CompletedPart : Type 0 where
  pub part_number : ℕ
  pub e_tag : Text

-- What the code reads of a response.
pub record Response : Type 0 where
  pub is_ok : Bool
  pub status : ℕ
  pub e_tag : Option Text

-- What an attempt may throw: an error that is named AbortError, another error of `fetch`, the two
-- errors of the attempt itself, and the error behind the loop.
pub data Failure : Type 0 where
  abort_error missing_e_tag loop_failed : Failure
  network_error : String → Failure
  part_failed : ℕ → Failure

-- The outside world: `signal.aborted`, `fetch` of a PUT with its url, content type and body, and
-- the timer in milliseconds.
pub record Outside (A W : Type 0) : Type 0 where
  pub is_aborted : W → Bool
  pub fetch : W → String → Option String → List A → (Failure ⊎ Response) × W
  pub sleep : ℕ → W → W

pub record Input (A : Type 0) : Type 0 where
  pub file : List A
  pub part : SignedPart
  pub part_size : ℕ
  pub content_type : Option String
  pub max_retries : Option ℕ

abbrev pub is_abort_upload_error : Failure → Bool
is_abort_upload_error abort_error = true
is_abort_upload_error _ = false

-- `(header ?? "").replaceAll('"', "")`
abbrev e_tag_of : Option Text → Text
e_tag_of none = []
e_tag_of (some header) = keep_if (λ c. not (c == b'"')) header

abbrev part_of : ℕ → Text → Failure ⊎ CompletedPart
part_of n [] = inl missing_e_tag
part_of n (c ∷ e_tag) = inr record { part_number = n; e_tag = c ∷ e_tag }

-- What becomes of the answer of `fetch`.
abbrev received : ℕ → Failure ⊎ Response → Failure ⊎ CompletedPart
received n (inl failure) = inl failure
received n (inr response) =
    if not response.is_ok
    then inl (part_failed response.status)
    else part_of n (e_tag_of response.e_tag)

-- The `return` and the `catch` of an attempt; `rest` is the loop's next turn.
abbrev pub caught :
    {W : Type 0}
    → Failure ⊎ CompletedPart
    → W
    → Bool
    → Option ((Failure ⊎ CompletedPart) × W)
    → Option ((Failure ⊎ CompletedPart) × W)
caught (inr part) w last rest = some (inr part, w)
caught (inl failure) w last rest =
    if is_abort_upload_error failure
    then some (inl failure, w)
    else if last
    then some (inl failure, w)
    else rest

module _ {A W : Type 0} (outside : Outside A W) (input : Input A) where
  unfoldable pub attempt_part : W → (Failure ⊎ CompletedPart) × W
  unfolding get_chunk
  attempt_part w =
      let n = input.part.part_number in
      let chunk = get_chunk input.file n input.part_size in
      let (answer, w') = outside.fetch w input.part.url input.content_type chunk in
      if outside.is_aborted w then (inl abort_error, w) else (received n answer, w')

  -- The loop, on fuel; none where the fuel runs out.
  unfoldable pub retry_loop : ℕ → ℕ → ℕ → W → Option ((Failure ⊎ CompletedPart) × W)
  retry_loop zero max_retries attempt w = none
  retry_loop (suc fuel) max_retries attempt w =
      let (answer, w') = attempt_part w in
      let rest = retry_loop fuel max_retries (suc attempt) (outside.sleep (250 * 2 ^ attempt) w') in
      if leb attempt max_retries
      then caught answer w' (leb max_retries attempt) rest
      else some (inl loop_failed, w)

  unfoldable pub upload_part_with_retry : W → Option ((Failure ⊎ CompletedPart) × W)
  upload_part_with_retry w =
      let max_retries = or_default input.max_retries 3 in
      retry_loop (suc max_retries) max_retries 0 w
