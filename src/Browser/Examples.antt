-- ===== src/Browser/Examples.antt =====
-- Runs of the browser's uploads.
use s3gator.Base.{
  ℕ, suc, true, false, none, some, [], ◌∷◌, ◌≡◌, refl, arith, if◌then◌else◌, ltb, length, inl, inr,
  or_default,
}
use s3gator.Files.Create.{parts_for}
use s3gator.Browser.{
  Outside, Input, network_error, attempt_part, retry_loop, upload_part_with_retry,
}
use s3gator.Browser.Chunks.{joined, joined-parts_for}
use s3gator.Browser.Retried.{IsLast, attempt_at, upload_part_with_retry-IsLast}

-- The world counts the requests: two are refused, and the next one gets an answer.
abbrev outside : Outside ℕ ℕ
outside = record {
  is_aborted = λ w. false;
  fetch = λ w url content_type body. (
    if ltb w 2
        then inl (network_error "down")
        else inr record { is_ok = true; status = 200; e_tag = some (b'"' ∷ b'x' ∷ b'"' ∷ []) },
    suc w,
  );
  sleep = λ ms w. w;
}

abbrev input : Input ℕ
input = record {
  file = 1 ∷ 2 ∷ 3 ∷ 4 ∷ 5 ∷ [];
  part = record { part_number = 2; url = "u" };
  part_size = 2;
  content_type = none;
  max_retries = none;
}

third_answers :
    upload_part_with_retry outside input 0
    ≡ some (inr record { part_number = 2; e_tag = b'x' ∷ [] }, 3)
unfolding upload_part_with_retry retry_loop attempt_part
third_answers = refl

upload_part_with_retry-IsLast_example :
    (n : ℕ) × IsLast outside input 0 (or_default none 3) n
    × (upload_part_with_retry outside input 0 ≡ some (attempt_at outside input 0 n))
upload_part_with_retry-IsLast_example = upload_part_with_retry-IsLast outside input 0

joined-parts_for_example : joined input.file 2 0 (parts_for (length input.file) 2) ≡ input.file
joined-parts_for_example = joined-parts_for input.file 2 (omega arith) (omega arith)
