-- ===== src/Jobs/Retry.antt =====
-- apps/api/src/jobs/jobs.service.ts: which jobs are tried again, how often and after what delay.
use native.Mathlib.Nat.{one-le-pow, pow-le-pow_right}
use s3gator.Base.{ℕ, ◌-◌, ◌*◌, ◌^◌, ◌≤◌, Bool, true, false, ◌≡◌, arith, min, max, suc}
use s3gator.Jobs.Model.{JobType, bucket_sync, upload_cleanup, retention_cleanup, Config}

pub record JobRetryPolicy : Type 0 where
  pub retryable : Bool
  pub max_attempts : ℕ
  pub base_backoff_seconds : ℕ

unfoldable pub get_retry_policy : Config → JobType → JobRetryPolicy
get_retry_policy config bucket_sync = record {
  retryable = true;
  max_attempts = config.max_attempts_bucket_sync;
  base_backoff_seconds = config.backoff_seconds_bucket_sync;
}
get_retry_policy config upload_cleanup = record {
  retryable = true;
  max_attempts = config.max_attempts_upload_cleanup;
  base_backoff_seconds = config.backoff_seconds_upload_cleanup;
}
get_retry_policy config retention_cleanup = record {
  retryable = true;
  max_attempts = config.max_attempts_retention_cleanup;
  base_backoff_seconds = config.backoff_seconds_retention_cleanup;
}
get_retry_policy config _ = record { retryable = false; max_attempts = 1; base_backoff_seconds = 0 }

-- `attemptCount - 1` stops at 0, as `Math.max(…, 0)` does.
unfoldable pub compute_backoff_seconds : Config → JobType → ℕ → ℕ
compute_backoff_seconds config type attempt_count =
    let policy = get_retry_policy config type in
    let raw = policy.base_backoff_seconds * 2 ^ (attempt_count - 1) in
    min (max raw policy.base_backoff_seconds) config.max_backoff_seconds

scale : (c a b : ℕ) → a ≤ b → c * a ≤ c * b
scale c a b h = grind arith

doubled_ge : (c n : ℕ) → c ≤ c * 2 ^ n
doubled_ge c n = omega (arith, scale c 1 (2 ^ n) (one-le-pow n 2 (omega arith)))

add_sub : (n : ℕ) → suc n - 1 ≡ n
add_sub n = omega arith

doubled_mono : (c n m : ℕ) → n ≤ m → c * 2 ^ n ≤ c * 2 ^ m
doubled_mono c n m h = scale c (2 ^ n) (2 ^ m) (pow-le-pow_right (omega arith) h)

-- The delay before another try is the base delay, doubled for every attempt after the first, but
-- never more than the largest delay. So it never falls from one attempt to the next, and it is at
-- least the base delay where that does not pass the largest.
pub compute_backoff_seconds_bounds :
    (config : Config) (type : JobType) (n m : ℕ)
    → n ≤ m
    → let base = (get_retry_policy config type).base_backoff_seconds in
      (compute_backoff_seconds config type (suc n) ≡ min (base * 2 ^ n) config.max_backoff_seconds)
      × (compute_backoff_seconds config type n ≤ config.max_backoff_seconds)
      × (min base config.max_backoff_seconds ≤ compute_backoff_seconds config type n)
      × (compute_backoff_seconds config type n ≤ compute_backoff_seconds config type m)
unfolding compute_backoff_seconds
compute_backoff_seconds_bounds config type n m h =
    let base = (get_retry_policy config type).base_backoff_seconds in
    let grows = doubled_ge base in
    (
      rw (add_sub n) (omega (arith, grows n)),
      omega arith,
      omega (arith, grows (n - 1)),
      omega (arith, doubled_mono base (n - 1) (m - 1) (omega arith)),
    )
