-- ===== src/Redis/Limiter.antt =====
-- apps/api/src/auth/login-rate-limiter.service.ts
use Prim.Native.String
use s3gator.Base.{
  ℕ, ◌+◌, ◌*◌, ◌<◌, String, false, Option, none, some, List, [], ◌∷◌, ◌≡◌, arith, str_eq, eq_iff,
  All, if◌then◌else◌, length, leb, ltb, ◌&&◌,
}
use s3gator.Base.Outcome.{Outcome, ok, err, too_many_requests}
use s3gator.Redis.{Redis, RedisClient, Reply, digits, text, increment_with_window, get, delete, key}

pub record Limiter : Type 0 where
  pub max_attempts : ℕ
  pub window_seconds : ℕ

unfoldable pub to_storage_key : {S : Type 0} → Redis S → String → String
unfolding key
to_storage_key r k = key r (String.◌++◌ "login:" k)

-- What `check` does with the stored reply. `number_of` is `Number(…)` of a text that is no count
-- of this service, none for NaN.
abbrev judge : (String → Option ℕ) → ℕ → Option Reply → Outcome (Unit {0})
judge number_of max_attempts none = ok tt
judge number_of max_attempts (some (digits count)) =
    if leb max_attempts count
    then err (too_many_requests "Too many login attempts. Please try again later.")
    else ok tt
judge number_of max_attempts (some (text s)) = if str_eq s "" then ok tt else elim (number_of s) [
  | none ↦ ok tt
  | some count ↦
      if leb max_attempts count
      then err (too_many_requests "Too many login attempts. Please try again later.")
      else ok tt
]

module _ {S : Type 0} (client : RedisClient S) where
  pub check : Limiter → (String → Option ℕ) → String → ℕ → Redis S → Outcome (Unit {0}) × Redis S
  check l number_of k now r =
      let (count_raw, r') = get client (to_storage_key r k) now r in
      (judge number_of l.max_attempts count_raw, r')

  pub register_failure : Limiter → String → ℕ → Redis S → Redis S
  register_failure l k now r =
      (increment_with_window client (to_storage_key r k) l.window_seconds now r).1

  clear : String → ℕ → Redis S → Redis S
  clear k now r = delete client (to_storage_key r k) now r

  pub register_failures : Limiter → String → List ℕ → Redis S → Redis S
  register_failures l k [] r = r
  register_failures l k (now ∷ times) r = register_failures l k times (register_failure l k now r)

-- The service has counted `n` failures of the key in a window that ends at `until`.
abbrev Counted : {S : Type 0} → Redis S → String → ℕ → ℕ → Type 0
Counted r k n until =
    (r.enabled ≡ false)
    × (r.counters (to_storage_key r k) ≡ some (record { count = n; expires_at = until }))
    × (r.locks (to_storage_key r k) ≡ none)

module _ {S : Type 0} (client : RedisClient S) (l : Limiter) (k : String) where
  register_failure-first :
      (r : Redis S) (now : ℕ)
      → r.enabled ≡ false
      → r.counters (to_storage_key r k) ≡ none
      → r.locks (to_storage_key r k) ≡ none
      → Counted (register_failure client l k now r) k 1 (now + l.window_seconds * 1000)
  unfolding register_failure increment_with_window to_storage_key
  register_failure-first r now off fresh unlocked =
      ground (arith, eq_iff (to_storage_key r k) (to_storage_key r k))

  register_failure-Counted :
      (r : Redis S) (now n until : ℕ)
      → now < until
      → Counted r k n until
      → Counted (register_failure client l k now r) k (n + 1) until
  unfolding register_failure increment_with_window to_storage_key
  register_failure-Counted r now n until h c =
      ground (arith, eq_iff (to_storage_key r k) (to_storage_key r k))

  register_failures-Counted :
      (times : List ℕ) (r : Redis S) (n until : ℕ)
      → All (λ t. t < until) times
      → Counted r k n until
      → Counted (register_failures client l k times r) k (n + length times) until
  unfolding register_failures
  register_failures-Counted [] r n until h c = ground arith
  register_failures-Counted (now ∷ times) r n until h c =
      let ih =
        register_failures-Counted times (register_failure client l k now r) (n + 1) until h.1
          (register_failure-Counted r now n until h.0 c) in
      ground (arith, ih)

  check-Counted :
      (number_of : String → Option ℕ) (r : Redis S) (t n until : ℕ)
      → Counted r k n until
      → (check client l number_of k t r).0 ≡ (
          if ltb t until && leb l.max_attempts n
          then err (too_many_requests "Too many login attempts. Please try again later.")
          else ok tt)
  unfolding check get to_storage_key
  check-Counted number_of r t n until c = ground arith

  -- Without a server, and with nothing stored for a key before: after a first failed login at
  -- `now` and further ones at `times`, all before the window that the first one opened has run
  -- out, a check at time t is refused exactly if t lies before the end of that window and the
  -- failures have reached the allowed number. In all other cases it passes.
  pub check-register_failures :
      (number_of : String → Option ℕ) (r : Redis S) (now t : ℕ) (times : List ℕ)
      → r.enabled ≡ false
      → r.counters (to_storage_key r k) ≡ none
      → r.locks (to_storage_key r k) ≡ none
      → All (λ later. later < now + l.window_seconds * 1000) times
      → (check client l number_of k t (register_failures client l k (now ∷ times) r)).0 ≡ (
          if ltb t (now + l.window_seconds * 1000) && leb l.max_attempts (1 + length times)
          then err (too_many_requests "Too many login attempts. Please try again later.")
          else ok tt)
  unfolding register_failures
  check-register_failures number_of r now t times off fresh unlocked within =
      check-Counted number_of _ t (1 + length times) _ (
        register_failures-Counted times _ 1 _ within
          (register_failure-first r now off fresh unlocked))

  -- Without a server, a login that clears the key leaves the next check free.
  check-clear :
      (number_of : String → Option ℕ) (r : Redis S) (now t : ℕ)
      → r.enabled ≡ false
      → (check client l number_of k t (clear client k now r)).0 ≡ ok tt
  unfolding check clear delete get to_storage_key
  check-clear number_of r now t off =
      ground (arith, eq_iff (to_storage_key r k) (to_storage_key r k))
