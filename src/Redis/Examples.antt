-- ===== src/Redis/Examples.antt =====
-- Concrete runs of the service without a server.
use s3gator.Base.{
  ◌+◌, ◌*◌, ◌&&◌, true, false, none, some, List, ℕ, [], ◌∷◌, ◌≡◌, refl, arith, ltb, leb,
  if◌then◌else◌,
}
use s3gator.Base.Dict.{empty}
use s3gator.Base.Outcome.{ok, err, too_many_requests}
use s3gator.Redis.{Redis, RedisClient, acquire_lock, release_lock}
use s3gator.Redis.Exclusion.{
  Call, acquires, releases, increments, gets, deletes, run, lock_exclusive,
}
use s3gator.Redis.Refined.{Ordered, promise, promises, answers, answers-promises}
use s3gator.Redis.Limiter.{Limiter, check, register_failures, check-register_failures}

-- A server that is never asked.
abbrev server : RedisClient (Unit {0})
server = record {
  get = λ s now k. (none, s);
  del = λ s now k. s;
  set_nx = λ s now k v ttl. (false, s);
  eval_release = λ s now k v. (0, s);
  incr_expire = λ s now k w. (0, s);
}

abbrev fresh : Redis (Unit {0})
fresh = record { enabled = false; prefix = "s3gator"; counters = empty; locks = empty; remote = tt }

abbrev limiter : Limiter
limiter = record { max_attempts = 2; window_seconds = 60 }

granted : (acquire_lock server "job" "a" 30 1000 fresh).0 ≡ true
unfolding acquire_lock
granted = refl

lock_exclusive_example :
    let r =
      run server
        (acquire_lock server "job" "a" 30 1000 fresh).1
        ((2000, acquires "job" "b" 30) ∷ (3000, gets "job") ∷ []) in
    ((acquire_lock server "job" "c" 10 5000 r).0 ≡ false)
    × ((release_lock server "job" "a" 5000 r).0 ≡ true)
lock_exclusive_example =
    lock_exclusive server fresh "job" "a" "c" 30 10 1000 5000
      ((2000, acquires "job" "b" 30) ∷ (3000, gets "job") ∷ []) refl granted
      (omega arith, (omega arith, tt)) (omega arith)

check-register_failures_example :
    (check server limiter
      (λ s. none)
      "ip:alice"
      3000
      (register_failures server limiter "ip:alice" (1000 ∷ 2000 ∷ []) fresh)).0
    ≡ (if ltb 3000 (1000 + 60 * 1000) && leb 2 (1 + 1)
        then err (too_many_requests "Too many login attempts. Please try again later.")
        else ok tt)
check-register_failures_example =
    check-register_failures server limiter "ip:alice" (λ s. none) fresh 1000 3000 (2000 ∷ []) refl
      refl refl (omega arith, tt)

abbrev calls : List (ℕ × Call)
calls =
    (1000, acquires "job" "a" 30)
    ∷ (2000, acquires "job" "b" 30)
    ∷ (3000, increments "login" 60)
    ∷ (4000, releases "job" "b")
    ∷ (5000, acquires "other" "b" 1)
    ∷ (40000, acquires "job" "b" 30)
    ∷ (41000, deletes "job")
    ∷ (42000, acquires "job" "a" 30)
    ∷ (43000, releases "job" "a")
    ∷ []

calls-Ordered : Ordered 500 calls
unfolding Ordered
calls-Ordered = ground arith

answers-promises_example : answers server fresh calls ≡ promises (λ t k. none) calls
answers-promises_example =
    answers-promises server fresh (λ t k. none) 500 calls (refl, λ t k le. refl) calls-Ordered

-- Answers of every kind.
calls_answered :
    promises (λ t k. none) calls
    ≡ some true
      ∷ some false
      ∷ none
      ∷ some false
      ∷ some true
      ∷ some true
      ∷ none
      ∷ some true
      ∷ some true
      ∷ []
unfolding promises promise
calls_answered = refl
