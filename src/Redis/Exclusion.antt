-- ===== src/Redis/Exclusion.antt =====
-- Locks over a history of calls, without a Redis server.
use s3gator.Base.{
  ℕ, ◌+◌, ◌*◌, ◌<◌, String, true, false, some, List, [], ◌∷◌, ◌≡◌, ◌≢◌, arith, eq_iff, All,
}
use s3gator.Redis.{
  Redis, RedisClient, acquire_lock, release_lock, increment_with_window, get, delete,
}

-- The calls that other parts of the server make of the service, on any keys.
pub data Call : Type 0 where
  acquires : String → String → ℕ → Call
  releases : String → String → Call
  increments : String → ℕ → Call
  gets : String → Call
  deletes : String → Call

module _ {S : Type 0} (client : RedisClient S) where
  unfoldable pub step : Redis S → ℕ × Call → Redis S
  step r (now, acquires k value ttl) = (acquire_lock client k value ttl now r).1
  step r (now, releases k value) = (release_lock client k value now r).1
  step r (now, increments k window) = (increment_with_window client k window now r).1
  step r (now, gets k) = (get client k now r).1
  step r (now, deletes k) = delete client k now r

  pub run : Redis S → List (ℕ × Call) → Redis S
  run r [] = r
  run r (c ∷ cs) = run (step r c) cs

-- A call before the time `until` that does not give the lock away: it releases no lock of the
-- key under the value, and does not delete the key.
abbrev pub Spares : String → String → ℕ → ℕ × Call → Type 0
Spares k value until (now, releases j w) = (now < until) × (j ≡ k → w ≢ value)
Spares k value until (now, deletes j) = (now < until) × (j ≢ k)
Spares k value until (now, _) = now < until

-- The key is locked by the value until the time.
abbrev Locked : {S : Type 0} → Redis S → String → String → ℕ → Type 0
Locked r k value until =
    (r.enabled ≡ false) × (r.locks k ≡ some (record { value = value; expires_at = until }))

module _ {S : Type 0} (client : RedisClient S) where
  step-Locked :
      (r : Redis S) (c : ℕ × Call) (k value : String) (until : ℕ)
      → Locked r k value until
      → Spares k value until c
      → Locked (step client r c) k value until
  unfolding step acquire_lock release_lock increment_with_window get delete
  step-Locked r (now, acquires j w ttl) k value until h s = ground (arith, eq_iff j k)
  step-Locked r (now, releases j w) k value until h s = ground (arith, eq_iff j k, eq_iff value w)
  step-Locked r (now, increments j window) k value until h s = ground arith
  step-Locked r (now, gets j) k value until h s = ground arith
  step-Locked r (now, deletes j) k value until h s = ground (arith, eq_iff j k)

  run-Locked :
      (r : Redis S) (cs : List (ℕ × Call)) (k value : String) (until : ℕ)
      → Locked r k value until
      → All (Spares k value until) cs
      → Locked (run client r cs) k value until
  unfolding run
  run-Locked r [] k value until h s = h
  run-Locked r (c ∷ cs) k value until h s =
      run-Locked (step client r c) cs k value until (step-Locked r c k value until h s.0) s.1

  acquired-Locked :
      (r : Redis S) (k value : String) (ttl now : ℕ)
      → r.enabled ≡ false
      → (acquire_lock client k value ttl now r).0 ≡ true
      → Locked (acquire_lock client k value ttl now r).1 k value (now + ttl * 1000)
  unfolding acquire_lock
  acquired-Locked r k value ttl now off granted = ground (arith, eq_iff k k)

  refused_of_Locked :
      (r : Redis S) (k value other : String) (ttl t until : ℕ)
      → Locked r k value until
      → t < until
      → ((acquire_lock client k other ttl t r).0 ≡ false)
        × ((release_lock client k value t r).0 ≡ true)
  unfolding acquire_lock release_lock
  refused_of_Locked r k value other ttl t until held h = ground (arith, eq_iff value value)

  -- Mutual exclusion without a server: once a lock is granted, then whatever calls follow within
  -- its time to live, as long as none releases the key under that value or deletes the key,
  -- every attempt to lock the key within that time is refused, and the owner's release succeeds.
  pub lock_exclusive :
      (r : Redis S) (k value other : String) (ttl ttl' now t : ℕ) (cs : List (ℕ × Call))
      → r.enabled ≡ false
      → (acquire_lock client k value ttl now r).0 ≡ true
      → All (Spares k value (now + ttl * 1000)) cs
      → t < now + ttl * 1000
      → let r' = run client (acquire_lock client k value ttl now r).1 cs in
        ((acquire_lock client k other ttl' t r').0 ≡ false)
        × ((release_lock client k value t r').0 ≡ true)
  lock_exclusive r k value other ttl ttl' now t cs off granted s h =
      refused_of_Locked _ k value other ttl' t _
        (run-Locked _ cs k value _ (acquired-Locked r k value ttl now off granted) s) h
