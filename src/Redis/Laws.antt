-- ===== src/Redis/Laws.antt =====
-- What the locks of the process promise, without a Redis server.
use s3gator.Base.{
  ℕ, ◌+◌, ◌*◌, ◌≤◌, String, true, false, Option, none, some, ◌≡◌, arith, ltb, str_eq, eq_iff,
  if◌then◌else◌, ◌&&◌, ◌↔◌, is_some, not, Bool-cases, inl, inr,
}
use s3gator.Base.Dict.{keep_value}
use s3gator.Redis.{lock_live, owned_by, Redis, RedisClient, MemoryLock, acquire_lock, release_lock}

-- The value under which a key is locked at a time, if it is.
abbrev pub holder_of : ℕ → Option MemoryLock → Option String
holder_of now none = none
holder_of now (some lock) = if ltb now lock.expires_at then some lock.value else none

abbrev pub holder : {S : Type 0} → Redis S → ℕ → String → Option String
holder r now k = holder_of now (r.locks k)

owned_by_iff :
    (value : String) (now : ℕ) (o : Option MemoryLock)
    → (owned_by value (keep_value (lock_live now) o) ≡ true) ↔ (holder_of now o ≡ some value)
owned_by_iff value now none = ground arith
owned_by_iff value now (some lock) = ground (arith, eq_iff lock.value value)

module _ {S : Type 0} (client : RedisClient S) where
  -- Without a server, a lock is granted exactly when nobody holds the key, and from then on the
  -- key is held by the new value until its time runs out. Every other key, and a key whose lock
  -- is refused, has the same holder as before at every later time.
  pub acquire_lock-holder :
      (k value j : String) (ttl now t : ℕ) (r : Redis S)
      → r.enabled ≡ false
      → now ≤ t
      → let (granted, r') = acquire_lock client k value ttl now r in
        (granted ≡ not (is_some (holder r now k)))
        × (holder r' t j ≡ (
            if granted && str_eq k j
            then (if ltb t (now + ttl * 1000) then some value else none)
            else holder r t j))
  unfolding acquire_lock
  acquire_lock-holder k value j ttl now t r off h = elim (Bool-cases (str_eq k j)) [
    | inl e ↦ (ground arith, ground (arith, (eq_iff k j).0 e))
    | inr e ↦ (ground arith, ground arith)
  ]

  -- Without a server, a lock is released exactly when the key is held under the given value, and
  -- then nobody holds it. Nothing else changes at any later time.
  pub release_lock-holder :
      (k value j : String) (now t : ℕ) (r : Redis S)
      → r.enabled ≡ false
      → now ≤ t
      → let (released, r') = release_lock client k value now r in
        ((released ≡ true) ↔ (holder r now k ≡ some value))
        × (holder r' t j ≡ (if released && str_eq k j then none else holder r t j))
  unfolding release_lock
  release_lock-holder k value j now t r off h = elim (Bool-cases (str_eq k j)) [
    | inl e ↦ (
      ground (arith, owned_by_iff value now (r.locks k)),
      ground (arith, (eq_iff k j).0 e, owned_by_iff value now (r.locks k)),
    )
    | inr e ↦ (ground (arith, owned_by_iff value now (r.locks k)), ground arith)
  ]
