-- ===== src/Redis.antt =====
-- apps/api/src/redis/redis.service.ts: counters and locks, kept by a Redis server or, where Redis
-- is disabled, in two maps of the process. The service's `client` is set exactly when `enabled`
-- is, so one flag stands for both. The server is the parameter `RedisClient`. Times are
-- milliseconds; every read of the clock within one call gives the same instant.
mod Examples
pub mod Laws
pub mod Exclusion
pub mod Refined
pub mod Limiter
use Prim.Native.String
use s3gator.Base.{
  ℕ, ◌+◌, ◌*◌, String, Bool, true, false, not, Option, none, some, ltb, leb, ◌==◌, if◌then◌else◌,
  str_eq,
}
use s3gator.Base.Dict.{Dict, put, remove, retain}

pub record MemoryCounter : Type 0 where
  pub count : ℕ
  pub expires_at : ℕ

pub record MemoryLock : Type 0 where
  pub value : String
  pub expires_at : ℕ

-- A string that `get` answers: the decimal digits of a number, or another text.
pub data Reply : Type 0 where
  digits : ℕ → Reply
  text : String → Reply

-- What the service asks of an ioredis client. Each command takes the server's state and the time.
pub record RedisClient (S : Type 0) : Type 0 where
  -- `GET key`
  pub get : S → ℕ → String → Option Reply × S
  -- `DEL key`
  pub del : S → ℕ → String → S
  -- `SET key value EX ttl NX`, true for the answer OK
  pub set_nx : S → ℕ → String → String → ℕ → Bool × S
  -- the script that deletes the key if it holds the value, with the number it returns
  pub eval_release : S → ℕ → String → String → ℕ × S
  -- `MULTI; INCR key; EXPIRE key ttl NX; EXEC`, with the counter
  pub incr_expire : S → ℕ → String → ℕ → ℕ × S

pub record Redis (S : Type 0) : Type 0 where
  pub enabled : Bool
  pub prefix : String
  pub counters : Dict MemoryCounter
  pub locks : Dict MemoryLock
  pub remote : S

-- `state.expiresAt <= now` is false
abbrev pub counter_live : ℕ → MemoryCounter → Bool
counter_live now state = not (leb state.expires_at now)

abbrev pub lock_live : ℕ → MemoryLock → Bool
lock_live now state = not (leb state.expires_at now)

-- The entry that an increment leaves: a new window if there is none or the old one has run out.
abbrev next_counter : ℕ → ℕ → Option MemoryCounter → MemoryCounter
next_counter window_seconds now none = record {
  count = 1;
  expires_at = now + window_seconds * 1000;
}
next_counter window_seconds now (some state) =
    if leb state.expires_at now
    then record { count = 1; expires_at = now + window_seconds * 1000 }
    else record state { count = state.count + 1 }

abbrev reply_of : Option MemoryCounter → Option MemoryLock → Option Reply
reply_of (some counter) _ = some (digits counter.count)
reply_of none none = none
reply_of none (some lock) = some (text lock.value)

-- `existing && existing.expiresAt > now`
abbrev pub is_held : ℕ → Option MemoryLock → Bool
is_held now none = false
is_held now (some lock) = ltb now lock.expires_at

-- `existing && existing.value === value`
abbrev pub owned_by : String → Option MemoryLock → Bool
owned_by value none = false
owned_by value (some lock) = str_eq lock.value value

module _ {S : Type 0} where
  unfoldable pub key : Redis S → String → String
  key r suffix = String.◌++◌ r.prefix (String.◌++◌ ":" suffix)

  unfoldable pub cleanup_memory : ℕ → Redis S → Redis S
  cleanup_memory now r = record r {
    counters = retain (counter_live now) r.counters;
    locks = retain (lock_live now) r.locks;
  }

  -- The answer of the server and the service's state after a command.
  abbrev answered {ℓ} : {A : Type ℓ} → Redis S → A × S → A × Redis S
  answered r (a, s) = (a, record r { remote = s })

module _ {S : Type 0} (client : RedisClient S) where
  unfoldable pub increment_with_window : String → ℕ → ℕ → Redis S → ℕ × Redis S
  unfolding cleanup_memory
  increment_with_window k window_seconds now r =
      let r' = cleanup_memory now r in
      let state = next_counter window_seconds now (r'.counters k) in
      if not r.enabled
      then (state.count, record r' { counters = put k state r'.counters })
      else answered r (client.incr_expire r.remote now k window_seconds)

  unfoldable pub get : String → ℕ → Redis S → Option Reply × Redis S
  unfolding cleanup_memory
  get k now r =
      let r' = cleanup_memory now r in
      if not r.enabled
      then (reply_of (r'.counters k) (r'.locks k), r')
      else answered r (client.get r.remote now k)

  unfoldable pub delete : String → ℕ → Redis S → Redis S
  delete k now r =
      if not r.enabled
      then record r { counters = remove k r.counters; locks = remove k r.locks }
      else record r { remote = client.del r.remote now k }

  unfoldable pub acquire_lock : String → String → ℕ → ℕ → Redis S → Bool × Redis S
  unfolding cleanup_memory
  acquire_lock k value ttl_seconds now r =
      let r' = cleanup_memory now r in
      let lock : MemoryLock = record { value = value; expires_at = now + ttl_seconds * 1000 } in
      if not r.enabled
      then if is_held now (r'.locks k)
        then (false, r')
        else (true, record r' { locks = put k lock r'.locks })
      else answered r (client.set_nx r.remote now k value ttl_seconds)

  unfoldable pub release_lock : String → String → ℕ → Redis S → Bool × Redis S
  unfolding cleanup_memory
  release_lock k value now r =
      let r' = cleanup_memory now r in
      let (number, s) = client.eval_release r.remote now k value in
      if not r.enabled
      then if owned_by value (r'.locks k)
        then (true, record r' { locks = remove k r'.locks })
        else (false, r')
      else (number == 1, record r { remote = s })
