-- ===== src/Redis/Refined.antt =====
-- What the locks of RedisService promise, without the maps, the sweeps and the counters: a table
-- of owners over time, and the service without a server as an implementation of it.
use s3gator.Base.{
  ℕ, ◌+◌, ◌*◌, ◌≤◌, String, Bool, true, false, Option, none, some, List, [], ◌∷◌, ◌≡◌, ◌↔◌, arith,
  refl, ap, ◌∙◌, eq_iff, str_eq, ltb, is_some, if◌then◌else◌,
}
use s3gator.Redis.{
  Redis, RedisClient, acquire_lock, release_lock, increment_with_window, get, delete,
}
use s3gator.Redis.Exclusion.{Call, acquires, releases, increments, gets, deletes, step}
use s3gator.Redis.Laws.{holder, acquire_lock-holder, release_lock-holder}

-- Who owns each key at each time, as far as the calls until now decide it.
abbrev pub Owners : Type 0
Owners = ℕ → String → Option String

-- `owner` is `value`
abbrev is_owner : String → Option String → Bool
is_owner value none = false
is_owner value (some owner) = str_eq owner value

is_owner_iff : (value : String) (o : Option String) → (is_owner value o ≡ true) ↔ (o ≡ some value)
is_owner_iff value none = ground arith
is_owner_iff value (some owner) = ground (arith, eq_iff owner value)

-- The table with another line for one key.
abbrev own : String → (ℕ → Option String) → Owners → Owners
own k line owners t j = if str_eq k j then line t else owners t j

-- What a call answers about locks, and the table after it.
unfoldable pub promise : Owners → ℕ × Call → Option Bool × Owners
promise owners (now, acquires k value ttl) =
    if is_some (owners now k)
    then (some false, owners)
    else (some true, own k (λ t. if ltb t (now + ttl * 1000) then some value else none) owners)
promise owners (now, releases k value) =
    if is_owner value (owners now k)
    then (some true, own k (λ _. none) owners)
    else (some false, owners)
promise owners (now, increments k window) = (none, owners)
promise owners (now, gets k) = (none, owners)
promise owners (now, deletes k) = (none, own k (λ _. none) owners)

unfoldable pub promises : Owners → List (ℕ × Call) → List (Option Bool)
promises owners [] = []
promises owners (c ∷ cs) = (promise owners c).0 ∷ promises (promise owners c).1 cs

module _ {S : Type 0} (client : RedisClient S) where
  -- What the service answers about locks.
  pub answer : Redis S → ℕ × Call → Option Bool
  answer r (now, acquires k value ttl) = some (acquire_lock client k value ttl now r).0
  answer r (now, releases k value) = some (release_lock client k value now r).0
  answer r (now, _) = none

  pub answers : Redis S → List (ℕ × Call) → List (Option Bool)
  answers r [] = []
  answers r (c ∷ cs) = answer r c ∷ answers (step client r c) cs

-- The clock does not run backwards.
unfoldable pub Ordered : ℕ → List (ℕ × Call) → Type 0
Ordered now [] = Unit
Ordered now (c ∷ cs) = (now ≤ c.0) × Ordered c.0 cs

-- From `now` on, the service and the table agree on the owner of every key.
abbrev pub Implements : {S : Type 0} → ℕ → Redis S → Owners → Type 0
Implements now r owners =
    (r.enabled ≡ false) × ((t : ℕ) (j : String) → now ≤ t → holder r t j ≡ owners t j)

module _ {S : Type 0} (client : RedisClient S) where
  step-enabled :
      (r : Redis S) (c : ℕ × Call) → r.enabled ≡ false → (step client r c).enabled ≡ false
  unfolding step acquire_lock release_lock increment_with_window get delete
  step-enabled r (now, acquires k value ttl) off = ground arith
  step-enabled r (now, releases k value) off = ground arith
  step-enabled r (now, increments k window) off = ground arith
  step-enabled r (now, gets k) off = ground arith
  step-enabled r (now, deletes k) off = ground arith

  answer-promise :
      (r : Redis S) (owners : Owners) (c : ℕ × Call)
      → Implements c.0 r owners
      → answer client r c ≡ (promise owners c).0
  unfolding answer promise
  answer-promise r owners (now, acquires k value ttl) (off, same) = ground (
    arith,
    (acquire_lock-holder client k value k ttl now now r off (omega arith)).0,
    same now k (omega arith),
  )
  answer-promise r owners (now, releases k value) (off, same) = ground (
    arith,
    (release_lock-holder client k value k now now r off (omega arith)).0,
    same now k (omega arith),
    is_owner_iff value (owners now k),
  )
  answer-promise r owners (now, increments k window) h = refl
  answer-promise r owners (now, gets k) h = refl
  answer-promise r owners (now, deletes k) h = refl

  step-promise :
      (r : Redis S) (owners : Owners) (c : ℕ × Call) (t : ℕ) (j : String)
      → Implements c.0 r owners
      → c.0 ≤ t
      → holder (step client r c) t j ≡ (promise owners c).1 t j
  unfolding step promise increment_with_window get delete
  step-promise r owners (now, acquires k value ttl) t j (off, same) h = ground (
    arith,
    acquire_lock-holder client k value j ttl now t r off h,
    same now k (omega arith),
    same t j h,
  )
  step-promise r owners (now, releases k value) t j (off, same) h = ground (
    arith,
    release_lock-holder client k value j now t r off h,
    same now k (omega arith),
    same t j h,
    is_owner_iff value (owners now k),
  )
  step-promise r owners (now, increments k window) t j (off, same) h = ground (arith, same t j h)
  step-promise r owners (now, gets k) t j (off, same) h = ground (arith, same t j h)
  step-promise r owners (now, deletes k) t j (off, same) h = ground (arith, same t j h)

  step-Implements :
      (r : Redis S) (owners : Owners) (c : ℕ × Call)
      → Implements c.0 r owners
      → Implements c.0 (step client r c) (promise owners c).1
  step-Implements r owners c h =
      (step-enabled r c h.0, λ t j later. step-promise r owners c t j h later)

  -- Refinement without a server: if from some time on the service and a table of owners agree on
  -- the owner of every key, then whatever calls follow at times that do not decrease, from that
  -- time on, every attempt to lock or release a key is answered as the table says: a key is
  -- granted exactly when it has no owner and belongs to the new owner until its time runs out,
  -- only its owner releases it, deleting it takes it from anyone, and nothing else changes it.
  pub answers-promises :
      (r : Redis S) (owners : Owners) (now : ℕ) (cs : List (ℕ × Call))
      → Implements now r owners
      → Ordered now cs
      → answers client r cs ≡ promises owners cs
  unfolding answers promises Ordered
  answers-promises r owners now [] h ordered = refl
  answers-promises r owners now (c ∷ cs) (off, same) (later, ordered) =
      let here : Implements c.0 r owners = (off, λ t j le. same t j (omega arith)) in
      ap (λ a. a ∷ answers client (step client r c) cs) (answer-promise r owners c here)
      ∙ ap ((promise owners c).0 ∷◌) (
          answers-promises (step client r c) (promise owners c).1 c.0 cs
            (step-Implements r owners c here) ordered)
