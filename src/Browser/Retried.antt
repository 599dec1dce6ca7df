-- ===== src/Browser/Retried.antt =====
-- The turns of the loop that sends a part.
use s3gator.Base.{
  ℕ, zero, suc, ◌+◌, ◌*◌, ◌^◌, ◌≤◌, ◌<◌, Bool, true, false, not, Option, some, ◌≡◌, arith, refl, ap,
  ◌∙◌, Bool-cases, ◌⊎◌, inl, inr, or_default, leb,
}
use s3gator.Browser.{
  Outside, Input, Failure, CompletedPart, is_abort_upload_error, caught, attempt_part, retry_loop,
  upload_part_with_retry,
}

-- A failed attempt that the user did not abort.
abbrev pub is_retried : Failure ⊎ CompletedPart → Bool
is_retried (inl failure) = not (is_abort_upload_error failure)
is_retried (inr part) = false

caught_retried :
    {W : Type 0} (a : Failure ⊎ CompletedPart) (w : W) (last : Bool)
    (rest : Option ((Failure ⊎ CompletedPart) × W))
    → is_retried a ≡ true
    → last ≡ false
    → caught a w last rest ≡ rest
caught_retried (inl failure) w last rest h g = ground arith
caught_retried (inr part) w last rest h g = ground arith

caught_final :
    {W : Type 0} (a : Failure ⊎ CompletedPart) (w : W) (last : Bool)
    (rest : Option ((Failure ⊎ CompletedPart) × W))
    → is_retried a ≡ false
    → caught a w last rest ≡ some (a, w)
caught_final (inl failure) w last rest h = ground arith
caught_final (inr part) w last rest h = refl

le→leb : (a b : ℕ) → a ≤ b → leb a b ≡ true
le→leb a b h = ground arith

lt→leb : (a b : ℕ) → a < b → leb b a ≡ false
lt→leb a b h = ground arith

lt-cases : (a b : ℕ) → a < suc b → (a < b) ⊎ (a ≡ b)
lt-cases a b h = omega arith

not_below : (i : ℕ) → i < 0 → ⊥
not_below i h = omega arith

caught_last :
    {W : Type 0} (a : Failure ⊎ CompletedPart) (w : W) (last : Bool)
    (rest : Option ((Failure ⊎ CompletedPart) × W))
    → last ≡ true
    → caught a w last rest ≡ some (a, w)
caught_last (inl failure) w last rest h = ground arith
caught_last (inr part) w last rest h = refl

module _ {A W : Type 0} (outside : Outside A W) (input : Input A) where
  -- The world before the attempt with this number, if all the attempts before it are made: each
  -- is followed by a sleep, of 250 milliseconds first and of twice as many each time.
  pub world_before : W → ℕ → W
  world_before w zero = w
  world_before w (suc k) =
      outside.sleep (250 * 2 ^ k) (attempt_part outside input (world_before w k)).1

  -- The answer of that attempt and the world after it.
  abbrev pub attempt_at : W → ℕ → (Failure ⊎ CompletedPart) × W
  attempt_at w k = attempt_part outside input (world_before w k)

  -- The attempt `k` is the last one: those before it were retried, and it is the one after
  -- `max_retries` retries or is not retried.
  abbrev pub IsLast : W → ℕ → ℕ → Type 0
  IsLast w max_retries k =
      (k ≤ max_retries)
      × ((i : ℕ) → i < k → is_retried (attempt_at w i).0 ≡ true)
      × ((k ≡ max_retries) ⊎ (is_retried (attempt_at w k).0 ≡ false))

  -- One turn of the loop, which is under its condition.
  loop_turn :
      (max_retries left k : ℕ) (w : W)
      → k ≤ max_retries
      → retry_loop outside input (suc left) max_retries k w
        ≡ caught
            (attempt_part outside input w).0
            (attempt_part outside input w).1
            (leb max_retries k)
            (retry_loop outside input left max_retries
              (suc k)
              (outside.sleep (250 * 2 ^ k) (attempt_part outside input w).1))
  unfolding retry_loop
  loop_turn max_retries left k w h = rw (le→leb k max_retries h) refl

  -- All attempts before the next one were retried.
  retried_next :
      (w : W) (k : ℕ)
      → ((i : ℕ) → i < k → is_retried (attempt_at w i).0 ≡ true)
      → is_retried (attempt_at w k).0 ≡ true
      → (i : ℕ) → i < suc k
      → is_retried (attempt_at w i).0 ≡ true
  retried_next w k before here i h = elim (lt-cases i k h) [
    | inl less ↦ before i less
    | inr same ↦ ap (λ n. is_retried (attempt_at w n).0) same ∙ here
  ]

  loop-IsLast :
      (w : W) (max_retries left k : ℕ)
      → k + left ≡ max_retries
      → ((i : ℕ) → i < k → is_retried (attempt_at w i).0 ≡ true)
      → (n : ℕ) × IsLast w max_retries n
        × (retry_loop outside input (suc left) max_retries k (world_before w k)
            ≡ some (attempt_at w n))
  unfolding world_before
  loop-IsLast w max_retries zero k e before = (
    k,
    (omega arith, before, inl (omega arith)),
    loop_turn max_retries 0 k (world_before w k) (omega arith)
        ∙ caught_last (attempt_at w k).0 (attempt_at w k).1 _ _
            (le→leb max_retries k (omega arith)),
  )
  loop-IsLast w max_retries (suc left) k e before =
      elim (Bool-cases (is_retried (attempt_at w k).0)) [
        | inr final ↦ (
          k,
          (omega arith, before, inr final),
          loop_turn max_retries (suc left) k (world_before w k) (omega arith)
              ∙ caught_final (attempt_at w k).0 (attempt_at w k).1 _ _ final,
        )
        | inl retried ↦
            let later =
              loop-IsLast w max_retries left (suc k) (omega arith)
                (retried_next w k before retried) in
            (
              later.0,
              later.1,
              loop_turn max_retries (suc left) k (world_before w k) (omega arith)
                  ∙ caught_retried (attempt_at w k).0 (attempt_at w k).1 _ _ retried
                      (lt→leb k max_retries (omega arith))
                  ∙ later.2,
            )
      ]

  -- Sending a part ends, whatever the network does: its result is the answer of one attempt, the
  -- first one that succeeds or is aborted, or the one after the given number of retries (3 if none
  -- is given). Each attempt before it failed otherwise and was followed by a sleep that doubles.
  pub upload_part_with_retry-IsLast :
      (w : W)
      → (n : ℕ) × IsLast w (or_default input.max_retries 3) n
        × (upload_part_with_retry outside input w ≡ some (attempt_at w n))
  unfolding upload_part_with_retry world_before
  upload_part_with_retry-IsLast w =
      loop-IsLast w (or_default input.max_retries 3) (or_default input.max_retries 3) 0
        (omega arith) (λ i h. elim (not_below i h) [ ])
