-- ===== src/Browser/Chunks.antt =====
-- The chunks of a file, side by side.
use s3gator.Base.{
  ℕ, zero, suc, ◌+◌, ◌-◌, ◌*◌, ◌≤◌, ◌<◌, List, [], ◌∷◌, ◌++◌, ◌≡◌, arith, refl, sym, ap, ◌∙◌, min,
  length, take, drop,
}
use s3gator.Browser.{get_chunk}
use s3gator.Files.Create.{parts_for}
use s3gator.Files.Create.Sizes.{parts_for-IsCover}

zero_add : (b : ℕ) → b ≡ 0 + b
zero_add b = omega arith

suc_add : (a b : ℕ) → suc (a + b) ≡ suc a + b
suc_add a b = omega arith

no_parts : (p : ℕ) → 0 ≡ 0 * p
no_parts p = omega arith

module _ {A : Type 0} where
  take-nil : (a : ℕ) → take {A = A} a [] ≡ []
  take-nil zero = refl
  take-nil (suc a) = refl

  take_at : {a b : ℕ} (xs : List A) → a ≡ b → take a xs ≡ take b xs
  take_at xs e = ap (λ k. take k xs) e

  drop_at : {a b : ℕ} (xs : List A) → a ≡ b → drop a xs ≡ drop b xs
  drop_at xs e = ap (λ k. drop k xs) e

  take_add : (a b : ℕ) (xs : List A) → take a xs ++ take b (drop a xs) ≡ take (a + b) xs
  take_add zero b xs = take_at xs (zero_add b)
  take_add (suc a) b [] = take-nil b ∙ sym (take-nil (suc a + b))
  take_add (suc a) b (x ∷ xs) = ap (x ∷◌) (take_add a b xs) ∙ take_at (x ∷ xs) (suc_add a b)

  drop-nil : (a : ℕ) → drop {A = A} a [] ≡ []
  drop-nil zero = refl
  drop-nil (suc a) = refl

  drop_add : (a b : ℕ) (xs : List A) → drop b (drop a xs) ≡ drop (a + b) xs
  drop_add zero b xs = drop_at xs (zero_add b)
  drop_add (suc a) b [] = drop-nil b ∙ sym (drop-nil (suc a + b))
  drop_add (suc a) b (x ∷ xs) = drop_add a b xs ∙ drop_at (x ∷ xs) (suc_add a b)

  length-drop : (a : ℕ) (xs : List A) → length (drop a xs) ≡ length xs - a
  length-drop zero xs = omega arith
  length-drop (suc a) [] = omega arith
  length-drop (suc a) (x ∷ xs) = omega (arith, length-drop a xs)

  take_all : (n : ℕ) (xs : List A) → length xs ≤ n → take n xs ≡ xs
  take_all zero [] h = refl
  take_all (suc n) [] h = refl
  take_all zero (x ∷ xs) h = elim (none_left h) [ ]
    where
      none_left : suc (length xs) ≤ 0 → ⊥
      none_left h = omega arith
  take_all (suc n) (x ∷ xs) h = ap (x ∷◌) (take_all n xs (omega arith))

  take-min : (n : ℕ) (xs : List A) → take (min n (length xs)) xs ≡ take n xs
  take-min zero xs = take_at xs clip
    where
      clip : min 0 (length xs) ≡ 0
      clip = omega arith
  take-min (suc n) [] = take-nil (min (suc n) 0)
  take-min (suc n) (x ∷ xs) = take_at (x ∷ xs) clip ∙ ap (x ∷◌) (take-min n xs)
    where
      clip : min (suc n) (suc (length xs)) ≡ suc (min n (length xs))
      clip = omega arith

  get_chunk-take : (file : List A) (n p : ℕ) → get_chunk file (suc n) p ≡ take p (drop (n * p) file)
  unfolding get_chunk
  get_chunk-take file n p = take_at (drop (n * p) file) clip ∙ take-min p (drop (n * p) file)
    where
      clip : min (n * p + p) (length file) - n * p ≡ min p (length (drop (n * p) file))
      clip = omega (arith, length-drop (n * p) file)

  -- The chunks of `count` parts, from the one after the first `n`.
  abbrev pub joined : List A → ℕ → ℕ → ℕ → List A
  joined file p n zero = []
  joined file p n (suc count) = get_chunk file (suc n) p ++ joined file p (suc n) count

  joined-take :
      (file : List A) (p n count : ℕ) → joined file p n count ≡ take (count * p) (drop (n * p) file)
  joined-take file p n zero = take_at (drop (n * p) file) (no_parts p)
  joined-take file p n (suc count) =
      ap (◌++ joined file p (suc n) count) (get_chunk-take file n p)
      ∙ ap (take p (drop (n * p) file) ++◌) (
          joined-take file p (suc n) count
          ∙ ap (take (count * p)) (drop_at file (next n) ∙ sym (drop_add (n * p) p file)))
      ∙ take_add p (count * p) (drop (n * p) file)
      ∙ take_at (drop (n * p) file) (more count)
    where
      next : (n : ℕ) → suc n * p ≡ n * p + p
      next n = omega arith

      more : (count : ℕ) → p + count * p ≡ suc count * p
      more count = omega arith

  -- The parts that the server counts for a file that is not empty, cut by the browser and put
  -- together in the order of their numbers, are the file.
  pub joined-parts_for :
      (file : List A) (p : ℕ)
      → 0 < length file
      → 0 < p
      → joined file p 0 (parts_for (length file) p) ≡ file
  joined-parts_for file p h g =
      joined-take file p 0 (parts_for (length file) p)
      ∙ ap (take _) (drop_at file (sym (no_parts p)))
      ∙ take_all _ file (parts_for-IsCover (length file) p h g).0
