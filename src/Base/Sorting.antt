-- ===== src/Base/Sorting.antt =====
-- `[...xs].sort(...)` as insertion sort, which is stable as the language demands.
use mathlib.Core.List.Permᴰ
use mathlib.Core.List.{Permᴰ, List, [], ◌∷◌}
use mathlib.Core.Path.{◌≡◌, refl}
use mathlib.Core.Logic.{inl, inr}
use mathlib.Core.Bool.{Bool, true, false}
use s3gator.Base.Tests.{if◌then◌else◌, Bool-cases}
use s3gator.Base.Lists.{All}

module _ {ℓ} {A : Type ℓ} (le : A → A → Bool) where
  unfoldable pub insert_by : A → List A → List A
  insert_by a [] = a ∷ []
  insert_by a (b ∷ xs) = let rest = insert_by a xs in if le a b then a ∷ b ∷ xs else b ∷ rest

  unfoldable pub sort_by : List A → List A
  unfolding insert_by
  sort_by [] = []
  sort_by (a ∷ xs) = insert_by a (sort_by xs)

  -- Every element is at most each that follows.
  abbrev pub IsSorted : List A → Type 0
  IsSorted [] = Unit
  IsSorted (a ∷ xs) = All (λ b. le a b ≡ true) xs × IsSorted xs

  pub insert_by-Perm : (a : A) (xs : List A) → Permᴰ (insert_by a xs) (a ∷ xs)
  unfolding insert_by
  insert_by-Perm a [] = Permᴰ.refl (a ∷ [])
  insert_by-Perm a (b ∷ xs) = elim (Bool-cases (le a b)) [
    | inl e ↦ rw e (Permᴰ.refl (a ∷ b ∷ xs))
    | inr e ↦ rw e (Permᴰ.trans (Permᴰ.cons refl (insert_by-Perm a xs)) (Permᴰ.swap refl refl))
  ]

  pub sort_by-Perm : (xs : List A) → Permᴰ (sort_by xs) xs
  unfolding sort_by
  sort_by-Perm [] = Permᴰ.refl []
  sort_by-Perm (a ∷ xs) =
      Permᴰ.trans (insert_by-Perm a (sort_by xs)) (Permᴰ.cons refl (sort_by-Perm xs))

  pub All-insert_by {κ} :
      (P : A → Type κ) (a : A) (xs : List A) → P a → All P xs → All P (insert_by a xs)
  unfolding insert_by
  All-insert_by P a [] ha h = (ha, tt)
  All-insert_by P a (b ∷ xs) ha h = elim (Bool-cases (le a b)) [
    | inl e ↦ rw e (ha, h)
    | inr e ↦ rw e (h.0, All-insert_by P a xs ha h.1)
  ]

  pub All-sort_by {κ} : (P : A → Type κ) (xs : List A) → All P xs → All P (sort_by xs)
  unfolding sort_by
  All-sort_by P [] h = tt
  All-sort_by P (a ∷ xs) h = All-insert_by P a (sort_by xs) h.0 (All-sort_by P xs h.1)

  module _ (total : (a b : A) → le a b ≡ false → le b a ≡ true)
      (chained : (a b c : A) → le a b ≡ true → le b c ≡ true → le a c ≡ true) where
    below-All :
        (a b : A) (xs : List A)
        → le a b ≡ true
        → All (λ c. le b c ≡ true) xs
        → All (λ c. le a c ≡ true) xs
    below-All a b [] h g = tt
    below-All a b (c ∷ xs) h g = (chained a b c h g.0, below-All a b xs h g.1)

    insert_by-IsSorted : (a : A) (xs : List A) → IsSorted xs → IsSorted (insert_by a xs)
    unfolding insert_by
    insert_by-IsSorted a [] h = (tt, tt)
    insert_by-IsSorted a (b ∷ xs) h = elim (Bool-cases (le a b)) [
      | inl e ↦ rw e ((e, below-All a b xs e h.0), h)
      | inr e ↦
          rw e
            (All-insert_by (λ c. le b c ≡ true) a xs (total a b e) h.0, insert_by-IsSorted a xs h.1)
    ]

    pub sort_by-IsSorted : (xs : List A) → IsSorted (sort_by xs)
    unfolding sort_by
    sort_by-IsSorted [] = tt
    sort_by-IsSorted (a ∷ xs) = insert_by-IsSorted a (sort_by xs) (sort_by-IsSorted xs)
