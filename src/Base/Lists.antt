-- ===== src/Base/Lists.antt =====
-- Lists measured by native numbers, and predicates on lists.
use Prim.Native.Nat.{ℕ, zero, suc, ◌+◌, ◌≤◌}
use mathlib.Core.Path.{◌≡◌, sym, ap, ◌∙◌}
use mathlib.Core.Bool.{Bool, true}
use mathlib.Core.List.{List, [], ◌∷◌, ◌++◌, Memᴰ}
use native.Mathlib.Omega.{arith}
use mathlib.Core.Logic.{inl, inr}
use s3gator.Base.Tests.{if◌then◌else◌, Bool-cases}

module _ {ℓ} {A : Type ℓ} where
  abbrev pub length : List A → ℕ
  length [] = 0
  length (x ∷ xs) = suc (length xs)

  abbrev pub take : ℕ → List A → List A
  take zero xs = []
  take (suc n) [] = []
  take (suc n) (x ∷ xs) = x ∷ take n xs

  abbrev pub drop : ℕ → List A → List A
  drop zero xs = xs
  drop (suc n) [] = []
  drop (suc n) (x ∷ xs) = drop n xs

  -- `xs.filter(p)`
  abbrev pub keep_if : (A → Bool) → List A → List A
  keep_if p [] = []
  keep_if p (x ∷ xs) = let rest = keep_if p xs in if p x then x ∷ rest else rest

  pub length-append : (xs ys : List A) → length (xs ++ ys) ≡ length xs + length ys
  length-append [] ys = omega arith
  length-append (x ∷ xs) ys = omega (arith, length-append xs ys)

  pub length-take_le : (n : ℕ) (xs : List A) → length (take n xs) ≤ n
  length-take_le zero xs = omega arith
  length-take_le (suc n) [] = omega arith
  length-take_le (suc n) (x ∷ xs) = omega (arith, length-take_le n xs)

module _ {ℓ κ} {A : Type ℓ} (P : A → Type κ) where
  abbrev pub All : List A → Type κ
  All [] = Unit
  All (x ∷ xs) = P x × All xs

  pub All-append : (xs ys : List A) → All xs → All ys → All (xs ++ ys)
  All-append [] ys hx hy = hy
  All-append (x ∷ xs) ys hx hy = (hx.0, All-append xs ys hx.1 hy)

  pub All-take : (n : ℕ) (xs : List A) → All xs → All (take n xs)
  All-take zero xs h = tt
  All-take (suc n) [] h = tt
  All-take (suc n) (x ∷ xs) h = (h.0, All-take n xs h.1)

-- What every element satisfies that passes a test.
pub All-keep_if {ℓ κ} :
    {A : Type ℓ} (P : A → Type κ) (p : A → Bool) (xs : List A)
    → ((x : A) → p x ≡ true → P x)
    → All P (keep_if p xs)
All-keep_if P p [] h = tt
All-keep_if P p (x ∷ xs) h = elim (Bool-cases (p x)) [
  | inl e ↦ rw e (h x e, All-keep_if P p xs h)
  | inr e ↦ rw e (All-keep_if P p xs h)
]

module _ {ℓ} {A : Type ℓ} (p : A → Bool) (a : A) where
  in_kept :
      (x : A) (xs : List A)
      → p x ≡ true
      → (Memᴰ a (keep_if p xs) → Memᴰ a xs × (p a ≡ true))
      → Memᴰ a (x ∷ keep_if p xs)
      → Memᴰ a (x ∷ xs) × (p a ≡ true)
  in_kept x xs h rec (Memᴰ.head e) = (Memᴰ.head e, ap p e ∙ h)
  in_kept x xs h rec (Memᴰ.tail m) = (Memᴰ.tail (rec m).0, (rec m).1)

  pub mem_of_keep_if : (xs : List A) → Memᴰ a (keep_if p xs) → Memᴰ a xs × (p a ≡ true)
  mem_of_keep_if [] m = elim m [ ]
  mem_of_keep_if (x ∷ xs) m = elim (Bool-cases (p x)) [
    | inl hit ↦ in_kept x xs hit (mem_of_keep_if xs) (rw hit at m)
    | inr miss ↦ let rest = mem_of_keep_if xs (rw miss at m) in (Memᴰ.tail rest.0, rest.1)
  ]

  pub keep_if_of_mem : (xs : List A) → p a ≡ true → Memᴰ a xs → Memᴰ a (keep_if p xs)
  keep_if_of_mem [] h m = elim m [ ]
  keep_if_of_mem (x ∷ xs) h (Memᴰ.head e) = rw (sym (ap p e) ∙ h) (Memᴰ.head e)
  keep_if_of_mem (x ∷ xs) h (Memᴰ.tail m) = elim (Bool-cases (p x)) [
    | inl hit ↦ rw hit (Memᴰ.tail (keep_if_of_mem xs h m))
    | inr miss ↦ rw miss (keep_if_of_mem xs h m)
  ]
