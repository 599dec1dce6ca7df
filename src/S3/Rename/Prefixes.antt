-- ===== src/S3/Rename/Prefixes.antt =====
-- Keys in a folder and in its renamed copy.
use s3gator.Base.{
  ℕ, true, false, [], ◌∷◌, ◌++◌, ◌≡◌, refl, sym, ap, ◌∙◌, length, drop, ==_iff, ◌==◌, Bool-cases,
  inl, inr,
}
use s3gator.Base.Text.{Text, starts_with}
use s3gator.S3.Rename.{destination}

pub prefix-rest : (k p : Text) → starts_with k p ≡ true → k ≡ p ++ drop (length p) k
unfolding starts_with
prefix-rest k [] h = refl
prefix-rest [] (b ∷ p) h = absurd (cc h)
prefix-rest (a ∷ k) (b ∷ p) h = elim (Bool-cases (a == b)) [
  | inl e ↦ cc ((==_iff a b).0 e, prefix-rest k p (rw e at h))
  | inr e ↦ absurd (cc (rw e at h))
]

tail_of : (c : ℕ) (s t : Text) → c ∷ s ≡ c ∷ t → s ≡ t
tail_of c s t e = cc e

append-injective : (p s t : Text) → p ++ s ≡ p ++ t → s ≡ t
append-injective [] s t e = e
append-injective (c ∷ p) s t e = append-injective p s t (tail_of c (p ++ s) (p ++ t) e)

-- Objects of the folder have destinations of their own.
pub destination-injective :
    (source target k j : Text)
    → starts_with k source ≡ true
    → starts_with j source ≡ true
    → destination source target k ≡ destination source target j
    → k ≡ j
unfolding destination
destination-injective source target k j hk hj e =
    prefix-rest k source hk
    ∙ (ap (λ (x : Text). source ++ x)
          (append-injective target (drop (length source) k) (drop (length source) j) e)
        ∙ sym (prefix-rest j source hj))

-- Where neither folder contains the other, no destination is in the folder.
pub destination-apart :
    (source target x : Text)
    → starts_with source target ≡ false
    → starts_with target source ≡ false
    → starts_with (target ++ x) source ≡ false
unfolding starts_with
destination-apart [] target x h g = absurd (cc g)
destination-apart (b ∷ source) [] x h g = absurd (cc h)
destination-apart (b ∷ source) (a ∷ target) x h g = elim (Bool-cases (a == b)) [
  | inl e ↦
      let same = (==_iff a b).0 e in
      rw e (destination-apart source target x (rw ((==_iff b a).1 (sym same)) at h) (rw e at g))
  | inr e ↦ rw e refl
]
