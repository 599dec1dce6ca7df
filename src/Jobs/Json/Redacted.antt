-- ===== src/Jobs/Json/Redacted.antt =====
-- What a sanitized value can hold.
use s3gator.Base.{true, ◌≡◌, refl, Bool-cases, inl, inr}
use s3gator.Base.Text.{Text}
use s3gator.Jobs.Json.{
  Json, null, bool, num, seconds, str, arr, obj, Items, nil, cons, Fields, end, field, redacted,
  is_secret, sanitize, sanitize_items, sanitize_fields,
}

-- Below every key that names a secret, at any depth, stands only the marker.
abbrev mutual
  pub IsClean : (Text → Text) → Json → Type 0
  IsClean lower (arr xs) = IsCleanItems lower xs
  IsClean lower (obj fs) = IsCleanFields lower fs
  IsClean lower _ = Unit

  pub IsCleanItems : (Text → Text) → Items → Type 0
  IsCleanItems lower nil = Unit
  IsCleanItems lower (cons x xs) = IsClean lower x × IsCleanItems lower xs

  pub IsCleanFields : (Text → Text) → Fields → Type 0
  IsCleanFields lower end = Unit
  IsCleanFields lower (field k v fs) =
      (is_secret lower k ≡ true → v ≡ redacted) × IsClean lower v × IsCleanFields lower fs

mutual
  unfolding sanitize

  sanitize-IsClean_at : (lower : Text → Text) (j : Json) → IsClean lower (sanitize lower j)
  sanitize-IsClean_at lower null = tt
  sanitize-IsClean_at lower (bool b) = tt
  sanitize-IsClean_at lower (num n) = tt
  sanitize-IsClean_at lower (seconds n) = tt
  sanitize-IsClean_at lower (str s) = tt
  sanitize-IsClean_at lower (arr xs) = sanitize_items-IsCleanItems lower xs
  sanitize-IsClean_at lower (obj fs) = sanitize_fields-IsCleanFields lower fs

  sanitize_items-IsCleanItems :
      (lower : Text → Text) (xs : Items) → IsCleanItems lower (sanitize_items lower xs)
  sanitize_items-IsCleanItems lower nil = tt
  sanitize_items-IsCleanItems lower (cons x xs) =
      (sanitize-IsClean_at lower x, sanitize_items-IsCleanItems lower xs)

  sanitize_fields-IsCleanFields :
      (lower : Text → Text) (fs : Fields) → IsCleanFields lower (sanitize_fields lower fs)
  sanitize_fields-IsCleanFields lower end = tt
  sanitize_fields-IsCleanFields lower (field k v fs) = elim (Bool-cases (is_secret lower k)) [
    | inl e ↦ rw e ((λ _. refl), tt, sanitize_fields-IsCleanFields lower fs)
    | inr e ↦
        rw e (
          (λ h. absurd (cc h)),
          sanitize-IsClean_at lower v,
          sanitize_fields-IsCleanFields lower fs,
        )
  ]

mutual
  unfolding sanitize

  sanitize_of_clean : (lower : Text → Text) (j : Json) → IsClean lower j → sanitize lower j ≡ j
  sanitize_of_clean lower null h = refl
  sanitize_of_clean lower (bool b) h = refl
  sanitize_of_clean lower (num n) h = refl
  sanitize_of_clean lower (seconds n) h = refl
  sanitize_of_clean lower (str s) h = refl
  sanitize_of_clean lower (arr xs) h = cc (sanitize_items_of_clean lower xs h)
  sanitize_of_clean lower (obj fs) h = cc (sanitize_fields_of_clean lower fs h)

  sanitize_items_of_clean :
      (lower : Text → Text) (xs : Items) → IsCleanItems lower xs → sanitize_items lower xs ≡ xs
  sanitize_items_of_clean lower nil h = refl
  sanitize_items_of_clean lower (cons x xs) h =
      cc (sanitize_of_clean lower x h.0, sanitize_items_of_clean lower xs h.1)

  sanitize_fields_of_clean :
      (lower : Text → Text) (fs : Fields) → IsCleanFields lower fs → sanitize_fields lower fs ≡ fs
  sanitize_fields_of_clean lower end h = refl
  sanitize_fields_of_clean lower (field k v fs) h = elim (Bool-cases (is_secret lower k)) [
    | inl e ↦ rw e (cc (h.0 e, sanitize_fields_of_clean lower fs h.2))
    | inr e ↦ rw e (cc (sanitize_of_clean lower v h.1, sanitize_fields_of_clean lower fs h.2))
  ]

-- Whatever the function that lowers the case of a key: in a sanitized value every key that names
-- a secret, at any depth, has the marker for its value; and sanitizing it again changes nothing.
pub sanitize-IsClean :
    (lower : Text → Text) (j : Json)
    → IsClean lower (sanitize lower j) × (sanitize lower (sanitize lower j) ≡ sanitize lower j)
sanitize-IsClean lower j = (
  sanitize-IsClean_at lower j,
  sanitize_of_clean lower (sanitize lower j) (sanitize-IsClean_at lower j),
)
