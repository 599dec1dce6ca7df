-- ===== src/Jobs/Json.antt =====
-- apps/api/src/jobs/jobs.service.ts: JSON values and `sanitizeJobMetadata`. Only values that JSON
-- can hold are modelled. Numbers are those that the service writes: counts, and durations in
-- seconds, which `seconds` keeps in milliseconds.
pub mod Redacted
use s3gator.Base.{
  ℕ, String, Bool, true, false, Option, none, some, List, [], ◌∷◌, ◌++◌, ◌||◌, if◌then◌else◌,
}
use s3gator.Base.Text.{Text, codes, includes}

mutual
  pub data Json : Type 0 where
    null : Json
    bool : Bool → Json
    num : ℕ → Json
    seconds : ℕ → Json
    str : Text → Json
    arr : Items → Json
    obj : Fields → Json

  pub data Items : Type 0 where
    nil : Items
    cons : Json → Items → Items

  pub data Fields : Type 0 where
    end : Fields
    field : Text → Json → Fields → Fields

abbrev fields_of : List (String × Json) → Fields
fields_of [] = end
fields_of ((k, v) ∷ rest) = field (codes k) v (fields_of rest)

-- An object literal.
abbrev pub object : List (String × Json) → Json
object entries = obj (fields_of entries)

abbrev pub string : String → Json
string s = str (codes s)

-- A nullable string.
abbrev pub nullable : Option String → Json
nullable none = null
nullable (some s) = string s

-- A member of an object literal that is left out if its value is undefined.
abbrev pub optional : String → Option Json → List (String × Json)
optional k none = []
optional k (some v) = (k, v) ∷ []

abbrev pub redact_keys : List Text
redact_keys =
    codes "password"
    ∷ codes "secret"
    ∷ codes "token"
    ∷ codes "authorization"
    ∷ codes "credential"
    ∷ codes "accesskey"
    ∷ codes "bindpassword"
    ∷ []

abbrev some_included : List Text → Text → Bool
some_included [] s = false
some_included (k ∷ ks) s = includes s k || some_included ks s

abbrev pub redacted : Json
redacted = string "[REDACTED]"

-- `lower` is `String.prototype.toLowerCase`.
module _ (lower : Text → Text) where
  pub is_secret : Text → Bool
  is_secret k = some_included redact_keys (lower k)

unfoldable mutual
  pub sanitize : (Text → Text) → Json → Json
  sanitize lower null = null
  sanitize lower (bool b) = bool b
  sanitize lower (num n) = num n
  sanitize lower (seconds n) = seconds n
  sanitize lower (str s) = str s
  sanitize lower (arr xs) = arr (sanitize_items lower xs)
  sanitize lower (obj fs) = obj (sanitize_fields lower fs)

  pub sanitize_items : (Text → Text) → Items → Items
  sanitize_items lower nil = nil
  sanitize_items lower (cons x xs) = cons (sanitize lower x) (sanitize_items lower xs)

  pub sanitize_fields : (Text → Text) → Fields → Fields
  sanitize_fields lower end = end
  sanitize_fields lower (field k v fs) =
      field k (if is_secret lower k then redacted else sanitize lower v) (sanitize_fields lower fs)

-- `sanitizeJobMetadata`, where `undefined` is none.
abbrev pub sanitize_metadata : (Text → Text) → Option Json → Option Json
sanitize_metadata lower none = none
sanitize_metadata lower (some j) = some (sanitize lower j)
