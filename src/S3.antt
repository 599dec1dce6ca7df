-- ===== src/S3.antt =====
-- packages/s3/src: the object store and the file operations on it. The client is a parameter.
mod Examples
pub mod Keys
pub mod Laws
pub mod Delete
pub mod Rename
pub mod Listing
pub mod Multipart
use s3gator.Base.{ℕ, String, Option, List}
use s3gator.Base.Text.{Text}

-- `_Object`, with the fields that the operations read.
pub record S3Object : Type 0 where
  pub object_key : Option Text
  pub object_size : Option ℕ

-- The answer to `ListObjectsV2Command`, where absent `Contents` are no objects.
pub record Page : Type 0 where
  pub objects : List S3Object
  pub next_token : Option Text

-- An entry of `Errors` in the answer to `DeleteObjectsCommand`.
pub record DeleteError : Type 0 where
  pub error_key : Option Text
  pub error_message : Option String

-- The answer to `DeleteObjectsCommand`, where absent `Errors` are no errors.
pub record DeleteReport : Type 0 where
  pub deleted_keys : Option (List Text)
  pub errors : List DeleteError

-- What comes of `s3.send`: an answer, or an error that is thrown, by its message.
pub data Sent {ℓ} (A : Type ℓ) : Type ℓ where
  answered : A → Sent A
  failed : String → Sent A

-- The commands, on the state of the store. Each takes the bucket first.
pub record S3Client (S : Type 0) : Type 0 where
  pub list_objects : Text → Text → Option Text → ℕ → S → S × Sent Page
  pub delete_object : Text → Text → S → S × Sent (Unit {0})
  pub delete_objects : Text → List (Option Text) → S → S × Sent DeleteReport
  pub put_object : Text → Text → S → S × Sent (Unit {0})
  pub copy_object : Text → Text → Text → S → S × Sent (Unit {0})
