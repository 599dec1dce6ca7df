-- ===== src/S3/Laws.antt =====
-- What the object store documents of the commands that packages/s3/src/file-service.ts sends.
use s3gator.Base.{
  String, ℕ, ◌<◌, Bool, true, Option, none, some, List, ◌≡◌, ◌≢◌, refl, ◌⊎◌, inl, inr, All,
}
use s3gator.Base.Text.{Text, starts_with}
use s3gator.S3.{S3Object, Page, Sent, answered, failed, S3Client}
use s3gator.S3.Delete.{is_more}
use s3gator.S3.Rename.{copy_source}

-- An object whose key, if it has one, starts with the prefix.
abbrev pub Matches : Text → S3Object → Type 0
Matches prefix o = (k : Text) → o.object_key ≡ some k → starts_with k prefix ≡ true

-- What the object store documents of its commands, where `holds s b k` tells whether the bucket
-- `b` has an object of key `k`: a listing changes nothing and has only objects of its prefix, and
-- a deletion removes no other keys than those it names.
pub record S3Laws {S : Type 0} (client : S3Client S) (holds : S → Text → Text → Bool) : Type 0 where
  pub listing_keeps :
      (b p : Text) (t : Option Text) (n : ℕ) (s : S) (b' k : Text)
      → holds (client.list_objects b p t n s).0 b' k ≡ holds s b' k
  pub listing_matches :
      (b p : Text) (t : Option Text) (n : ℕ) (s : S) (page : Page)
      → (client.list_objects b p t n s).1 ≡ answered page
      → All (Matches p) page.objects
  pub deletion_keeps :
      (b key : Text) (s : S) (b' k : Text)
      → (b' ≢ b) ⊎ (k ≢ key)
      → holds (client.delete_object b key s).0 b' k ≡ holds s b' k
  pub deletions_keep :
      (b : Text) (keys : List (Option Text)) (s : S) (b' k : Text)
      → (b' ≢ b) ⊎ All (λ (x : Option Text). x ≢ some k) keys
      → holds (client.delete_objects b keys s).0 b' k ≡ holds s b' k

-- The continuation tokens of a listing lead to its end: each leaves fewer pages.
abbrev pub Advances : {S : Type 0} → S3Client S → (Option Text → ℕ) → Type 0
Advances {S} client pages_left =
    (b p : Text) (t : Option Text) (n : ℕ) (s : S) (page : Page)
    → (client.list_objects b p t n s).1 ≡ answered page
    → is_more page.next_token ≡ true
    → pages_left page.next_token < pages_left t

-- What the object store documents of the commands of a rename, where `lookup s k` is the content
-- of the bucket's object of key `k`. A command that fails may have been done or not.
pub record RenameLaws {S V : Type 0} (client : S3Client S) (lookup : S → Text → Option V)
    (encode : Text → Text) (name : Text) : Type 0 where
  pub listing_keeps :
      (p : Text) (t : Option Text) (n : ℕ) (s : S) (k : Text)
      → lookup (client.list_objects name p t n s).0 k ≡ lookup s k
  pub listing_matches :
      (p : Text) (t : Option Text) (n : ℕ) (s : S) (page : Page)
      → (client.list_objects name p t n s).1 ≡ answered page
      → All (Matches p) page.objects
  pub copy_keeps :
      (src dst k : Text) (s : S)
      → k ≢ dst
      → lookup (client.copy_object name dst (copy_source encode name src) s).0 k ≡ lookup s k
  pub copy_target :
      (src dst : Text) (s : S)
      → (lookup (client.copy_object name dst (copy_source encode name src) s).0 dst ≡ lookup s dst)
        ⊎ (lookup (client.copy_object name dst (copy_source encode name src) s).0 dst
            ≡ lookup s src)
  pub copy_missing :
      (src dst : Text) (s : S)
      → lookup s src ≡ none
      → lookup (client.copy_object name dst (copy_source encode name src) s).0 dst ≡ lookup s dst
  pub copy_answered :
      (src dst : Text) (s : S) (u : Unit {0})
      → (client.copy_object name dst (copy_source encode name src) s).1 ≡ answered u
      → (lookup s src ≢ none)
        × (lookup (client.copy_object name dst (copy_source encode name src) s).0 dst
            ≡ lookup s src)
  pub deletion_keeps :
      (key k : Text) (s : S) → k ≢ key → lookup (client.delete_object name key s).0 k ≡ lookup s k
  pub deletion_target :
      (key : Text) (s : S)
      → (lookup (client.delete_object name key s).0 key ≡ lookup s key)
        ⊎ (lookup (client.delete_object name key s).0 key ≡ none)

pub Sent-cases {ℓ} :
    {A : Type ℓ} (x : Sent A) → ((m : String) × (x ≡ failed m)) ⊎ ((a : A) × (x ≡ answered a))
Sent-cases (failed m) = inl (m, refl)
Sent-cases (answered a) = inr (a, refl)
