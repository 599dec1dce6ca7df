-- ===== src/S3/Examples/Entries.antt =====
-- A listing with a folder and two files.
use mathlib.Core.List.{Permᴰ}
use s3gator.Base.{
  ℕ, Bool, true, false, Option, none, some, List, [], ◌∷◌, ◌++◌, ◌≡◌, leb, length, arith,
}
use s3gator.Base.Text.{Text, codes}
use s3gator.S3.Keys.{normalize_prefix}
use s3gator.S3.Listing.{
  by_size, desc, Entry, ListFilesOptions, ListAnswer, ListedObject, list_files,
}
use s3gator.S3.Listing.Shown.{Folders, Files, Arranged}
use s3gator.S3.Listing.Sorted.{IsNameOrder, list_files-IsSorted}

-- Names by their length.
abbrev name_le : Text → Text → Bool
name_le s t = leb (length s) (length t)

abbrev parse_date : Option Text → ℕ
parse_date t = 0

by_length : IsNameOrder name_le
by_length = record {
  total = λ s t h. either_way (length s) (length t) h;
  chained = λ s t u h g. chain (length s) (length t) (length u) h g;
}
  where
    either_way : (m n : ℕ) → leb m n ≡ false → leb n m ≡ true
    either_way m n h = ground arith

    chain : (m n o : ℕ) → leb m n ≡ true → leb n o ≡ true → leb m o ≡ true
    chain m n o h g = ground arith

abbrev opts : ListFilesOptions
opts = record {
  continuation_token = none;
  recursive = none;
  page_size = none;
  sort_by = some by_size;
  sort_order = some desc;
}

abbrev object : Text → ℕ → ListedObject
object key size = record {
  object_key = some key;
  size = some size;
  last_modified = none;
  e_tag = none;
}

abbrev answer : ListAnswer
answer = record {
  common_prefixes = some (codes "a/b/") ∷ none ∷ [];
  contents = object (codes "a/") 0 ∷ object (codes "a/1") 9 ∷ object (codes "a/2") 5 ∷ [];
  next_continuation_token = none;
  is_truncated = some false;
}

list_files-IsSorted_example :
    (folders : List Entry) × (files : List Entry) × Folders answer.common_prefixes folders
    × Files (normalize_prefix (codes "a")) answer.contents files
    × Permᴰ (list_files name_le parse_date (codes "a") opts answer).entries (folders ++ files)
    × Arranged name_le parse_date desc by_size
        (list_files name_le parse_date (codes "a") opts answer).entries
list_files-IsSorted_example =
    list_files-IsSorted name_le parse_date (codes "a") opts answer by_length
