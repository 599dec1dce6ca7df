-- ===== src/S3/Listing.antt =====
-- packages/s3/src/file-service.ts: listing the files of a folder, with the sorting of the entries.
pub mod Shown
pub mod Sorted
use s3gator.Base.{
  ℕ, zero, suc, String, Bool, true, false, not, ◌&&◌, Option, none, some, List, [], ◌∷◌, ◌++◌, map,
  reverse, if◌then◌else◌, leb, or_default, keep_if,
}
use s3gator.Base.Text.{Text, text_eq}
use s3gator.S3.Keys.{normalize_prefix, base_name_from_key}

pub data SortBy : Type 0 where
  by_name by_size by_last_modified by_type : SortBy

pub data SortOrder : Type 0 where
  asc desc : SortOrder

pub record ListFilesOptions : Type 0 where
  pub continuation_token : Option Text
  pub recursive : Option Bool
  pub page_size : Option ℕ
  pub sort_by : Option SortBy
  pub sort_order : Option SortOrder

-- The fields of `ListObjectsV2Command`, without the bucket.
pub record ListRequest : Type 0 where
  pub request_prefix : Text
  pub delimited : Bool
  pub token : Option Text
  pub max_keys : ℕ

-- `_Object`; `last_modified` is the time as `toISOString` prints it.
pub record ListedObject : Type 0 where
  pub object_key : Option Text
  pub size : Option ℕ
  pub last_modified : Option Text
  pub e_tag : Option Text

-- The answer, where absent lists are empty.
pub record ListAnswer : Type 0 where
  pub common_prefixes : List (Option Text)
  pub contents : List ListedObject
  pub next_continuation_token : Option Text
  pub is_truncated : Option Bool

-- `ListedEntry`. The content type of a file's entry is always null here.
pub data Entry : Type 0 where
  folder : Text → Text → Entry
  file : Text → Text → ℕ → Option Text → Option Text → Entry

pub record ListFilesResult : Type 0 where
  pub prefix : Text
  pub entries : List Entry
  pub result_token : Option Text
  pub truncated : Bool

abbrev pub entry_name : Entry → Text
entry_name (folder key name) = name
entry_name (file key name size modified tag) = name

-- The prefixes that are there and not empty, as folders.
unfoldable pub folders_of : List (Option Text) → List Entry
folders_of [] = []
folders_of (none ∷ prefixes) = folders_of prefixes
folders_of (some [] ∷ prefixes) = folders_of prefixes
folders_of (some (c ∷ s) ∷ prefixes) =
    folder (c ∷ s) (base_name_from_key (c ∷ s)) ∷ folders_of prefixes

-- An object as the entry of a file, unless it has no key or stands for the folder itself.
abbrev pub add_file : Text → Option Text → ListedObject → List Entry → List Entry
add_file prefix none o files = files
add_file prefix (some []) o files = files
add_file prefix (some (c ∷ s)) o files =
    if text_eq (c ∷ s) prefix
    then files
    else file (c ∷ s) (base_name_from_key (c ∷ s)) (or_default o.size 0) o.last_modified o.e_tag
      ∷ files

unfoldable pub files_of : Text → List ListedObject → List Entry
files_of prefix [] = []
files_of prefix (o ∷ objects) = add_file prefix o.object_key o (files_of prefix objects)

-- What the comparisons need: whether `localeCompare` is at most 0, and `Date.parse`.
module _ (name_le : Text → Text → Bool) (parse_date : Option Text → ℕ) where
  -- The size that entries are compared by, more by one, so that a folder's -1 is 0.
  abbrev pub size_rank : Entry → ℕ
  size_rank (folder key name) = 0
  size_rank (file key name size modified tag) = suc size

  -- `parse_date none` is that of "1970-01-01".
  abbrev pub date_rank : Entry → ℕ
  date_rank (folder key name) = 0
  date_rank (file key name size modified tag) = parse_date modified

  -- The comparison of two entries is at most 0.
  unfoldable pub entry_le : SortBy → Entry → Entry → Bool
  entry_le by_name a b = name_le (entry_name a) (entry_name b)
  entry_le by_size a b = leb (size_rank a) (size_rank b)
  entry_le by_last_modified a b = leb (date_rank a) (date_rank b)
  entry_le by_type (folder key name) (file _ _ _ _ _) = true
  entry_le by_type (file _ _ _ _ _) (folder key name) = false
  entry_le by_type (folder key name) (folder key' name') = name_le name name'
  entry_le by_type (file key name _ _ _) (file key' name' _ _ _) = name_le name name'

  -- `Array.prototype.sort`, which is stable.
  unfoldable pub insert : SortBy → Entry → List Entry → List Entry
  unfolding entry_le
  insert by a [] = a ∷ []
  insert by a (b ∷ sorted) =
      let rest = insert by a sorted in if entry_le by a b then a ∷ b ∷ sorted else b ∷ rest

  unfoldable pub sort : SortBy → List Entry → List Entry
  unfolding insert
  sort by [] = []
  sort by (a ∷ entries) = insert by a (sort by entries)

  abbrev pub ordered : SortOrder → List Entry → List Entry
  ordered asc entries = entries
  ordered desc entries = reverse entries

  abbrev pub list_request : Text → ListFilesOptions → ListRequest
  list_request prefix opts = record {
    request_prefix = normalize_prefix prefix;
    delimited = not (or_default opts.recursive false);
    token = opts.continuation_token;
    max_keys = or_default opts.page_size 100;
  }

  -- The result of `listFiles` from the answer to its request.
  unfoldable pub list_files : Text → ListFilesOptions → ListAnswer → ListFilesResult
  unfolding sort folders_of files_of
  list_files prefix opts answer =
      let normalized = normalize_prefix prefix in
      let entries = folders_of answer.common_prefixes ++ files_of normalized answer.contents in
      record {
        prefix = normalized;
        entries =
            ordered (or_default opts.sort_order asc)
              (sort (or_default opts.sort_by by_name) entries);
        result_token = answer.next_continuation_token;
        truncated = or_default answer.is_truncated false;
      }
