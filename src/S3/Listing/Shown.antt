-- ===== src/S3/Listing/Shown.antt =====
-- What a listing shows, and in which order, told apart from how it is computed.
use mathlib.Core.List.{reverse_aux}
use s3gator.Base.{
  ℕ, ◌≤◌, Bool, true, Option, none, some, List, [], ◌∷◌, ◌≡◌, ◌≢◌, ◌⊎◌, inl, inr, refl, sym, ap,
  ◌∙◌, reverse, All, or_default, arith, Bool-cases,
}
use s3gator.Base.Text.{Text, text_eq, text_eq_iff}
use s3gator.S3.Keys.{base_name_from_key}
use s3gator.S3.Listing.{
  SortBy, by_name, by_size, by_last_modified, by_type, SortOrder, asc, desc, Entry, folder, file,
  entry_name, entry_le, ListedObject, folders_of, add_file, files_of, ordered,
}

-- The entries of the prefixes of an answer: a folder for each that is there and not empty.
pub data Folders : List (Option Text) → List Entry → Type 0 where
  no_prefixes : Folders [] []
  folder_shown :
      {key : Text} {prefixes : List (Option Text)} {entries : List Entry}
      → key ≢ []
      → Folders prefixes entries
      → Folders (some key ∷ prefixes) (folder key (base_name_from_key key) ∷ entries)
  prefix_skipped :
      {p : Option Text} {prefixes : List (Option Text)} {entries : List Entry}
      → (p ≡ none) ⊎ (p ≡ some [])
      → Folders prefixes entries
      → Folders (p ∷ prefixes) entries

-- The entries of the objects of an answer: a file for each that has a key that is not empty and
-- not the folder's own.
pub data Files (own : Text) : List ListedObject → List Entry → Type 0 where
  no_objects : Files own [] []
  file_shown :
      {key : Text} {o : ListedObject} {objects : List ListedObject} {entries : List Entry}
      → o.object_key ≡ some key
      → key ≢ []
      → key ≢ own
      → Files own objects entries
      → Files own (o ∷ objects) (
          file key (base_name_from_key key) (or_default o.size 0) o.last_modified o.e_tag ∷ entries)
  object_skipped :
      {o : ListedObject} {objects : List ListedObject} {entries : List Entry}
      → (o.object_key ≡ none) ⊎ ((o.object_key ≡ some []) ⊎ (o.object_key ≡ some own))
      → Files own objects entries
      → Files own (o ∷ objects) entries

pub folders_of-Folders : (prefixes : List (Option Text)) → Folders prefixes (folders_of prefixes)
unfolding folders_of
folders_of-Folders [] = no_prefixes
folders_of-Folders (none ∷ prefixes) = prefix_skipped (inl refl) (folders_of-Folders prefixes)
folders_of-Folders (some [] ∷ prefixes) = prefix_skipped (inr refl) (folders_of-Folders prefixes)
folders_of-Folders (some (c ∷ s) ∷ prefixes) =
    folder_shown (λ e. absurd (cc e)) (folders_of-Folders prefixes)

add_file-Files :
    (own : Text) (key : Option Text) (o : ListedObject) (objects : List ListedObject)
    (entries : List Entry)
    → o.object_key ≡ key
    → Files own objects entries
    → Files own (o ∷ objects) (add_file own key o entries)
add_file-Files own none o objects entries e rest = object_skipped (inl e) rest
add_file-Files own (some []) o objects entries e rest = object_skipped (inr (inl e)) rest
add_file-Files own (some (c ∷ s)) o objects entries e rest =
    elim (Bool-cases (text_eq (c ∷ s) own)) [
      | inl same ↦
          rw same (object_skipped (inr (inr (e ∙ ap some ((text_eq_iff (c ∷ s) own).0 same)))) rest)
      | inr other ↦ rw other (
          file_shown e (λ p. absurd (cc p))
            (λ p. absurd (cc (sym ((text_eq_iff (c ∷ s) own).1 p) ∙ other))) rest)
    ]

pub files_of-Files :
    (own : Text) (objects : List ListedObject) → Files own objects (files_of own objects)
unfolding files_of
files_of-Files own [] = no_objects
files_of-Files own (o ∷ objects) =
    add_file-Files own o.object_key o objects (files_of own objects) refl
      (files_of-Files own objects)

-- Every two entries are related, the earlier one first.
abbrev pub Pairs : (Entry → Entry → Type 0) → List Entry → Type 0
Pairs R [] = Unit
Pairs R (a ∷ entries) = All (λ b. R a b) entries × Pairs R entries

Pairs-reverse_aux :
    (R : Entry → Entry → Type 0) (entries done : List Entry)
    → Pairs R entries
    → Pairs (λ a b. R b a) done
    → All (λ a. All (λ b. R b a) done) entries
    → Pairs (λ a b. R b a) (reverse_aux entries done)
Pairs-reverse_aux R [] done h g below = g
Pairs-reverse_aux R (a ∷ entries) done h g below =
    Pairs-reverse_aux R entries (a ∷ done) h.1 (below.0, g) (both entries h.0 below.1)
  where
    both :
        (others : List Entry)
        → All (λ b. R a b) others
        → All (λ b. All (λ c. R c b) done) others
        → All (λ b. R a b × All (λ c. R c b) done) others
    both [] p q = tt
    both (b ∷ others) p q = ((p.0, q.0), both others p.1 q.1)

Pairs-reverse :
    (R : Entry → Entry → Type 0) (entries : List Entry)
    → Pairs R entries
    → Pairs (λ a b. R b a) (reverse entries)
Pairs-reverse R entries h = Pairs-reverse_aux R entries [] h tt (nothing entries)
  where
    nothing : (others : List Entry) → All (λ a. All (λ b. R b a) []) others
    nothing [] = tt
    nothing (b ∷ others) = (tt, nothing others)

module _ (name_le : Text → Text → Bool) (parse_date : Option Text → ℕ) where
  -- The first entry may stand before the second in ascending order. By size, a folder may stand
  -- before everything, and by type before every file; by the last change, its time is 0.
  pub Before : SortBy → Entry → Entry → Type 0
  Before by_name a b = name_le (entry_name a) (entry_name b) ≡ true
  Before by_size (folder _ _) b = Unit
  Before by_size (file _ _ _ _ _) (folder _ _) = ⊥
  Before by_size (file _ _ size _ _) (file _ _ size' _ _) = size ≤ size'
  Before by_last_modified (folder _ _) b = Unit
  Before by_last_modified (file _ _ _ time _) (folder _ _) = parse_date time ≤ 0
  Before by_last_modified (file _ _ _ time _) (file _ _ _ time' _) =
      parse_date time ≤ parse_date time'
  Before by_type (folder _ name) (folder _ name') = name_le name name' ≡ true
  Before by_type (folder _ _) (file _ _ _ _ _) = Unit
  Before by_type (file _ _ _ _ _) (folder _ _) = ⊥
  Before by_type (file _ name _ _ _) (file _ name' _ _ _) = name_le name name' ≡ true

  -- The entries stand in the order that was asked for.
  abbrev pub Arranged : SortOrder → SortBy → List Entry → Type 0
  Arranged asc by entries = Pairs (λ a b. Before by a b) entries
  Arranged desc by entries = Pairs (λ a b. Before by b a) entries

  pub Before-of :
      (by : SortBy) (a b : Entry) → entry_le name_le parse_date by a b ≡ true → Before by a b
  unfolding entry_le Before
  Before-of by_name a b h = h
  Before-of by_size (folder _ _) b h = tt
  Before-of by_size (file _ _ _ _ _) (folder _ _) h = ground arith
  Before-of by_size (file _ _ _ _ _) (file _ _ _ _ _) h = ground arith
  Before-of by_last_modified (folder _ _) b h = tt
  Before-of by_last_modified (file _ _ _ _ _) (folder _ _) h = ground arith
  Before-of by_last_modified (file _ _ _ _ _) (file _ _ _ _ _) h = ground arith
  Before-of by_type (folder _ _) (folder _ _) h = h
  Before-of by_type (folder _ _) (file _ _ _ _ _) h = tt
  Before-of by_type (file _ _ _ _ _) (folder _ _) h = absurd (cc h)
  Before-of by_type (file _ _ _ _ _) (file _ _ _ _ _) h = h

  pub ordered-Arranged :
      (order : SortOrder) (by : SortBy) (entries : List Entry)
      → Pairs (λ a b. Before by a b) entries
      → Arranged order by (ordered name_le parse_date order entries)
  ordered-Arranged asc by entries h = h
  ordered-Arranged desc by entries h = Pairs-reverse (λ a b. Before by a b) entries h
