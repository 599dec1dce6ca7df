-- ===== src/S3/Listing/Sorted.antt =====
-- The entries of a listing are those of the answer, sorted.
use mathlib.Core.List.Permᴰ
use mathlib.Core.List.{Permᴰ}
use s3gator.Base.{
  ℕ, Bool, true, false, Option, List, [], ◌∷◌, ◌++◌, ◌≡◌, refl, Bool-cases, inl, inr, arith, All,
  or_default,
}
use s3gator.Base.Text.{Text}
use s3gator.S3.Keys.{normalize_prefix}
use s3gator.S3.Listing.{
  SortBy, by_name, by_size, by_last_modified, by_type, SortOrder, asc, desc, Entry, folder, file,
  entry_name, entry_le, insert, sort, ordered, ListFilesOptions, ListAnswer, list_files, folders_of,
  files_of,
}
use s3gator.S3.Listing.Shown.{
  Folders, Files, folders_of-Folders, files_of-Files, Pairs, Arranged, Before-of, ordered-Arranged,
}

-- Every entry is at most each that follows.
abbrev IsSorted : (Entry → Entry → Bool) → List Entry → Type 0
IsSorted le [] = Unit
IsSorted le (a ∷ entries) = All (λ b. le a b ≡ true) entries × IsSorted le entries

-- Any two names compare in one of the two ways, and the comparisons chain.
pub record IsNameOrder (name_le : Text → Text → Bool) : Type 0 where
  pub total : (s t : Text) → name_le s t ≡ false → name_le t s ≡ true
  pub chained : (s t u : Text) → name_le s t ≡ true → name_le t u ≡ true → name_le s u ≡ true

module _ (name_le : Text → Text → Bool) (parse_date : Option Text → ℕ)
    (order : IsNameOrder name_le) where
  entry_le_total :
      (by : SortBy) (a b : Entry)
      → entry_le name_le parse_date by a b ≡ false
      → entry_le name_le parse_date by b a ≡ true
  unfolding entry_le
  entry_le_total by_name a b h = order.total (entry_name a) (entry_name b) h
  entry_le_total by_size a b h = ground arith
  entry_le_total by_last_modified a b h = ground arith
  entry_le_total by_type (folder k n) (file _ _ _ _ _) h = absurd (cc h)
  entry_le_total by_type (file _ _ _ _ _) (folder k n) h = refl
  entry_le_total by_type (folder k n) (folder k' n') h = order.total n n' h
  entry_le_total by_type (file k n _ _ _) (file k' n' _ _ _) h = order.total n n' h

  entry_le_chained :
      (by : SortBy) (a b c : Entry)
      → entry_le name_le parse_date by a b ≡ true
      → entry_le name_le parse_date by b c ≡ true
      → entry_le name_le parse_date by a c ≡ true
  unfolding entry_le
  entry_le_chained by_name a b c h g =
      order.chained (entry_name a) (entry_name b) (entry_name c) h g
  entry_le_chained by_size a b c h g = ground arith
  entry_le_chained by_last_modified a b c h g = ground arith
  entry_le_chained by_type (folder k n) (folder k' n') (folder k'' n'') h g =
      order.chained n n' n'' h g
  entry_le_chained by_type (folder k n) b (file _ _ _ _ _) h g = refl
  entry_le_chained by_type (folder k n) (file _ _ _ _ _) (folder k'' n'') h g = absurd (cc g)
  entry_le_chained by_type (file _ _ _ _ _) (folder k n) c h g = absurd (cc h)
  entry_le_chained by_type (file _ _ _ _ _) (file _ _ _ _ _) (folder k n) h g = absurd (cc g)
  entry_le_chained by_type (file k n _ _ _) (file k' n' _ _ _) (file k'' n'' _ _ _) h g =
      order.chained n n' n'' h g

  below-All :
      (by : SortBy) (a b : Entry) (entries : List Entry)
      → entry_le name_le parse_date by a b ≡ true
      → All (λ c. entry_le name_le parse_date by b c ≡ true) entries
      → All (λ c. entry_le name_le parse_date by a c ≡ true) entries
  below-All by a b [] h g = tt
  below-All by a b (c ∷ entries) h g =
      (entry_le_chained by a b c h g.0, below-All by a b entries h g.1)

  All-insert :
      (P : Entry → Type 0) (by : SortBy) (a : Entry) (entries : List Entry)
      → P a
      → All P entries
      → All P (insert name_le parse_date by a entries)
  unfolding insert
  All-insert P by a [] ha h = (ha, tt)
  All-insert P by a (b ∷ entries) ha h = elim (Bool-cases (entry_le name_le parse_date by a b)) [
    | inl e ↦ rw e (ha, h)
    | inr e ↦ rw e (h.0, All-insert P by a entries ha h.1)
  ]

  insert-IsSorted :
      (by : SortBy) (a : Entry) (entries : List Entry)
      → IsSorted (entry_le name_le parse_date by) entries
      → IsSorted (entry_le name_le parse_date by) (insert name_le parse_date by a entries)
  unfolding insert
  insert-IsSorted by a [] h = (tt, tt)
  insert-IsSorted by a (b ∷ entries) h = elim (Bool-cases (entry_le name_le parse_date by a b)) [
    | inl e ↦ rw e ((e, below-All by a b entries e h.0), h)
    | inr e ↦ rw e (
      All-insert (λ c. entry_le name_le parse_date by b c ≡ true) by a entries
          (entry_le_total by a b e) h.0,
      insert-IsSorted by a entries h.1,
    )
  ]

  sort-IsSorted :
      (by : SortBy) (entries : List Entry)
      → IsSorted (entry_le name_le parse_date by) (sort name_le parse_date by entries)
  unfolding sort
  sort-IsSorted by [] = tt
  sort-IsSorted by (a ∷ entries) =
      insert-IsSorted by a (sort name_le parse_date by entries) (sort-IsSorted by entries)

  insert-Perm :
      (by : SortBy) (a : Entry) (entries : List Entry)
      → Permᴰ (insert name_le parse_date by a entries) (a ∷ entries)
  unfolding insert
  insert-Perm by a [] = Permᴰ.refl (a ∷ [])
  insert-Perm by a (b ∷ entries) = elim (Bool-cases (entry_le name_le parse_date by a b)) [
    | inl e ↦ rw e (Permᴰ.refl (a ∷ b ∷ entries))
    | inr e ↦ rw e (Permᴰ.trans (Permᴰ.cons refl (insert-Perm by a entries)) (Permᴰ.swap refl refl))
  ]

  sort-Perm :
      (by : SortBy) (entries : List Entry) → Permᴰ (sort name_le parse_date by entries) entries
  unfolding sort
  sort-Perm by [] = Permᴰ.refl []
  sort-Perm by (a ∷ entries) =
      Permᴰ.trans (insert-Perm by a (sort name_le parse_date by entries))
        (Permᴰ.cons refl (sort-Perm by entries))

IsSorted-Pairs :
    (le : Entry → Entry → Bool) (R : Entry → Entry → Type 0) (entries : List Entry)
    → ((a b : Entry) → le a b ≡ true → R a b)
    → IsSorted le entries
    → Pairs R entries
IsSorted-Pairs le R [] f h = tt
IsSorted-Pairs le R (a ∷ entries) f h = (each entries h.0, IsSorted-Pairs le R entries f h.1)
  where
    each : (others : List Entry) → All (λ b. le a b ≡ true) others → All (λ b. R a b) others
    each [] g = tt
    each (b ∷ others) g = (f a b g.0, each others g.1)

ordered-Perm :
    (name_le : Text → Text → Bool) (parse_date : Option Text → ℕ) (order : SortOrder)
    (entries : List Entry)
    → Permᴰ (ordered name_le parse_date order entries) entries
ordered-Perm name_le parse_date asc entries = Permᴰ.refl entries
ordered-Perm name_le parse_date desc entries = Permᴰ.reverse entries

-- Where names are compared by an order, a listing has, each once, a folder for each prefix of the
-- answer that is there and not empty, and a file for each object whose key is not empty and not
-- the folder's own. They stand in the order that the options ask for, by name if they do not say,
-- and ascending unless they ask for the descending order.
pub list_files-IsSorted :
    (name_le : Text → Text → Bool) (parse_date : Option Text → ℕ) (prefix : Text)
    (opts : ListFilesOptions) (answer : ListAnswer)
    → IsNameOrder name_le
    → (folders : List Entry) × (files : List Entry) × Folders answer.common_prefixes folders
      × Files (normalize_prefix prefix) answer.contents files
      × Permᴰ (list_files name_le parse_date prefix opts answer).entries (folders ++ files)
      × Arranged name_le parse_date
          (or_default opts.sort_order asc)
          (or_default opts.sort_by by_name)
          (list_files name_le parse_date prefix opts answer).entries
unfolding list_files
list_files-IsSorted name_le parse_date prefix opts answer order =
    let own = normalize_prefix prefix in
    let entries = folders_of answer.common_prefixes ++ files_of own answer.contents in
    let by = or_default opts.sort_by by_name in
    let sorted = sort name_le parse_date by entries in
    (
      folders_of answer.common_prefixes,
      files_of own answer.contents,
      folders_of-Folders answer.common_prefixes,
      files_of-Files own answer.contents,
      Permᴰ.trans (ordered-Perm name_le parse_date (or_default opts.sort_order asc) sorted)
          (sort-Perm name_le parse_date order by entries),
      ordered-Arranged name_le parse_date (or_default opts.sort_order asc) by sorted (
          IsSorted-Pairs _ _ sorted (Before-of name_le parse_date by)
            (sort-IsSorted name_le parse_date order by entries)),
    )
