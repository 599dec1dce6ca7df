-- ===== src/Retention/Archive/Emptied.antt =====
-- The loop ends, leaves no row that it looks for, and loses none.
use mathlib.Core.List.{Memᴰ, map-append}
use s3gator.Base.{
  ℕ, zero, suc, ◌≤◌, ◌<◌, String, Bool, true, Option, List, [], ◌∷◌, ◌++◌, map, not, ◌≡◌, ◌≢◌, ◌⊎◌,
  inl, inr, refl, sym, ◌∙◌, ap, subst, arith, str_eq, eq_iff, keep_if, take, length, Bool-cases,
  All, All-take, mem_of_keep_if, keep_if_of_mem, is_some,
}
use s3gator.Base.Sorting.{insert_by, sort_by, All-sort_by}
use s3gator.Retention.Archive.{
  Archiving, id_in, find_batch, create_many, delete_ids, archive_and_delete,
}

All-Mem {ℓ} : {A : Type ℓ} (xs : List A) → All (λ a. Memᴰ a xs) xs
All-Mem [] = tt
All-Mem (x ∷ xs) = (Memᴰ.head refl, later x xs xs (All-Mem xs))
  where
    later :
        {A : Type ℓ} (x : A) (xs ys : List A)
        → All (λ a. Memᴰ a xs) ys
        → All (λ a. Memᴰ a (x ∷ xs)) ys
    later x xs [] h = tt
    later x xs (y ∷ ys) h = (Memᴰ.tail h.0, later x xs ys h.1)

-- A row that is found and dropped makes the found ones fewer.
module _ {A : Type 0} (found dropped : A → Bool) where
  abbrev left : List A → List A
  left rows = keep_if found (keep_if (λ a. not (dropped a)) rows)

  length-left : (rows : List A) → length (left rows) ≤ length (keep_if found rows)
  length-left [] = omega arith
  length-left (r ∷ rows) = elim (Bool-cases (dropped r)) [
    | inl d ↦ elim (Bool-cases (found r)) [
      | inl f ↦ rw (d, f) (omega (arith, length-left rows))
      | inr f ↦ rw (d, f) (length-left rows)
    ]
    | inr d ↦ elim (Bool-cases (found r)) [
      | inl f ↦ rw (d, f) (omega (arith, length-left rows))
      | inr f ↦ rw (d, f) (length-left rows)
    ]
  ]

  length-left_lt :
      (a : A) (rows : List A)
      → Memᴰ a rows
      → found a ≡ true
      → dropped a ≡ true
      → length (left rows) < length (keep_if found rows)
  length-left_lt a [] m f d = elim m [ ]
  length-left_lt a (r ∷ rows) (Memᴰ.head e) f d =
      rw (sym (ap found e) ∙ f, sym (ap dropped e) ∙ d) (omega (arith, length-left rows))
  length-left_lt a (r ∷ rows) (Memᴰ.tail m) f d = elim (Bool-cases (dropped r)) [
    | inl d' ↦ elim (Bool-cases (found r)) [
      | inl f' ↦ rw (d', f') (omega (arith, length-left_lt a rows m f d))
      | inr f' ↦ rw (d', f') (length-left_lt a rows m f d)
    ]
    | inr d' ↦ elim (Bool-cases (found r)) [
      | inl f' ↦ rw (d', f') (omega (arith, length-left_lt a rows m f d))
      | inr f' ↦ rw (d', f') (length-left_lt a rows m f d)
    ]
  ]

id_in_here : (id : String) (ids : List String) → id_in (id ∷ ids) id ≡ true
unfolding id_in
id_in_here id ids = ground (arith, eq_iff id id)

id_in-append :
    (id : String) (ids more : List String) → id_in ids id ≡ true → id_in (ids ++ more) id ≡ true
unfolding id_in
id_in-append id [] more h = absurd (cc h)
id_in-append id (i ∷ ids) more h = ground (arith, id_in-append id ids more)

id_in_last : (id : String) (ids : List String) → id_in (ids ++ id ∷ []) id ≡ true
unfolding id_in
id_in_last id [] = ground (arith, eq_iff id id)
id_in_last id (i ∷ ids) = ground (arith, id_in_last id ids)

List-cases {ℓ} :
    {A : Type ℓ} (xs : List A) → (xs ≡ []) ⊎ ((x : A) × (rest : List A) × (xs ≡ x ∷ rest))
List-cases [] = inl refl
List-cases (x ∷ rest) = inr (x, rest, refl)

insert_by_some : {A : Type 0} (le : A → A → Bool) (x : A) (ys : List A) → insert_by le x ys ≢ []
unfolding insert_by
insert_by_some le x [] = λ e. absurd (cc e)
insert_by_some le x (y ∷ ys) = λ e. elim (Bool-cases (le x y)) [
  | inl h ↦ absurd (cc (rw h at e))
  | inr h ↦ absurd (cc (rw h at e))
]

sort_by-nil : {A : Type 0} (le : A → A → Bool) (xs : List A) → sort_by le xs ≡ [] → xs ≡ []
unfolding sort_by
sort_by-nil le [] h = refl
sort_by-nil le (x ∷ xs) h = absurd (insert_by_some le x (sort_by le xs) h)

take-nil : {A : Type 0} (n : ℕ) (xs : List A) → 1 ≤ n → take n xs ≡ [] → xs ≡ []
take-nil zero xs h e = absurd (omega arith)
take-nil (suc n) [] h e = refl
take-nil (suc n) (x ∷ xs) h e = absurd (cc e)

-- The archive has a row from the one with the identifier.
abbrev pub has_source : {A B : Type 0} → Archiving A B → String → List B → Bool
has_source archiving id archive = id_in (map archiving.source_of archive) id

module _ {A B : Type 0} (archiving : Archiving A B)
    (named : (a : A) → archiving.source_of (archiving.archived a) ≡ archiving.id_of a) where
  has-append :
      (id : String) (archive : List B) (a : A)
      → has_source archiving id archive ≡ true
      → has_source archiving id (archive ++ archiving.archived a ∷ []) ≡ true
  has-append id archive a h =
      rw (map-append archiving.source_of archive (archiving.archived a ∷ [])) (
        id_in-append id (map archiving.source_of archive)
          (map archiving.source_of (archiving.archived a ∷ [])) h)

  has_last :
      (archive : List B) (a : A)
      → has_source archiving (archiving.id_of a) (archive ++ archiving.archived a ∷ []) ≡ true
  has_last archive a =
      rw (map-append archiving.source_of archive (archiving.archived a ∷ []), named a)
        (id_in_last (archiving.id_of a) (map archiving.source_of archive))

  has-create_many :
      (id : String) (rows : List A) (archive : List B)
      → has_source archiving id archive ≡ true
      → has_source archiving id (create_many archiving rows archive) ≡ true
  unfolding create_many
  has-create_many id [] archive h = h
  has-create_many id (r ∷ rows) archive h =
      elim (Bool-cases (has_source archiving (archiving.id_of r) archive)) [
        | inl old ↦ rw old (has-create_many id rows archive h)
        | inr new ↦ rw new (
            has-create_many id rows (archive ++ archiving.archived r ∷ [])
              (has-append id archive r h))
      ]

  has-create_many_new :
      (id : String) (rows : List A) (archive : List B)
      → id_in (map archiving.id_of rows) id ≡ true
      → has_source archiving id (create_many archiving rows archive) ≡ true
  unfolding create_many id_in
  has-create_many_new id [] archive h = absurd (cc h)
  has-create_many_new id (r ∷ rows) archive h = elim (Bool-cases (str_eq (archiving.id_of r) id)) [
    | inl same ↦ elim (Bool-cases (has_source archiving (archiving.id_of r) archive)) [
      | inl old ↦ rw old (
          has-create_many id rows archive
            (subst (λ i. has_source archiving i archive ≡ true) ((eq_iff _ _).0 same) old))
      | inr new ↦ rw new (
          has-create_many id rows (archive ++ archiving.archived r ∷ []) (
            subst (λ i. has_source archiving i (archive ++ archiving.archived r ∷ []) ≡ true)
              ((eq_iff _ _).0 same) (has_last archive r)))
    ]
    | inr other ↦ has-create_many_new id rows _ (rw other at h)
  ]

  -- A row is in its table or in the archive.
  abbrev IsKept : A → List A × List B → Type 0
  IsKept a tables = Memᴰ a tables.0 ⊎ (has_source archiving (archiving.id_of a) tables.1 ≡ true)

  batch-IsKept :
      (a : A) (batch rows : List A) (archive : List B)
      → IsKept a (rows, archive)
      → IsKept a (delete_ids archiving batch rows, create_many archiving batch archive)
  unfolding delete_ids
  batch-IsKept a batch rows archive (inl m) =
      elim (Bool-cases (id_in (map archiving.id_of batch) (archiving.id_of a))) [
        | inl taken ↦ inr (has-create_many_new (archiving.id_of a) batch archive taken)
        | inr left ↦ inl (
            keep_if_of_mem (λ b. not (id_in (map archiving.id_of batch) (archiving.id_of b))) a rows
              (ap not left) m)
      ]
  batch-IsKept a batch rows archive (inr h) =
      inr (has-create_many (archiving.id_of a) batch archive h)

  module _ (condition : A → Bool) (batch_size : ℕ) where
    loop-IsKept :
        (fuel count : ℕ) (rows : List A) (archive : List B) (a : A)
        → IsKept a (rows, archive)
        → IsKept a (archive_and_delete archiving condition batch_size fuel count rows archive).0
    unfolding archive_and_delete
    loop-IsKept zero count rows archive a h = h
    loop-IsKept (suc fuel) count rows archive a h =
        elim (List-cases (find_batch archiving condition batch_size rows)) [
          | inl e ↦ rw (archive_and_delete, e) h
          | inr (b, batch, e) ↦
              rw (archive_and_delete, e)
                (loop-IsKept fuel _ _ _ a (batch-IsKept a (b ∷ batch) rows archive h))
        ]

    found_All :
        (rows : List A)
        → All
            (λ a. Memᴰ a (keep_if condition rows))
            (find_batch archiving condition batch_size rows)
    unfolding find_batch
    found_All rows =
        All-take (λ a. Memᴰ a (keep_if condition rows)) batch_size _
          (All-sort_by _ (λ a. Memᴰ a (keep_if condition rows)) (keep_if condition rows)
            (All-Mem (keep_if condition rows)))

    found_none :
        (rows : List A)
        → 1 ≤ batch_size
        → find_batch archiving condition batch_size rows ≡ []
        → keep_if condition rows ≡ []
    unfolding find_batch
    found_none rows h e = sort_by-nil _ (keep_if condition rows) (take-nil batch_size _ h e)

    batch-fewer :
        (b : A) (batch rows : List A)
        → find_batch archiving condition batch_size rows ≡ b ∷ batch
        → length (keep_if condition (delete_ids archiving (b ∷ batch) rows))
          < length (keep_if condition rows)
    unfolding delete_ids
    batch-fewer b batch rows e =
        let (m, found) =
          mem_of_keep_if condition b rows
            (subst (All (λ a. Memᴰ a (keep_if condition rows))) e (found_All rows)).0 in
        length-left_lt condition (λ a. id_in (map archiving.id_of (b ∷ batch)) (archiving.id_of a))
          b rows m found (id_in_here (archiving.id_of b) (map archiving.id_of batch))

    -- The tables and the count are those of a loop that has ended, with no row left to find.
    abbrev IsEmptied : (List A × List B) × Option ℕ → Type 0
    IsEmptied r = (is_some r.1 ≡ true) × (keep_if condition r.0.0 ≡ [])

    loop-IsEmptied :
        (fuel count : ℕ) (rows : List A) (archive : List B)
        → 1 ≤ batch_size
        → length (keep_if condition rows) < fuel
        → IsEmptied (archive_and_delete archiving condition batch_size fuel count rows archive)
    unfolding archive_and_delete
    loop-IsEmptied zero count rows archive h g = absurd (omega (arith, g))
    loop-IsEmptied (suc fuel) count rows archive h g =
        elim (List-cases (find_batch archiving condition batch_size rows)) [
          | inl e ↦ rw (archive_and_delete, e) (refl, found_none rows h e)
          | inr (b, batch, e) ↦
              rw (archive_and_delete, e)
                (loop-IsEmptied fuel _ _ _ h (omega (arith, g, batch-fewer b batch rows e)))
        ]

    -- With batches of at least one row and fuel for one batch more than there are rows to find, the
    -- loop ends, no row is left that it looks for, and a row that the table had is still there or has
    -- its row in the archive.
    pub archive_and_delete-IsEmptied :
        (fuel count : ℕ) (rows : List A) (archive : List B) (a : A)
        → 1 ≤ batch_size
        → length (keep_if condition rows) < fuel
        → Memᴰ a rows
        → (is_some (archive_and_delete archiving condition batch_size fuel count rows archive).1
            ≡ true)
          × (keep_if condition
                (archive_and_delete archiving condition batch_size fuel count rows archive).0.0
              ≡ [])
          × (Memᴰ a (archive_and_delete archiving condition batch_size fuel count rows archive).0.0
              ⊎ (has_source archiving
                    (archiving.id_of a)
                    (archive_and_delete archiving condition batch_size fuel count rows archive).0.1
                  ≡ true))
    archive_and_delete-IsEmptied fuel count rows archive a h g m =
        let (ended, emptied) = loop-IsEmptied fuel count rows archive h g in
        (ended, emptied, loop-IsKept fuel count rows archive a (inl m))
