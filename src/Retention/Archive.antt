-- ===== src/Retention/Archive.antt =====
-- apps/api/src/jobs/job-retention.service.ts: the loop that archives rows in batches and deletes
-- them, for job events and for audit logs.
pub mod Emptied
use s3gator.Base.{
  ℕ, zero, suc, ◌+◌, String, Bool, true, false, Option, none, some, List, [], ◌∷◌, ◌++◌, map, not,
  ◌||◌, if◌then◌else◌, leb, str_eq, keep_if, take, length,
}
use s3gator.Base.Sorting.{sort_by}

-- How the rows `A` of a table become rows `B` of its archive.
pub record Archiving (A B : Type 0) : Type 0 where
  pub id_of : A → String
  pub created_at : A → ℕ
  pub archived : A → B
  pub source_of : B → String

-- `id: { in: ids }`
unfoldable pub id_in : List String → String → Bool
id_in [] id = false
id_in (i ∷ ids) id = str_eq i id || id_in ids id

module _ {A B : Type 0} (archiving : Archiving A B) where
  -- `findMany` by the condition, the oldest first
  unfoldable pub find_batch : (A → Bool) → ℕ → List A → List A
  find_batch condition batch_size rows = take batch_size (
      sort_by (λ a b. leb (archiving.created_at a) (archiving.created_at b))
        (keep_if condition rows))

  -- `createMany` with `skipDuplicates`, whose unique column is the source's identifier
  unfoldable pub create_many : List A → List B → List B
  unfolding id_in
  create_many [] archive = archive
  create_many (a ∷ rows) archive = create_many rows (
      if id_in (map archiving.source_of archive) (archiving.id_of a)
      then archive
      else archive ++ archiving.archived a ∷ [])

  -- `deleteMany` by identifiers
  unfoldable pub delete_ids : List A → List A → List A
  unfolding id_in
  delete_ids batch rows =
      keep_if (λ a. not (id_in (map archiving.id_of batch) (archiving.id_of a))) rows

  -- The loop, over at most `fuel` batches: the tables and the number archived, which is that
  -- deleted, without it if the loop goes on.
  unfoldable pub archive_and_delete :
      (A → Bool) → ℕ → ℕ → ℕ → List A → List B → (List A × List B) × Option ℕ
  unfolding find_batch create_many delete_ids
  archive_and_delete condition batch_size zero count rows archive = ((rows, archive), none)
  archive_and_delete condition batch_size (suc fuel) count rows archive =
      elim (find_batch condition batch_size rows) [
        | [] ↦ ((rows, archive), some count)
        | a ∷ batch ↦
            archive_and_delete condition batch_size fuel (count + length (a ∷ batch))
              (delete_ids (a ∷ batch) rows) (create_many (a ∷ batch) archive)
      ]
