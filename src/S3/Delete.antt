-- ===== src/S3/Delete.antt =====
-- packages/s3/src/file-service.ts: deleting a file, a folder, or both.
pub mod Outside
use s3gator.Base.{
  ℕ, zero, suc, ◌+◌, ◌-◌, String, Bool, true, false, Option, none, some, List, [], ◌∷◌, ◌++◌, map,
  if◌then◌else◌, or_default, length,
}
use s3gator.Base.Text.{Text, codes, ends_with}
use s3gator.S3.Keys.{slash, normalize_key, normalize_prefix}
use s3gator.S3.{S3Object, Page, DeleteError, DeleteReport, Sent, answered, failed, S3Client}

pub record Failure : Type 0 where
  pub failed_key : Text
  pub message : String

pub record DeleteResult : Type 0 where
  pub bucket : Text
  pub deleted : ℕ
  pub failures : List Failure

-- The number of keys in one request.
abbrev pub batch : ℕ
batch = 1000

abbrev close_chunk {ℓ} : {A : Type ℓ} → List A → List (List A)
close_chunk [] = []
close_chunk (x ∷ xs) = (x ∷ xs) ∷ []

-- The slices of `batch` objects, where `part` is the one begun, which has room for `room` more.
pub chunks_from {ℓ} : {A : Type ℓ} → ℕ → List A → List A → List (List A)
chunks_from room part [] = close_chunk part
chunks_from zero part (x ∷ xs) = part ∷ chunks_from (batch - 1) (x ∷ []) xs
chunks_from (suc room) part (x ∷ xs) = chunks_from room (part ++ x ∷ []) xs

abbrev pub failure_of_error : DeleteError → Failure
failure_of_error e = record {
  failed_key = or_default e.error_key (codes "(unknown)");
  message = or_default e.error_message "DeleteObjects failed";
}

abbrev pub failure_of_object : String → S3Object → Failure
failure_of_object m o = record {
  failed_key = or_default o.object_key (codes "(unknown)");
  message = m;
}

abbrev count : Option (List Text) → ℕ
count none = 0
count (some keys) = length keys

-- What one request of `deleteFolderByPrefix` adds to the result.
unfoldable pub add_chunk : List S3Object → Sent DeleteReport → DeleteResult → DeleteResult
add_chunk chunk (answered report) r = record {
  bucket = r.bucket;
  deleted = r.deleted + count report.deleted_keys;
  failures = r.failures ++ map failure_of_error report.errors;
}
add_chunk chunk (failed m) r = record {
  bucket = r.bucket;
  deleted = r.deleted;
  failures = r.failures ++ map (failure_of_object m) chunk;
}

abbrev pub is_more : Option Text → Bool
is_more none = false
is_more (some []) = false
is_more (some (c ∷ s)) = true

module _ {S : Type 0} (client : S3Client S) (name : Text) where
  unfoldable pub list_object_keys : Text → Option Text → ℕ → S → S × Sent Page
  list_object_keys prefix token max_keys s = client.list_objects name prefix token max_keys s

  unfoldable pub delete_chunks : List (List S3Object) → DeleteResult → S → S × DeleteResult
  unfolding add_chunk
  delete_chunks [] r s = (s, r)
  delete_chunks (chunk ∷ chunks) r s =
      let sent = client.delete_objects name (map (λ o. o.object_key) chunk) s in
      delete_chunks chunks (add_chunk chunk sent.1 r) sent.0

  -- The loop of `deleteFolderByPrefix`, over at most `fuel` pages: without a result if these do
  -- not end it, and with a failure if a listing throws.
  unfoldable pub delete_pages :
      ℕ → Text → Option Text → DeleteResult → S → S × Option (Sent DeleteResult)
  unfolding list_object_keys delete_chunks chunks_from
  delete_pages zero prefix token r s = (s, none)
  delete_pages (suc fuel) prefix token r s =
      let listed = list_object_keys prefix token batch s in
      elim listed.1 [
        | failed m ↦ (listed.0, some (failed m))
        | answered page ↦
            let done = delete_chunks (chunks_from batch [] page.objects) r listed.0 in
            let rest = delete_pages fuel prefix page.next_token done.1 done.0 in
            if is_more page.next_token then rest else (done.0, some (answered done.1))
      ]

  abbrev pub nothing_deleted : DeleteResult
  nothing_deleted = record { bucket = name; deleted = 0; failures = [] }

  unfoldable pub delete_folder_by_prefix : ℕ → Text → S → S × Option (Sent DeleteResult)
  unfolding delete_pages
  delete_folder_by_prefix fuel prefix s = delete_pages fuel prefix none nothing_deleted s

  -- The count and the failures of the key itself.
  abbrev pub delete_file : Text → S → S × DeleteResult
  delete_file key s =
      let sent = client.delete_object name key s in
      elim sent.1 [
        | answered _ ↦ (sent.0, record { bucket = name; deleted = 1; failures = [] })
        | failed m ↦ (
          sent.0,
          record {
            bucket = name;
            deleted = 0;
            failures = record { failed_key = key; message = m } ∷ [];
          },
        )
      ]

  abbrev pub add_folder_result :
      DeleteResult → Option (Sent DeleteResult) → Option (Sent DeleteResult)
  add_folder_result r none = none
  add_folder_result r (some (failed m)) = some (failed m)
  add_folder_result r (some (answered f)) = some (
      answered record {
        bucket = name;
        deleted = r.deleted + f.deleted;
        failures = r.failures ++ f.failures;
      })

  -- The end of `deleteFileOrFolder`, from the objects that its probe found.
  unfoldable pub delete_found :
      ℕ → Text → DeleteResult → List S3Object → S → S × Option (Sent DeleteResult)
  unfolding delete_folder_by_prefix
  delete_found fuel prefix file [] s = (s, some (answered file))
  delete_found fuel prefix file (_ ∷ _) s =
      let folder = delete_folder_by_prefix fuel prefix s in
      (folder.0, add_folder_result file folder.1)

  unfoldable pub delete_probed :
      ℕ → Text → DeleteResult → S × Sent Page → S × Option (Sent DeleteResult)
  unfolding delete_found
  delete_probed fuel prefix file (s, failed m) = (s, some (failed m))
  delete_probed fuel prefix file (s, answered page) = delete_found fuel prefix file page.objects s

  unfoldable pub delete_file_or_folder : ℕ → Text → S → S × Option (Sent DeleteResult)
  unfolding delete_folder_by_prefix list_object_keys delete_probed
  delete_file_or_folder fuel key s =
      let normalized = normalize_key key in
      if ends_with normalized (slash ∷ [])
      then delete_folder_by_prefix fuel normalized s
      else let file = delete_file normalized s in
        let prefix = normalize_prefix normalized in
        delete_probed fuel prefix file.1 (list_object_keys prefix none 1 file.0)

  unfoldable pub add_folder : Text → S → S × Sent Text
  add_folder path s =
      let key = normalize_prefix path in
      let sent = client.put_object name key s in
      elim sent.1 [ answered _ ↦ (sent.0, answered key) | failed m ↦ (sent.0, failed m) ]
