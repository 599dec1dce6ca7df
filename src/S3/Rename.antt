-- ===== src/S3/Rename.antt =====
-- packages/s3/src/file-service.ts: renaming a file or a folder, with the workers of
-- `mapWithConcurrency` in utils.ts. A schedule says which worker takes its next step: taking a key,
-- copying it and deleting it are steps of their own. The reports to `onProgress` are left out.
pub mod Prefixes
pub mod Kept
use s3gator.Base.{
  ℕ, zero, suc, ◌+◌, max, min, String, Bool, true, false, ◌&&◌, ◌||◌, Option, none, some, List, [],
  ◌∷◌, ◌++◌, map, if◌then◌else◌, length, drop,
}
use s3gator.Base.Text.{Text, codes, ends_with, starts_with, text_eq}
use s3gator.S3.Keys.{slash, normalize_key, normalize_prefix}
use s3gator.S3.{S3Object, Page, Sent, answered, failed, S3Client}
use s3gator.S3.Delete.{list_object_keys, is_more, batch}

pub data Stage : Type 0 where
  copy delete : Stage

pub record RenameError : Type 0 where
  pub source_key : Text
  pub destination_key : Text
  pub stage : Stage
  pub message : String

pub record RenameResult : Type 0 where
  pub bucket : Text
  pub old_prefix_or_key : Text
  pub new_prefix_or_key : Text
  pub copied : ℕ
  pub deleted : ℕ
  pub errors : List RenameError

-- `encoded.replace(/%2F/g, "/")`, with `skip` characters of an occurrence still to pass over
unfoldable pub restore_slashes : ℕ → Text → Text
restore_slashes skip [] = []
restore_slashes (suc skip) (c ∷ s) = restore_slashes skip s
restore_slashes zero (c ∷ s) =
    let after = restore_slashes 2 s in
    let rest = restore_slashes 0 s in
    if starts_with (c ∷ s) (codes "%2F") then slash ∷ after else c ∷ rest

-- `CopySource`; `encode` is `encodeURIComponent`.
unfoldable pub copy_source : (Text → Text) → Text → Text → Text
unfolding restore_slashes
copy_source encode name key = name ++ slash ∷ restore_slashes 0 (encode key)

-- The key of an object in the renamed folder.
unfoldable pub destination : Text → Text → Text → Text
destination source target key = target ++ drop (length source) key

abbrev pub with_key : Option Text → List Text → List Text
with_key none keys = keys
with_key (some []) keys = keys
with_key (some (c ∷ s)) keys = (c ∷ s) ∷ keys

-- The keys of a page's objects, where they are not empty.
unfoldable pub keys_of : List S3Object → List Text
keys_of [] = []
keys_of (o ∷ os) = with_key o.object_key (keys_of os)

-- The keys of a page before those of the pages after it, where these were listed.
abbrev pub before : List Text → Option (Sent (List Text)) → Option (Sent (List Text))
before keys none = none
before keys (some (failed m)) = some (failed m)
before keys (some (answered more)) = some (answered (keys ++ more))

-- What a worker of `renameFolder` does next: take a key, copy one, or delete one.
pub data Phase : Type 0 where
  idle stopped : Phase
  copying deleting : Text → Phase

pub record Pool (S : Type 0) : Type 0 where
  pub cursor : ℕ
  pub workers : List Phase
  pub processed : ℕ
  pub copied : ℕ
  pub deleted : ℕ
  pub errors : List RenameError
  pub store : S

abbrev pub nth {ℓ} : {A : Type ℓ} → List A → ℕ → Option A
nth [] n = none
nth (x ∷ xs) zero = some x
nth (x ∷ xs) (suc n) = nth xs n

abbrev pub set_nth {ℓ} : {A : Type ℓ} → ℕ → A → List A → List A
set_nth n y [] = []
set_nth zero y (x ∷ xs) = y ∷ xs
set_nth (suc n) y (x ∷ xs) = x ∷ set_nth n y xs

abbrev pub worker_count : ℕ → ℕ → ℕ
worker_count concurrency zero = max 1 (min concurrency 1)
worker_count concurrency (suc n) = max 1 (min concurrency (suc n))

abbrev pub idle_workers : ℕ → List Phase
idle_workers zero = []
idle_workers (suc n) = idle ∷ idle_workers n

abbrev all_stopped : List Phase → Bool
all_stopped [] = true
all_stopped (stopped ∷ workers) = all_stopped workers
all_stopped (_ ∷ workers) = false

-- The worker takes the key at the cursor, or stops where there is none.
unfoldable pub taken : {S : Type 0} → ℕ → Option Text → Pool S → Pool S
taken i none p = record p { cursor = suc p.cursor; workers = set_nth i stopped p.workers }
taken i (some key) p = record p {
  cursor = suc p.cursor;
  workers = set_nth i (copying key) p.workers;
}

module _ {S : Type 0} (client : S3Client S) (encode : Text → Text) (name : Text) where
  -- `listAllKeys`, over at most `fuel` pages.
  unfoldable pub list_all_keys : ℕ → Text → Option Text → S → S × Option (Sent (List Text))
  unfolding list_object_keys keys_of
  list_all_keys zero prefix token s = (s, none)
  list_all_keys (suc fuel) prefix token s =
      let listed = list_object_keys client name prefix token batch s in
      elim listed.1 [
        | failed m ↦ (listed.0, some (failed m))
        | answered page ↦
            let rest = list_all_keys fuel prefix page.next_token listed.0 in
            let keys = keys_of page.objects in
            if is_more page.next_token
            then (rest.0, before keys rest.1)
            else (listed.0, some (answered keys))
      ]

  module _ (source target : Text) where
    -- What a worker makes of the answer to its copy.
    unfoldable pub finish_copy : ℕ → Text → S × Sent (Unit {0}) → Pool S → Pool S
    unfolding destination
    finish_copy i key (s, answered _) p = record p {
      workers = set_nth i (deleting key) p.workers;
      copied = p.copied + 1;
      store = s;
    }
    finish_copy i key (s, failed m) p = record p {
      workers = set_nth i idle p.workers;
      processed = p.processed + 1;
      errors =
          p.errors
          ++ record {
            source_key = key;
            destination_key = destination source target key;
            stage = copy;
            message = m;
          }
            ∷ [];
      store = s;
    }

    -- What it makes of the answer to its deletion.
    unfoldable pub finish_deletion : ℕ → Text → S × Sent (Unit {0}) → Pool S → Pool S
    unfolding destination
    finish_deletion i key (s, answered _) p = record p {
      workers = set_nth i idle p.workers;
      processed = p.processed + 1;
      deleted = p.deleted + 1;
      store = s;
    }
    finish_deletion i key (s, failed m) p = record p {
      workers = set_nth i idle p.workers;
      processed = p.processed + 1;
      errors =
          p.errors
          ++ record {
            source_key = key;
            destination_key = destination source target key;
            stage = delete;
            message = m;
          }
            ∷ [];
      store = s;
    }

    unfoldable pub work : List Text → ℕ → Option Phase → Pool S → Pool S
    unfolding taken finish_copy finish_deletion copy_source destination
    work keys i none p = p
    work keys i (some stopped) p = p
    work keys i (some idle) p = taken i (nth keys p.cursor) p
    work keys i (some (copying key)) p =
        finish_copy i key
          (client.copy_object name (destination source target key) (copy_source encode name key)
            p.store)
          p
    work keys i (some (deleting key)) p =
        finish_deletion i key (client.delete_object name key p.store) p

    unfoldable pub run_workers : List Text → List ℕ → Pool S → Pool S
    unfolding work
    run_workers keys [] p = p
    run_workers keys (i ∷ schedule) p = run_workers keys schedule (work keys i (nth p.workers i) p)

    abbrev pub start_pool : ℕ → List Text → S → Pool S
    start_pool concurrency keys s = record {
      cursor = 0;
      workers = idle_workers (worker_count concurrency (length keys));
      processed = 0;
      copied = 0;
      deleted = 0;
      errors = [];
      store = s;
    }

    abbrev pub result_of : Pool S → RenameResult
    result_of p = record {
      bucket = name;
      old_prefix_or_key = source;
      new_prefix_or_key = target;
      copied = p.copied;
      deleted = p.deleted;
      errors = p.errors;
    }

    -- The folder's keys, renamed along the schedule: without a result if it ends too early.
    unfoldable pub rename_keys :
        ℕ → List ℕ → S × Option (Sent (List Text)) → S × Option (Sent RenameResult)
    unfolding run_workers
    rename_keys concurrency schedule (s, none) = (s, none)
    rename_keys concurrency schedule (s, some (failed m)) = (s, some (failed m))
    rename_keys concurrency schedule (s, some (answered keys)) =
        let p = run_workers keys schedule (start_pool concurrency keys s) in
        (p.store, if all_stopped p.workers then some (answered (result_of p)) else none)

  unfoldable pub rename_folder : ℕ → ℕ → List ℕ → Text → Text → S → S × Option (Sent RenameResult)
  unfolding rename_keys list_all_keys
  rename_folder concurrency fuel schedule old_prefix new_prefix s =
      let source = normalize_prefix old_prefix in
      let target = normalize_prefix new_prefix in
      let unchanged : RenameResult = record {
        bucket = name;
        old_prefix_or_key = source;
        new_prefix_or_key = target;
        copied = 0;
        deleted = 0;
        errors = [];
      } in
      if text_eq source target
      then (s, some (answered unchanged))
      else rename_keys source target concurrency schedule (list_all_keys fuel source none s)

  -- The second half of a file's rename, from the answer to the copy.
  unfoldable pub rename_copied : Text → Text → S × Sent (Unit {0}) → S × RenameResult
  rename_copied old new (s, failed m) = (
    s,
    record {
      bucket = name;
      old_prefix_or_key = old;
      new_prefix_or_key = new;
      copied = 0;
      deleted = 0;
      errors = record { source_key = old; destination_key = new; stage = copy; message = m } ∷ [];
    },
  )
  rename_copied old new (s, answered _) =
      let sent = client.delete_object name old s in
      let done : ℕ × List RenameError = elim sent.1 [
        | answered _ ↦ (1, [])
        | failed m ↦ (
          0,
          record { source_key = old; destination_key = new; stage = delete; message = m } ∷ [],
        )
      ] in
      (
        sent.0,
        record {
          bucket = name;
          old_prefix_or_key = old;
          new_prefix_or_key = new;
          copied = 1;
          deleted = done.0;
          errors = done.1;
        },
      )

  unfoldable pub rename_file_or_folder :
      ℕ → List ℕ → Text → Text → S → S × Option (Sent RenameResult)
  unfolding rename_folder rename_copied copy_source
  rename_file_or_folder fuel schedule old_key new_key s =
      let old = normalize_key old_key in
      let new = normalize_key new_key in
      if ends_with old (slash ∷ []) || ends_with new (slash ∷ [])
      then rename_folder 5 fuel schedule (normalize_prefix old) (normalize_prefix new) s
      else let done =
          rename_copied old new (client.copy_object name new (copy_source encode name old) s) in
        (done.0, some (answered done.1))
