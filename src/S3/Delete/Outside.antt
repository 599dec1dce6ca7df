-- ===== src/S3/Delete/Outside.antt =====
-- What a deletion leaves alone, and that it ends.
use s3gator.Base.{
  ℕ, zero, suc, ◌<◌, ◌-◌, Bool, true, false, Option, none, some, List, [], ◌∷◌, ◌++◌, map, ◌≡◌, ◌≢◌,
  refl, subst, ◌∙◌, ◌⊎◌, inl, inr, arith, Bool-cases, All, All-append,
}
use s3gator.Base.Text.{Text, starts_with, ends_with}
use s3gator.S3.Keys.{slash, normalize_key, normalize_prefix}
use s3gator.S3.Keys.Normal.{normalize_key_lem}
use s3gator.S3.{S3Object, Page, Sent, answered, failed, S3Client}
use s3gator.S3.Laws.{Matches, S3Laws, Advances, Sent-cases}
use s3gator.S3.Delete.{
  batch, DeleteResult, chunks_from, is_more, list_object_keys, delete_chunks, delete_pages,
  delete_folder_by_prefix, delete_file_or_folder, add_chunk, add_folder_result, nothing_deleted,
  delete_file, delete_found, delete_probed,
}

prefix_of_normal :
    (k : Text) → normalize_key k ≡ k → ends_with k (slash ∷ []) ≡ true → normalize_prefix k ≡ k
unfolding normalize_prefix normalize_key
prefix_of_normal [] same ended = refl
prefix_of_normal (c ∷ s) same ended = rw same (rw ended refl)

-- The folder's prefix of a normalised key that names a folder is the key.
normalize_prefix-normalize_key :
    (key : Text)
    → ends_with (normalize_key key) (slash ∷ []) ≡ true
    → normalize_prefix (normalize_key key) ≡ normalize_key key
normalize_prefix-normalize_key key ended =
    prefix_of_normal (normalize_key key) (normalize_key_lem key).1 ended

module _ {ℓ} {A : Type ℓ} (P : A → Type 0) where
  All-chunks_from :
      (room : ℕ) (part xs : List A) → All P part → All P xs → All (All P) (chunks_from room part xs)
  unfolding chunks_from
  All-chunks_from room [] [] hp hx = tt
  All-chunks_from room (y ∷ part) [] hp hx = (hp, tt)
  All-chunks_from zero part (x ∷ xs) hp hx =
      (hp, All-chunks_from (batch - 1) (x ∷ []) xs (hx.0, tt) hx.1)
  All-chunks_from (suc room) part (x ∷ xs) hp hx =
      All-chunks_from room (part ++ x ∷ []) xs (All-append P part (x ∷ []) hp (hx.0, tt)) hx.1

module _ {S : Type 0} (client : S3Client S) (holds : S → Text → Text → Bool)
    (laws : S3Laws client holds) (name b k : Text) where
  -- The object is in another bucket, or its key does not start with the prefix.
  abbrev IsOutside : Text → Type 0
  IsOutside prefix = (b ≢ name) ⊎ (starts_with k prefix ≡ false)

  keys_differ :
      (prefix : Text) (os : List S3Object)
      → starts_with k prefix ≡ false
      → All (Matches prefix) os
      → All (λ (x : Option Text). x ≢ some k) (map (λ o. o.object_key) os)
  keys_differ prefix [] out h = tt
  keys_differ prefix (o ∷ os) out h =
      ((λ e. absurd (cc (h.0 k e, out))), keys_differ prefix os out h.1)

  chunk_keeps :
      (prefix : Text) (os : List S3Object) (s : S)
      → IsOutside prefix
      → All (Matches prefix) os
      → holds (client.delete_objects name (map (λ o. o.object_key) os) s).0 b k ≡ holds s b k
  chunk_keeps prefix os s (inl other) h =
      laws.deletions_keep name (map (λ o. o.object_key) os) s b k (inl other)
  chunk_keeps prefix os s (inr out) h =
      laws.deletions_keep name (map (λ o. o.object_key) os) s b k
        (inr (keys_differ prefix os out h))

  delete_chunks_keeps :
      (prefix : Text) (chunks : List (List S3Object)) (r : DeleteResult) (s : S)
      → IsOutside prefix
      → All (All (Matches prefix)) chunks
      → holds (delete_chunks client name chunks r s).0 b k ≡ holds s b k
  unfolding delete_chunks
  delete_chunks_keeps prefix [] r s out h = refl
  delete_chunks_keeps prefix (chunk ∷ chunks) r s out h =
      let sent = client.delete_objects name (map (λ o. o.object_key) chunk) s in
      delete_chunks_keeps prefix chunks (add_chunk chunk sent.1 r) sent.0 out h.1
      ∙ chunk_keeps prefix chunk s out h.0

  delete_pages_keeps :
      (fuel : ℕ) (prefix : Text) (token : Option Text) (r : DeleteResult) (s : S)
      → IsOutside prefix
      → holds (delete_pages client name fuel prefix token r s).0 b k ≡ holds s b k
  unfolding delete_pages list_object_keys
  delete_pages_keeps zero prefix token r s out = refl
  delete_pages_keeps (suc fuel) prefix token r s out =
      let same = laws.listing_keeps name prefix token batch s b k in
      elim (Sent-cases (client.list_objects name prefix token batch s).1) [
        | inl (m, e) ↦ rw (delete_pages, e) same
        | inr (page, e) ↦
            let listed = (client.list_objects name prefix token batch s).0 in
            let chunks = chunks_from batch [] page.objects in
            let done = delete_chunks client name chunks r listed in
            let kept =
              delete_chunks_keeps prefix chunks r listed out (
                All-chunks_from (Matches prefix) batch [] page.objects tt
                  (laws.listing_matches name prefix token batch s page e))
              ∙ same in
            elim (Bool-cases (is_more page.next_token)) [
              | inl more ↦
                  rw (delete_pages, e, more)
                    (delete_pages_keeps fuel prefix page.next_token done.1 done.0 out ∙ kept)
              | inr last ↦ rw (delete_pages, e, last) kept
            ]
      ]

  folder_keeps :
      (fuel : ℕ) (prefix : Text) (s : S)
      → IsOutside prefix
      → holds (delete_folder_by_prefix client name fuel prefix s).0 b k ≡ holds s b k
  unfolding delete_folder_by_prefix
  folder_keeps fuel prefix s out =
      delete_pages_keeps fuel prefix none (nothing_deleted client name) s out

  found_keeps :
      (fuel : ℕ) (prefix : Text) (file : DeleteResult) (os : List S3Object) (s : S)
      → IsOutside prefix
      → holds (delete_found client name fuel prefix file os s).0 b k ≡ holds s b k
  unfolding delete_found
  found_keeps fuel prefix file [] s out = refl
  found_keeps fuel prefix file (_ ∷ _) s out = folder_keeps fuel prefix s out

  probed_keeps :
      (fuel : ℕ) (prefix : Text) (file : DeleteResult) (probe : S × Sent Page)
      → IsOutside prefix
      → holds (delete_probed client name fuel prefix file probe).0 b k ≡ holds probe.0 b k
  unfolding delete_probed
  probed_keeps fuel prefix file (s, failed m) out = refl
  probed_keeps fuel prefix file (s, answered page) out =
      found_keeps fuel prefix file page.objects s out

  file_keeps :
      (key : Text) (s : S)
      → (b ≢ name) ⊎ (k ≢ key)
      → holds (delete_file client name key s).0 b k ≡ holds s b k
  file_keeps key s out = elim (Sent-cases (client.delete_object name key s).1) [
    | inl (m, e) ↦ rw (delete_file, e) (laws.deletion_keeps name key s b k out)
    | inr (u, e) ↦ rw (delete_file, e) (laws.deletion_keeps name key s b k out)
  ]

  -- The object is in another bucket, or its key is neither the normalised key nor in its folder.
  abbrev IsElsewhere : Text → Type 0
  IsElsewhere key =
      (b ≢ name)
      ⊎ ((k ≢ normalize_key key) × (starts_with k (normalize_prefix (normalize_key key)) ≡ false))

  IsOutside-IsElsewhere :
      (key : Text) → IsElsewhere key → IsOutside (normalize_prefix (normalize_key key))
  IsOutside-IsElsewhere key (inl other) = inl other
  IsOutside-IsElsewhere key (inr out) = inr out.1

  apart_of_elsewhere : (key : Text) → IsElsewhere key → (b ≢ name) ⊎ (k ≢ normalize_key key)
  apart_of_elsewhere key (inl other) = inl other
  apart_of_elsewhere key (inr out) = inr out.0

  deletion_keeps_elsewhere :
      (fuel : ℕ) (key : Text) (s : S)
      → IsElsewhere key
      → holds (delete_file_or_folder client name fuel key s).0 b k ≡ holds s b k
  unfolding delete_file_or_folder list_object_keys
  deletion_keeps_elsewhere fuel key s out =
      let normalized = normalize_key key in
      let prefix = normalize_prefix normalized in
      let file = delete_file client name normalized s in
      elim (Bool-cases (ends_with normalized (slash ∷ []))) [
        | inl e ↦
            rw (delete_file_or_folder, e)
              (folder_keeps fuel normalized s (
                subst IsOutside (normalize_prefix-normalize_key key e)
                  (IsOutside-IsElsewhere key out)))
        | inr e ↦
            rw (delete_file_or_folder, e)
              (probed_keeps fuel prefix file.1 (client.list_objects name prefix none 1 file.0)
                  (IsOutside-IsElsewhere key out)
                ∙ (laws.listing_keeps name prefix none 1 file.0 b k
                    ∙ file_keeps normalized s (apart_of_elsewhere key out)))
      ]

module _ {S : Type 0} (client : S3Client S) (pages_left : Option Text → ℕ)
    (advances : Advances client pages_left) (name : Text) where
  delete_pages_ends :
      (fuel : ℕ) (prefix : Text) (token : Option Text) (r : DeleteResult) (s : S)
      → pages_left token < fuel
      → (delete_pages client name fuel prefix token r s).1 ≢ none
  unfolding delete_pages list_object_keys
  delete_pages_ends zero prefix token r s enough = omega arith
  delete_pages_ends (suc fuel) prefix token r s enough =
      elim (Sent-cases (client.list_objects name prefix token batch s).1) [
        | inl (m, e) ↦ rw (delete_pages, e) (λ h. absurd (cc h))
        | inr (page, e) ↦
            let chunks = chunks_from batch [] page.objects in
            let done =
              delete_chunks client name chunks r
                (client.list_objects name prefix token batch s).0 in
            elim (Bool-cases (is_more page.next_token)) [
              | inl more ↦
                  rw (delete_pages, e, more)
                    (delete_pages_ends fuel prefix page.next_token done.1 done.0
                      (omega (arith, advances name prefix token batch s page e more, enough)))
              | inr last ↦ rw (delete_pages, e, last) (λ h. absurd (cc h))
            ]
      ]

  folder_ends :
      (fuel : ℕ) (prefix : Text) (s : S)
      → pages_left none < fuel
      → (delete_folder_by_prefix client name fuel prefix s).1 ≢ none
  unfolding delete_folder_by_prefix
  folder_ends fuel prefix s enough =
      delete_pages_ends fuel prefix none (nothing_deleted client name) s enough

  added_ends :
      (r : DeleteResult) (result : Option (Sent DeleteResult))
      → result ≢ none
      → add_folder_result client name r result ≢ none
  added_ends r none h e = h refl
  added_ends r (some (failed m)) h e = absurd (cc e)
  added_ends r (some (answered f)) h e = absurd (cc e)

  found_ends :
      (fuel : ℕ) (prefix : Text) (file : DeleteResult) (os : List S3Object) (s : S)
      → pages_left none < fuel
      → (delete_found client name fuel prefix file os s).1 ≢ none
  unfolding delete_found
  found_ends fuel prefix file [] s enough = λ h. absurd (cc h)
  found_ends fuel prefix file (_ ∷ _) s enough =
      added_ends file (delete_folder_by_prefix client name fuel prefix s).1
        (folder_ends fuel prefix s enough)

  probed_ends :
      (fuel : ℕ) (prefix : Text) (file : DeleteResult) (probe : S × Sent Page)
      → pages_left none < fuel
      → (delete_probed client name fuel prefix file probe).1 ≢ none
  unfolding delete_probed
  probed_ends fuel prefix file (s, failed m) enough = λ h. absurd (cc h)
  probed_ends fuel prefix file (s, answered page) enough =
      found_ends fuel prefix file page.objects s enough

  deletion_ends :
      (key : Text) (fuel : ℕ) (s : S)
      → pages_left none < fuel
      → (delete_file_or_folder client name fuel key s).1 ≢ none
  unfolding delete_file_or_folder list_object_keys
  deletion_ends key fuel s enough =
      let normalized = normalize_key key in
      let prefix = normalize_prefix normalized in
      let file = delete_file client name normalized s in
      elim (Bool-cases (ends_with normalized (slash ∷ []))) [
        | inl e ↦ rw (delete_file_or_folder, e) (folder_ends fuel normalized s enough)
        | inr e ↦
            rw (delete_file_or_folder, e)
              (probed_ends fuel prefix file.1 (client.list_objects name prefix none 1 file.0)
                enough)
      ]

-- Where the store keeps to its documentation and its tokens lead to the end of a listing, deleting
-- a key with more fuel than there are pages ends with a result, and keeps every object of another
-- bucket and every object of this one whose key is not the normalised key and does not start with
-- the normalised key as a folder.
pub delete_file_or_folder-outside :
    {S : Type 0} (client : S3Client S) (holds : S → Text → Text → Bool)
    (pages_left : Option Text → ℕ) (name key b k : Text) (fuel : ℕ) (s : S)
    → S3Laws client holds
    → Advances client pages_left
    → pages_left none < fuel
    → (b ≢ name)
      ⊎ ((k ≢ normalize_key key) × (starts_with k (normalize_prefix (normalize_key key)) ≡ false))
    → ((delete_file_or_folder client name fuel key s).1 ≢ none)
      × (holds (delete_file_or_folder client name fuel key s).0 b k ≡ holds s b k)
delete_file_or_folder-outside client holds pages_left name key b k fuel s laws advances enough out =
    (
      deletion_ends client pages_left advances name key fuel s enough,
      deletion_keeps_elsewhere client holds laws name b k fuel key s out,
    )
