-- ===== src/S3/Examples.antt =====
-- Concrete stores, keys and operations.
mod Buckets
mod Entries
mod Folder
use s3gator.Base.{
  ℕ, String, Bool, true, false, if◌then◌else◌, Option, none, some, List, [], ◌∷◌, ◌≡◌, ◌≢◌, ◌⊎◌,
  inl, inr, refl, arith,
}
use s3gator.Base.Text.{Text, codes, starts_with, ends_with, text_eq, text_eq_iff}
use s3gator.S3.{S3Client, Sent, answered}
use s3gator.S3.Keys.{
  slash, normalize_key, normalize_prefix, segments, drop_slashes, collapse, base_name_from_key,
  segments_from, drop_last, infer_content_type_from_key, first_type,
}
use s3gator.S3.Keys.Normal.{IsNormal, normalize_key_lem, normalize_prefix_lem}
use s3gator.S3.Delete.{delete_file_or_folder}
use s3gator.S3.Delete.Outside.{delete_file_or_folder-outside}
use s3gator.S3.Rename.{destination, rename_folder}
use s3gator.S3.Rename.Kept.{rename_folder-kept}
use mathlib.Core.List.{Permᴰ}
use s3gator.S3.Multipart.{
  MultipartClient, MultipartCompletePart, MultipartCompleteRequest, complete_multipart_upload,
}
use s3gator.S3.Multipart.Parts.{Ascending, Told, complete_multipart_upload_lem}

normalize_key_lem_example :
    IsNormal (normalize_key (codes "//a//b"))
    × (normalize_key (normalize_key (codes "//a//b")) ≡ normalize_key (codes "//a//b"))
    × (segments (normalize_key (codes "//a//b")) ≡ segments (codes "//a//b"))
normalize_key_lem_example = normalize_key_lem (codes "//a//b")

normalize_prefix_lem_example :
    (ends_with (normalize_prefix (codes "a//b")) (slash ∷ []) ≡ true)
    × (segments (normalize_prefix (codes "a//b")) ≡ segments (codes "a//b"))
normalize_prefix_lem_example = normalize_prefix_lem 97 (codes "//b")

-- A prefix of slashes alone is a slash, which no normalised key starts with.
slash_prefix : normalize_prefix (codes "//") ≡ codes "/"
unfolding normalize_prefix drop_slashes collapse ends_with text_eq
slash_prefix = refl

-- A key of slashes alone is the empty key, whose folder is the whole bucket.
slash_key : normalize_prefix (normalize_key (codes "/")) ≡ []
unfolding normalize_prefix normalize_key drop_slashes collapse
slash_key = refl

base_name : base_name_from_key (codes "a/b/c.txt/") ≡ codes "c.txt"
unfolding base_name_from_key segments segments_from drop_last ends_with text_eq
base_name = refl

content_type : infer_content_type_from_key (λ t. t) (codes "a/b.md") ≡ codes "text/plain"
unfolding infer_content_type_from_key first_type ends_with text_eq
content_type = refl

abbrev full : Buckets.Buckets
full b k = true

outside_a : starts_with (codes "b") (normalize_prefix (normalize_key (codes "/a"))) ≡ false
unfolding normalize_prefix normalize_key drop_slashes collapse ends_with text_eq starts_with
outside_a = refl

not_a : codes "b" ≢ normalize_key (codes "/a")
unfolding normalize_key drop_slashes collapse text_eq
not_a e =
    let t : text_eq (codes "b") (codes "a") ≡ true =
      (text_eq_iff (codes "b") (normalize_key (codes "/a"))).1 e in
    absurd (cc t)

delete_file_or_folder-outside_example :
    ((delete_file_or_folder Buckets.client (codes "media") 1 (codes "/a") full).1 ≢ none)
    × (Buckets.holds
          (delete_file_or_folder Buckets.client (codes "media") 1 (codes "/a") full).0
          (codes "media")
          (codes "b")
        ≡ Buckets.holds full (codes "media") (codes "b"))
delete_file_or_folder-outside_example =
    delete_file_or_folder-outside Buckets.client Buckets.holds (λ t. 0) (codes "media") (codes "/a")
      (codes "media") (codes "b") 1 full Buckets.laws Buckets.advances (omega arith)
      (inr (not_a, outside_a))

abbrev music : Folder.Bucket
music k = if text_eq k (codes "a/1") then some 7 else none

in_folder : starts_with (codes "a/1") (normalize_prefix (codes "a")) ≡ true
unfolding normalize_prefix drop_slashes collapse ends_with text_eq starts_with
in_folder = refl

apart : starts_with (normalize_prefix (codes "a")) (normalize_prefix (codes "b")) ≡ false
unfolding normalize_prefix drop_slashes collapse ends_with text_eq starts_with
apart = refl

apart_too : starts_with (normalize_prefix (codes "b")) (normalize_prefix (codes "a")) ≡ false
unfolding normalize_prefix drop_slashes collapse ends_with text_eq starts_with
apart_too = refl

has_one : music (codes "a/1") ≡ some 7
unfolding text_eq
has_one = refl

abbrev schedule : List ℕ
schedule = 0 ∷ 0 ∷ 0 ∷ 0 ∷ 0 ∷ []

rename_folder-kept_example :
    (Folder.lookup
        (rename_folder Folder.client Folder.encode
          (codes "media")
          5
          1
          schedule
          (codes "a")
          (codes "b")
          music).0
        (codes "a/1")
      ≡ some 7)
    ⊎ (Folder.lookup
          (rename_folder Folder.client Folder.encode
            (codes "media")
            5
            1
            schedule
            (codes "a")
            (codes "b")
            music).0
          (destination (normalize_prefix (codes "a")) (normalize_prefix (codes "b")) (codes "a/1"))
        ≡ some 7)
rename_folder-kept_example =
    rename_folder-kept Folder.client Folder.lookup Folder.encode (codes "media") (codes "a")
      (codes "b") (codes "a/1") 7 5 1 schedule music Folder.laws in_folder apart apart_too has_one

abbrev unsorted : List MultipartCompletePart
unsorted = record { part_number = 2; e_tag = "b" } ∷ record { part_number = 1; e_tag = "a" } ∷ []

-- A store whose state is the list of the parts that it was sent last.
abbrev recording : MultipartClient (List MultipartCompletePart)
recording = record {
  create_multipart_upload = λ request s. (s, answered (some "up"));
  complete_multipart_upload = λ bucket key id parts s. (parts, answered (some "tag"));
  abort_multipart_upload = λ bucket key id s. (s, answered tt);
  get_signed_url = λ bucket key id n expiry s. answered "u";
}

abbrev completing : MultipartCompleteRequest
completing = record { bucket = "b"; object_key = codes "/a"; upload_id = "up"; parts = unsorted }

complete_multipart_upload_lem_example :
    (parts : List MultipartCompletePart) × Ascending parts
    × Permᴰ parts completing.parts
    × (let sent =
          recording.complete_multipart_upload completing.bucket
            (normalize_key completing.object_key)
            completing.upload_id
            parts
            [] in
        ((complete_multipart_upload recording completing []).0 ≡ sent.0)
        × Told completing sent.1 (complete_multipart_upload recording completing []).1)
complete_multipart_upload_lem_example = complete_multipart_upload_lem recording completing []
