-- ===== src/S3/Multipart.antt =====
-- packages/s3/src/file-service.ts: uploads in parts. The store's commands are a parameter, on the
-- state of the store; a bucket is given by its name as the database holds it.
pub mod Parts
use s3gator.Base.{
  ℕ, String, Bool, true, false, Option, none, some, List, [], ◌∷◌, map, if◌then◌else◌, leb, str_eq,
}
use s3gator.Base.Sorting.{sort_by}
use s3gator.Base.Text.{Text}
use s3gator.S3.{Sent, answered, failed}
use s3gator.S3.Keys.{normalize_key}

pub record MultipartCompletePart : Type 0 where
  pub part_number : ℕ
  pub e_tag : String

pub record MultipartInitRequest : Type 0 where
  pub bucket : String
  pub object_key : Text
  pub content_type : Option String
  pub metadata : Option (List (String × String))

pub record MultipartInitResult : Type 0 where
  pub bucket : String
  pub object_key : Text
  pub upload_id : String

pub record MultipartPartSpec : Type 0 where
  pub part_number : ℕ
  pub url : String
  pub expires_in : ℕ

pub record MultipartCompleteRequest : Type 0 where
  pub bucket : String
  pub object_key : Text
  pub upload_id : String
  pub parts : List MultipartCompletePart

pub record MultipartCompleteResult : Type 0 where
  pub bucket : String
  pub object_key : Text
  pub upload_id : String
  pub e_tag : Option String

-- The commands for uploads in parts, and `getSignedUrl` of an `UploadPartCommand`, from the bucket,
-- the key, the upload's identifier, the number of the part and the seconds that the address holds.
pub record MultipartClient (S : Type 0) : Type 0 where
  pub create_multipart_upload : MultipartInitRequest → S → S × Sent (Option String)
  pub complete_multipart_upload :
      String → Text → String → List MultipartCompletePart → S → S × Sent (Option String)
  pub abort_multipart_upload : String → Text → String → S → S × Sent (Unit {0})
  pub get_signed_url : String → Text → String → ℕ → ℕ → S → Sent String

abbrev pub part_le : MultipartCompletePart → MultipartCompletePart → Bool
part_le p q = leb p.part_number q.part_number

-- `sort((a, b) => a.partNumber - b.partNumber)`
abbrev pub sort_parts : List MultipartCompletePart → List MultipartCompletePart
sort_parts parts = sort_by part_le parts

-- `!result.UploadId`
abbrev pub nonempty_id : Option String → Option String
nonempty_id none = none
nonempty_id (some id) = if str_eq id "" then none else some id

abbrev pub initialized : MultipartInitRequest → Option String → Sent MultipartInitResult
initialized input none = failed "Failed to initialize multipart upload: upload id missing"
initialized input (some id) =
    answered record { bucket = input.bucket; object_key = input.object_key; upload_id = id }

abbrev pub sent_init : MultipartInitRequest → Sent (Option String) → Sent MultipartInitResult
sent_init input (failed m) = failed m
sent_init input (answered id) = initialized input (nonempty_id id)

abbrev pub sent_completion :
    MultipartCompleteRequest → Sent (Option String) → Sent MultipartCompleteResult
sent_completion input (failed m) = failed m
sent_completion input (answered e_tag) = answered record {
  bucket = input.bucket;
  object_key = input.object_key;
  upload_id = input.upload_id;
  e_tag = e_tag;
}

abbrev pub signed : ℕ → ℕ → Sent String → Sent MultipartPartSpec
signed part_number expires_in (failed m) = failed m
signed part_number expires_in (answered url) =
    answered record { part_number = part_number; url = url; expires_in = expires_in }

-- The seconds that a signed address holds where the caller names none.
abbrev pub default_expiry : ℕ
default_expiry = 900

module _ {S : Type 0} (client : MultipartClient S) where
  unfoldable pub init_multipart_upload : MultipartInitRequest → S → S × Sent MultipartInitResult
  init_multipart_upload input s =
      let request = record input { object_key = normalize_key input.object_key } in
      let sent = client.create_multipart_upload request s in (sent.0, sent_init request sent.1)

  unfoldable pub presign_multipart_part :
      String → Text → String → ℕ → ℕ → S → Sent MultipartPartSpec
  presign_multipart_part bucket key upload_id part_number expires_in s =
      signed part_number expires_in
        (client.get_signed_url bucket (normalize_key key) upload_id part_number expires_in s)

  unfoldable pub complete_multipart_upload :
      MultipartCompleteRequest → S → S × Sent MultipartCompleteResult
  complete_multipart_upload input s =
      let request = record input { object_key = normalize_key input.object_key } in
      let sent =
        client.complete_multipart_upload request.bucket request.object_key request.upload_id
          (sort_parts input.parts) s in
      (sent.0, sent_completion request sent.1)

  unfoldable pub abort_multipart_upload : String → Text → String → S → S × Sent (Unit {0})
  abort_multipart_upload bucket key upload_id s =
      client.abort_multipart_upload bucket (normalize_key key) upload_id s
