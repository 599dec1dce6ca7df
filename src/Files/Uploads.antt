-- ===== src/Files/Uploads.antt =====
-- apps/api/src/files/files.service.ts: the operations that change an upload session. The time is
-- an argument.
pub mod Unchanged
use s3gator.Base.{
  ℕ, ◌+◌, ◌-◌, ◌*◌, ◌/◌, String, Bool, true, false, Option, none, some, List, [], ◌∷◌, ◌++◌, map,
  if◌then◌else◌, ◌==◌, max, or_default, or_else,
}
use s3gator.Base.Outcome.{Outcome, ok, err, ◌>>=◌, ◌>>◌, not_found, thrown}
use s3gator.Base.Text.{Text}
use s3gator.Auth.{SessionUser, object_upload}
use s3gator.Auth.Authorization.{Bucket, find_bucket, require_bucket_permission}
use s3gator.S3.{Sent, answered, failed}
use s3gator.S3.Multipart.{
  MultipartCompletePart, MultipartCompleteRequest, MultipartInitResult, MultipartPartSpec,
  MultipartCompleteResult, MultipartClient, sort_parts, init_multipart_upload,
  presign_multipart_part, complete_multipart_upload, abort_multipart_upload, default_expiry,
}
use s3gator.Files.Model.{
  UploadSessionStatus, initiated, in_progress, completed, aborted, PartsMeta, meta_numbers,
  meta_parts, UploadSession, upload_completed, upload_aborted, upload_failed, AuditMetadata,
  AuditInput, Env, State, record_audit, record_upload_event, write_session,
}
use s3gator.Files.Entered.{Entry, enter}
use s3gator.Files.Rows.{signed_row, recorded_row, completed_row, aborted_row, failed_row}
use s3gator.Files.Dedup.{merge_part}

abbrev pub complete_request : Entry → List MultipartCompletePart → MultipartCompleteRequest
complete_request entry given = record {
  bucket = entry.bucket.name;
  object_key = entry.session.object_key;
  upload_id = entry.session.upload_id;
  parts = given;
}

abbrev pub outcome_of {ℓ} : {A : Type ℓ} → Sent A → Outcome A
outcome_of (answered a) = ok a
outcome_of (failed m) = err (thrown m)

-- `catch (error) { abortError = error.message }`
abbrev pub error_of {ℓ} : {A : Type ℓ} → Sent A → Option String
error_of (answered _) = none
error_of (failed m) = some m

abbrev pub audit_input : SessionUser → String → Entry → AuditMetadata → Option String → AuditInput
audit_input actor action entry metadata ip_address = record {
  actor_id = actor.id;
  action = action;
  entity_bucket = entry.bucket.name;
  entity_key = entry.session.object_key;
  metadata = metadata;
  ip_address = ip_address;
}

module _ {S : Type 0} where
  -- Without the client of the default connection, nothing more is done.
  abbrev pub with_client :
      {A : Type 0}
      → Outcome (MultipartClient S)
      → (MultipartClient S → State S → State S × Outcome A)
      → State S
      → State S × Outcome A
  with_client (err e) run st = (st, err e)
  with_client (ok client) run st = run client st

  abbrev pub with_entry :
      {A : Type 0}
      → Outcome Entry
      → (Entry → State S → State S × Outcome A)
      → State S
      → State S × Outcome A
  with_entry (err e) run st = (st, err e)
  with_entry (ok entry) run st = run entry st

  -- `presignMultipartPart` of each number, which fails when one of them does.
  unfoldable pub presign_all :
      MultipartClient S → Entry → List ℕ → S → Outcome (List MultipartPartSpec)
  unfolding presign_multipart_part
  presign_all client entry [] s = ok []
  presign_all client entry (n ∷ part_numbers) s = do
    part ← outcome_of (
        presign_multipart_part client entry.bucket.name entry.session.object_key
          entry.session.upload_id n default_expiry s)
    rest ← presign_all client entry part_numbers s
    ok (part ∷ rest)

  unfoldable pub sign_entered :
      SessionUser
      → List ℕ
      → ℕ
      → Entry
      → MultipartClient S
      → State S
      → State S × Outcome (List MultipartPartSpec)
  unfolding presign_all signed_row
  sign_entered actor part_numbers now entry client st =
      elim (presign_all client entry part_numbers st.store) [
        | err e ↦ (st, err e)
        | ok specs ↦ (write_session entry.session.id (signed_row part_numbers now) st, ok specs)
      ]

  unfoldable pub record_entered :
      MultipartCompletePart → ℕ → Entry → State S → State S × Outcome (List ℕ)
  unfolding merge_part recorded_row
  record_entered part now entry st =
      let completed_parts = merge_part part entry.session.completed_parts in
      (
        write_session entry.session.id (recorded_row completed_parts now) st,
        ok (map (λ p. p.part_number) completed_parts),
      )

  -- What follows the store's answer to the completion.
  unfoldable pub complete_sent :
      SessionUser
      → List MultipartCompletePart
      → Option String
      → ℕ
      → Entry
      → State S
      → Sent MultipartCompleteResult
      → State S × Outcome MultipartCompleteResult
  unfolding completed_row
  complete_sent actor given ip_address now entry st (failed m) = (st, err (thrown m))
  complete_sent actor given ip_address now entry st (answered result) = (
    record_upload_event "complete" (
        record_audit
          (audit_input actor "object.upload.complete" entry (upload_completed result) ip_address)
          (write_session entry.session.id (completed_row given now) st)),
    ok result,
  )

  unfoldable pub complete_entered :
      SessionUser
      → List MultipartCompletePart
      → Option String
      → ℕ
      → Entry
      → MultipartClient S
      → State S
      → State S × Outcome MultipartCompleteResult
  unfolding complete_sent complete_multipart_upload
  complete_entered actor given ip_address now entry client st =
      let sent = complete_multipart_upload client (complete_request entry given) st.store in
      complete_sent actor given ip_address now entry (record st { store = sent.0 }) sent.1

  -- The call that takes the upload out of the store, whose error is caught.
  unfoldable pub abort_in_store : MultipartClient S → Entry → State S → State S × Option String
  unfolding abort_multipart_upload
  abort_in_store client entry st =
      let sent =
        abort_multipart_upload client entry.bucket.name entry.session.object_key
          entry.session.upload_id st.store in
      (record st { store = sent.0 }, error_of sent.1)

  unfoldable pub abort_entered :
      SessionUser
      → Option String
      → ℕ
      → Entry
      → MultipartClient S
      → State S
      → State S × Outcome (Option String)
  unfolding abort_in_store aborted_row
  abort_entered actor ip_address now entry client st =
      let sent = abort_in_store client entry st in
      (
        record_upload_event "abort" (
            record_audit
              (audit_input actor "object.upload.abort" entry (upload_aborted sent.1) ip_address)
              (write_session entry.session.id (aborted_row sent.1 now) sent.0)),
        ok sent.1,
      )

  unfoldable pub fail_entered :
      SessionUser
      → Option String
      → Option String
      → ℕ
      → Entry
      → MultipartClient S
      → State S
      → State S × Outcome (String × Option String)
  unfolding abort_in_store failed_row
  fail_entered actor error_message ip_address now entry client st =
      let sent = abort_in_store client entry st in
      let reason = or_default error_message (or_default sent.1 "Multipart upload failed") in
      (
        record_upload_event "fail" (
            record_audit
              (audit_input actor "object.upload.failed" entry (upload_failed error_message sent.1)
                ip_address)
              (write_session entry.session.id (failed_row reason now) sent.0)),
        ok (or_default error_message "Multipart upload failed", sent.1),
      )

  module _ (env : Env S) where
    -- The answer has the session's identifier too, which is the argument.
    unfoldable pub sign_multipart_parts :
        SessionUser → String → List ℕ → ℕ → State S → State S × Outcome (List MultipartPartSpec)
    unfolding enter sign_entered
    sign_multipart_parts actor id part_numbers now st =
        with_entry (enter env actor id now st)
          (λ entry. with_client env.client (sign_entered actor part_numbers now entry)) st

    unfoldable pub record_multipart_part :
        SessionUser → String → MultipartCompletePart → ℕ → State S → State S × Outcome (List ℕ)
    unfolding enter record_entered
    record_multipart_part actor id part now st =
        with_entry (enter env actor id now st) (record_entered part now) st

    unfoldable pub complete_multipart :
        SessionUser
        → String
        → List MultipartCompletePart
        → Option String
        → ℕ
        → State S
        → State S × Outcome MultipartCompleteResult
    unfolding enter complete_entered
    complete_multipart actor id given ip_address now st =
        with_entry (enter env actor id now st)
          (λ entry. with_client env.client (complete_entered actor given ip_address now entry)) st

    -- The answer is `abortError`.
    unfoldable pub abort_multipart :
        SessionUser → String → Option String → ℕ → State S → State S × Outcome (Option String)
    unfolding enter abort_entered
    abort_multipart actor id ip_address now st =
        with_entry (enter env actor id now st)
          (λ entry. with_client env.client (abort_entered actor ip_address now entry)) st

    -- The answer is the error and `abortError`.
    unfoldable pub fail_multipart :
        SessionUser
        → String
        → Option String
        → Option String
        → ℕ
        → State S
        → State S × Outcome (String × Option String)
    unfolding enter fail_entered
    fail_multipart actor id error_message ip_address now st =
        with_entry (enter env actor id now st)
          (λ entry. with_client env.client (fail_entered actor error_message ip_address now entry))
          st
