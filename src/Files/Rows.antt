-- ===== src/Files/Rows.antt =====
-- apps/api/src/files/files.service.ts: the columns of an upload session that the operations write;
-- the database client writes `updatedAt`.
use s3gator.Base.{ℕ, String, Option, none, some, List}
use s3gator.S3.Multipart.{MultipartCompletePart}
use s3gator.Files.Model.{
  UploadSessionStatus, in_progress, completed, aborted, meta_numbers, meta_parts, UploadSession,
}

unfoldable pub signed_row : List ℕ → ℕ → UploadSession → UploadSession
signed_row part_numbers now session = record session {
  status = in_progress;
  parts_meta = meta_numbers part_numbers;
  last_activity_at = now;
  updated_at = now;
  error = none;
}

unfoldable pub recorded_row : List MultipartCompletePart → ℕ → UploadSession → UploadSession
recorded_row completed_parts now session = record session {
  status = in_progress;
  completed_parts = completed_parts;
  last_activity_at = now;
  updated_at = now;
}

unfoldable pub completed_row : List MultipartCompletePart → ℕ → UploadSession → UploadSession
completed_row given now session = record session {
  status = completed;
  completed_parts = given;
  parts_meta = meta_parts given;
  last_activity_at = now;
  updated_at = now;
  error = none;
}

unfoldable pub aborted_row : Option String → ℕ → UploadSession → UploadSession
aborted_row abort_error now session = record session {
  status = aborted;
  last_activity_at = now;
  updated_at = now;
  error = abort_error;
}

unfoldable pub failed_row : String → ℕ → UploadSession → UploadSession
failed_row message now session = record session {
  status = UploadSessionStatus.failed;
  last_activity_at = now;
  updated_at = now;
  error = some message;
}

unfoldable pub expired_row : ℕ → UploadSession → UploadSession
expired_row now session = record session {
  status = UploadSessionStatus.failed;
  error = some "Upload session expired";
  last_activity_at = now;
  updated_at = now;
}
