-- ===== src/Files/Entered.antt =====
-- apps/api/src/files/files.service.ts: which upload sessions a user may work on.
pub mod Admitted
use s3gator.Base.{
  ℕ, String, Bool, true, false, not, ◌&&◌, ◌||◌, List, Option, none, some, if◌then◌else◌, ltb,
  str_eq,
}
use s3gator.Base.Outcome.{Outcome, ok, err, ◌>>=◌, ◌>>◌, not_found, forbidden}
use s3gator.Auth.{AppRole, super_admin, admin, user, SessionUser, role_eq, object_upload}
use s3gator.Auth.Authorization.{Bucket, require_bucket_permission}
use s3gator.Files.Model.{
  UploadSessionStatus, initiated, in_progress, completed, aborted, failed, UploadSession,
  BucketScope, Env, State, find_upload, find_bucket_by_id, has_scope,
}

abbrev pub guard {ℓ} : Bool → s3gator.Base.Outcome.Error → Outcome (Unit {ℓ})
guard true e = ok tt
guard false e = err e

abbrev pub is_over : UploadSessionStatus → Bool
is_over completed = true
is_over aborted = true
is_over _ = false

-- The user may read or write the session of another one.
unfoldable pub check_foreign :
    List BucketScope → SessionUser → UploadSession → Bool → Outcome (Unit {0})
check_foreign scopes actor session allow_privileged = do
  guard (role_eq actor.role super_admin || (allow_privileged && role_eq actor.role admin))
      (forbidden "Upload session not owned by user")
  guard (not (role_eq actor.role admin) || has_scope scopes actor.id session.bucket_id)
      (forbidden "ADMIN is not scoped to this upload session bucket")

unfoldable pub check_session :
    List BucketScope → SessionUser → ℕ → UploadSession → Bool → Outcome UploadSession
unfolding check_foreign
check_session scopes actor now session allow_privileged = do
  (if str_eq session.user_id actor.id
      then ok tt
      else check_foreign scopes actor session allow_privileged)
  guard (not (ltb session.expires_at now) || is_over session.status)
      (forbidden "Upload session expired")
  ok session

pub record Entry : Type 0 where
  pub session : UploadSession
  pub bucket : Bucket

module _ {S : Type 0} (env : Env S) where
  unfoldable pub get_upload_session_for_user :
      SessionUser → String → Bool → ℕ → State S → Outcome UploadSession
  unfolding check_session
  get_upload_session_for_user actor id allow_privileged now st = elim (find_upload id st.sessions) [
    | none ↦ err (not_found "Upload session not found")
    | some session ↦ check_session env.scopes actor now session allow_privileged
  ]

  abbrev pub session_bucket : UploadSession → Outcome Bucket
  session_bucket session = elim (find_bucket_by_id session.bucket_id env.tables.buckets) [
    | none ↦ err (not_found "Bucket not found")
    | some bucket ↦ ok bucket
  ]

  -- What every operation on the parts of a session begins with.
  unfoldable pub enter : SessionUser → String → ℕ → State S → Outcome Entry
  unfolding get_upload_session_for_user
  enter actor id now st = do
    session ← get_upload_session_for_user actor id false now st
    bucket ← session_bucket session
    require_bucket_permission env.tables (some actor) (some bucket.name) object_upload
    ok (record { session = session; bucket = bucket })
