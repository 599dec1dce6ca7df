-- ===== src/Files/Public.antt =====
-- apps/api/src/files/files.service.ts: what is shown of upload sessions, and the cleanup of the
-- expired ones. Times are shown by the parameter `iso`, sizes by `decimal`.
pub mod Over
pub mod Cleaned
use s3gator.Base.{
  ℕ, suc, String, Bool, true, false, Option, none, some, List, [], ◌∷◌, map, reverse, if◌then◌else◌,
  ◌==◌, ltb, leb, ◌&&◌, ◌||◌, str_eq, keep_if, take, length, min, max, or_default,
}
use s3gator.Base.Sorting.{sort_by}
use s3gator.Base.Outcome.{Outcome, ok, err, ◌>>=◌, ◌>>◌, forbidden}
use s3gator.Base.Text.{Text, text_eq}
use s3gator.Auth.{AppRole, super_admin, admin, user, SessionUser, role_eq, object_upload}
use s3gator.Auth.Authorization.{Bucket, find_bucket, require_bucket_permission}
use s3gator.S3.Multipart.{MultipartCompletePart, sort_parts}
use s3gator.Files.Model.{
  UploadSessionStatus, initiated, in_progress, completed, aborted, UploadSession, BucketScope, Env,
  State, find_bucket_by_id, has_scope, write_session,
}
use s3gator.Files.Rows.{expired_row}
use s3gator.Files.Entered.{guard, session_bucket, get_upload_session_for_user}

pub record UploadSessionPublic : Type 0 where
  pub id : String
  pub bucket_id : String
  pub bucket_name : String
  pub object_key : Text
  pub upload_id : String
  pub status : UploadSessionStatus
  pub part_size : Option ℕ
  pub total_parts : Option ℕ
  pub file_size : Option Text
  pub content_type : Option String
  pub completed_part_numbers : List ℕ
  pub completed_parts : List MultipartCompletePart
  pub error : Option String
  pub created_at : Text
  pub updated_at : Text
  pub expires_at : Text

abbrev pub status_eq : UploadSessionStatus → UploadSessionStatus → Bool
status_eq initiated initiated = true
status_eq in_progress in_progress = true
status_eq completed completed = true
status_eq aborted aborted = true
status_eq UploadSessionStatus.failed UploadSessionStatus.failed = true
status_eq _ _ = false

-- `status: { in: statuses }`
abbrev pub status_in : List UploadSessionStatus → UploadSessionStatus → Bool
status_in [] status = false
status_in (s ∷ statuses) status = status_eq s status || status_in statuses status

abbrev text_of : (ℕ → Text) → Option ℕ → Option Text
text_of decimal none = none
text_of decimal (some n) = some (decimal n)

-- The filter on the types of a part's members keeps every part of the model.
unfoldable pub to_upload_session_public :
    (ℕ → Text) → (ℕ → Text) → UploadSession → String → UploadSessionPublic
to_upload_session_public iso decimal session bucket_name = record {
  id = session.id;
  bucket_id = session.bucket_id;
  bucket_name = bucket_name;
  object_key = session.object_key;
  upload_id = session.upload_id;
  status = session.status;
  part_size = session.part_size;
  total_parts = session.total_parts;
  file_size = text_of decimal session.file_size;
  content_type = session.content_type;
  completed_part_numbers = sort_by leb (map (λ p. p.part_number) session.completed_parts);
  completed_parts = sort_parts session.completed_parts;
  error = session.error;
  created_at = iso session.created_at;
  updated_at = iso session.updated_at;
  expires_at = iso session.expires_at;
}

pub record RecoverInput : Type 0 where
  pub bucket : String
  pub object_key : Text
  pub file_size : ℕ
  pub part_size : ℕ

abbrev pub equals : ℕ → Option ℕ → Bool
equals n none = false
equals n (some k) = k == n

-- The condition of `findRecoverableSession`.
unfoldable pub is_recoverable : SessionUser → String → RecoverInput → ℕ → UploadSession → Bool
is_recoverable actor bucket_id input now s =
    str_eq s.user_id actor.id
    && str_eq s.bucket_id bucket_id
    && text_eq s.object_key input.object_key
    && status_in (initiated ∷ in_progress ∷ UploadSessionStatus.failed ∷ []) s.status
    && ltb now s.expires_at
    && equals input.part_size s.part_size
    && equals input.file_size s.file_size

abbrev pub first_of {ℓ} : {A : Type ℓ} → List A → Option A
first_of [] = none
first_of (x ∷ xs) = some x

pub data ListScope : Type 0 where
  mine all : ListScope

-- The condition of `listMultipartSessions` on a row's owner and bucket.
unfoldable pub in_list_scope :
    List BucketScope → SessionUser → Option ListScope → UploadSession → Bool
in_list_scope scopes actor (some all) s = elim actor.role [
  | super_admin ↦ true
  | admin ↦ has_scope scopes actor.id s.bucket_id
  | user ↦ str_eq s.user_id actor.id
]
in_list_scope scopes actor (some mine) s = str_eq s.user_id actor.id
in_list_scope scopes actor none s = str_eq s.user_id actor.id

-- `input.status?.length`
abbrev has_status : Option (List UploadSessionStatus) → UploadSession → Bool
has_status none s = true
has_status (some []) s = true
has_status (some (x ∷ statuses)) s = status_in (x ∷ statuses) s.status

-- The condition of the cleanup on a row.
unfoldable pub is_expired : List BucketScope → SessionUser → ℕ → UploadSession → Bool
is_expired scopes actor now s =
    status_in (initiated ∷ in_progress ∷ []) s.status
    && ltb s.expires_at now
    && (if role_eq actor.role admin then has_scope scopes actor.id s.bucket_id else true)

module _ {S : Type 0} where
  -- The loop over the rows that were found; the answer is `cleaned`.
  unfoldable pub clean_all : List UploadSession → ℕ → ℕ → State S → State S × ℕ
  unfolding expired_row
  clean_all [] now cleaned st = (st, cleaned)
  clean_all (s ∷ sessions) now cleaned st =
      clean_all sessions now (suc cleaned) (write_session s.id (expired_row now) st)

module _ {S : Type 0} (env : Env S) where
  module _ (iso decimal : ℕ → Text) where
    -- A session whose bucket is there, which its foreign key guarantees.
    abbrev shown : UploadSession → List UploadSessionPublic → List UploadSessionPublic
    shown s rest = elim (find_bucket_by_id s.bucket_id env.tables.buckets) [
      | none ↦ rest
      | some bucket ↦ to_upload_session_public iso decimal s bucket.name ∷ rest
    ]

    unfoldable pub show_all : List UploadSession → List UploadSessionPublic
    unfolding to_upload_session_public
    show_all [] = []
    show_all (s ∷ sessions) = shown s (show_all sessions)

    unfoldable pub get_multipart_session :
        SessionUser → String → ℕ → State S → Outcome UploadSessionPublic
    unfolding to_upload_session_public get_upload_session_for_user
    get_multipart_session actor id now st = do
      session ← get_upload_session_for_user env actor id true now st
      bucket ← session_bucket env session
      ok (to_upload_session_public iso decimal session bucket.name)

    unfoldable pub list_multipart_sessions :
        SessionUser
        → Option (List UploadSessionStatus)
        → Option ListScope
        → Option ℕ
        → State S
        → List UploadSessionPublic
    unfolding show_all in_list_scope
    list_multipart_sessions actor status scope limit st =
        let chosen =
          keep_if (λ s. has_status status s && in_list_scope env.scopes actor scope s)
            st.sessions in
        show_all (
          take (min (max (or_default limit 100) 1) 500)
            (sort_by (λ s t. leb t.updated_at s.updated_at) chosen))

    -- The newest session that can be taken up again.
    unfoldable pub find_recoverable_session :
        SessionUser → RecoverInput → ℕ → State S → Outcome (Option UploadSessionPublic)
    unfolding to_upload_session_public is_recoverable
    find_recoverable_session actor input now st = do
      require_bucket_permission env.tables (some actor) (some input.bucket) object_upload
      elim (find_bucket input.bucket env.tables.buckets) [
        | none ↦ ok none
        | some bucket ↦
            elim (first_of
              (keep_if (is_recoverable actor bucket.id input now) (reverse st.sessions))) [
                | none ↦ ok none
                | some s ↦ ok (some (to_upload_session_public iso decimal s bucket.name))
              ]
      ]

  -- The rows that the cleanup finds.
  unfoldable pub find_expired : SessionUser → Option ℕ → ℕ → State S → List UploadSession
  unfolding is_expired
  find_expired actor limit now st =
      take (min (max (or_default limit 100) 1) 500)
        (keep_if (is_expired env.scopes actor now) st.sessions)

  -- The answer is `cleaned` and `totalExpired`.
  unfoldable pub cleanup_expired_multipart_sessions :
      SessionUser → Option ℕ → ℕ → State S → State S × Outcome (ℕ × ℕ)
  unfolding clean_all find_expired
  cleanup_expired_multipart_sessions actor limit now st =
      let done = clean_all (find_expired actor limit now st) now 0 st in
      if role_eq actor.role super_admin || role_eq actor.role admin
      then (done.0, ok (done.1, length (find_expired actor limit now st)))
      else (st, err (forbidden "Insufficient role"))
