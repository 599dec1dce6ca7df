-- ===== src/Files/Entered/Admitted.antt =====
-- Exactly who may change an upload session.
use s3gator.Base.{
  ℕ, String, true, false, some, ◌≡◌, ◌↔◌, ◌⊎◌, inl, inr, arith, eq_iff, ◌≤◌, ◌∙◌, ap, subst,
  Option-cases, List,
}
use s3gator.Base.Outcome.{ok, bind-ok}
use s3gator.Auth.{super_admin, SessionUser, role_eq_iff, object_upload}
use s3gator.Auth.Authorization.{Bucket, require_bucket_permission}
use s3gator.Files.Model.{UploadSession, BucketScope, Env, State, find_upload, find_bucket_by_id}
use s3gator.Files.Entered.{
  is_over, check_foreign, check_session, get_upload_session_for_user, Entry, session_bucket, enter,
}

-- The session is the actor's own or the actor is a super administrator.
abbrev pub IsOwned : SessionUser → UploadSession → Type 0
IsOwned actor session = (session.user_id ≡ actor.id) ⊎ (actor.role ≡ super_admin)

abbrev pub IsOpen : ℕ → UploadSession → Type 0
IsOpen now session = (now ≤ session.expires_at) ⊎ (is_over session.status ≡ true)

check_session_iff :
    (scopes : List BucketScope) (actor : SessionUser) (now : ℕ) (s t : UploadSession)
    → (check_session scopes actor now s false ≡ ok t) ↔ ((s ≡ t) × IsOwned actor s × IsOpen now s)
unfolding check_session check_foreign
check_session_iff scopes actor now s t =
    ground (arith, eq_iff s.user_id actor.id, role_eq_iff actor.role super_admin)

module _ {S : Type 0} (env : Env S) where
  -- The session is there and is the actor's to change, it has not expired, and the actor may
  -- upload to its bucket.
  abbrev pub IsAdmitted : SessionUser → String → ℕ → State S → Entry → Type 0
  IsAdmitted actor id now st entry =
      (find_upload id st.sessions ≡ some entry.session)
      × IsOwned actor entry.session
      × IsOpen now entry.session
      × (find_bucket_by_id entry.session.bucket_id env.tables.buckets ≡ some entry.bucket)
      × (require_bucket_permission env.tables (some actor) (some entry.bucket.name) object_upload
          ≡ ok tt)

  session_found :
      (actor : SessionUser) (id : String) (now : ℕ) (st : State S) (s : UploadSession)
      → get_upload_session_for_user env actor id false now st ≡ ok s
      → (find_upload id st.sessions ≡ some s) × IsOwned actor s × IsOpen now s
  unfolding get_upload_session_for_user
  session_found actor id now st s h = elim (Option-cases (find_upload id st.sessions)) [
    | inl e ↦ absurd (cc (rw (get_upload_session_for_user, e) at h))
    | inr (t, e) ↦
        let (same, owned, unexpired) =
          (check_session_iff env.scopes actor now t s).0
            (rw (get_upload_session_for_user, e) at h) in
        (e ∙ ap some same, subst (IsOwned actor) same owned, subst (IsOpen now) same unexpired)
  ]

  bucket_found :
      (s : UploadSession) (b : Bucket)
      → session_bucket env s ≡ ok b
      → find_bucket_by_id s.bucket_id env.tables.buckets ≡ some b
  bucket_found s b h = elim (Option-cases (find_bucket_by_id s.bucket_id env.tables.buckets)) [
    | inl e ↦ absurd (cc (rw (session_bucket, e) at h))
    | inr (c, e) ↦ e ∙ cc (rw (session_bucket, e) at h)
  ]

  pub enter-IsAdmitted :
      (actor : SessionUser) (id : String) (now : ℕ) (st : State S) (entry : Entry)
      → enter env actor id now st ≡ ok entry
      → IsAdmitted actor id now st entry
  unfolding enter
  enter-IsAdmitted actor id now st entry h =
      let (session, found, h') =
        bind-ok (get_upload_session_for_user env actor id false now st) _ h in
      let (bucket, held, h'') = bind-ok (session_bucket env session) _ h' in
      let (_, granted, last) =
        bind-ok (require_bucket_permission env.tables (some actor) (some bucket.name) object_upload)
          _ h'' in
      subst (IsAdmitted actor id now st) (ok_inj last) (
        let (there, owned, unexpired) = session_found actor id now st session found in
        (there, owned, unexpired, bucket_found session bucket held, granted))
    where
      ok_inj : {a b : Entry} → ok a ≡ ok b → a ≡ b
      ok_inj e = cc
