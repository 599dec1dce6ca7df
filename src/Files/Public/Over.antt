-- ===== src/Files/Public/Over.antt =====
-- The sessions that a cleanup looks for, told apart from its filter.
use mathlib.Core.List.{Memᴰ}
use s3gator.Base.{
  ◌<◌, sym, ◌↔◌, str_eq, ◌&&◌, lt→ltb, ℕ, String, true, List, [], ◌∷◌, ◌≡◌, refl, ◌∙◌, ap, inl, inr,
  arith, eq_iff, if◌then◌else◌, Bool-cases, ◌⊎◌,
}
use s3gator.Auth.{SessionUser, super_admin, admin, role_eq}
use s3gator.Files.Model.{
  UploadSessionStatus, initiated, in_progress, BucketScope, has_scope, UploadSession,
}
use s3gator.Files.Public.{status_in, is_expired}

-- A session that is begun and unfinished, whose time is over, and that is in the scope of the
-- actor: in that of an administrator are the buckets that the table gives to it, in that of a
-- super administrator all.
abbrev pub IsOver : List BucketScope → SessionUser → ℕ → UploadSession → Type 0
IsOver scopes actor now s =
    ((s.status ≡ initiated) ⊎ (s.status ≡ in_progress))
    × (s.expires_at < now)
    × ((actor.role ≡ super_admin)
        ⊎ ((scope : BucketScope) × Memᴰ scope scopes
            × (scope.admin_user_id ≡ actor.id)
            × (scope.bucket_id ≡ s.bucket_id)))

scope_of_has :
    (scopes : List BucketScope) (id bucket_id : String)
    → has_scope scopes id bucket_id ≡ true
    → (scope : BucketScope) × Memᴰ scope scopes
      × (scope.admin_user_id ≡ id)
      × (scope.bucket_id ≡ bucket_id)
unfolding has_scope
scope_of_has [] id bucket_id h = absurd (cc h)
scope_of_has (s ∷ scopes) id bucket_id h =
    elim (Bool-cases (str_eq s.admin_user_id id && str_eq s.bucket_id bucket_id)) [
      | inl hit ↦ (
        s,
        Memᴰ.head refl,
        ground (arith, eq_iff s.admin_user_id id),
        ground (arith, eq_iff s.bucket_id bucket_id),
      )
      | inr miss ↦
          let (scope, m, owner, bucket) = scope_of_has scopes id bucket_id (rw miss at h) in
          (scope, Memᴰ.tail m, owner, bucket)
    ]

has_of_scope :
    (scopes : List BucketScope) (id bucket_id : String) (scope : BucketScope)
    → Memᴰ scope scopes
    → scope.admin_user_id ≡ id
    → scope.bucket_id ≡ bucket_id
    → has_scope scopes id bucket_id ≡ true
unfolding has_scope
has_of_scope [] id bucket_id scope m owner bucket = elim m [ ]
has_of_scope (s ∷ scopes) id bucket_id scope (Memᴰ.head e) owner bucket = ground (
  arith,
  (eq_iff s.admin_user_id id).1 (sym (ap (λ (b : BucketScope). b.admin_user_id) e) ∙ owner),
  (eq_iff s.bucket_id bucket_id).1 (sym (ap (λ (b : BucketScope). b.bucket_id) e) ∙ bucket),
)
has_of_scope (s ∷ scopes) id bucket_id scope (Memᴰ.tail m) owner bucket =
    ground (arith, has_of_scope scopes id bucket_id scope m owner bucket)

is_open_iff :
    (status : UploadSessionStatus)
    → (status_in (initiated ∷ in_progress ∷ []) status ≡ true)
      ↔ ((status ≡ initiated) ⊎ (status ≡ in_progress))
is_open_iff status = ground arith

in_scope-of :
    (scopes : List BucketScope) (actor : SessionUser) (s : UploadSession)
    → (actor.role ≡ super_admin) ⊎ (actor.role ≡ admin)
    → (if role_eq actor.role admin then has_scope scopes actor.id s.bucket_id else true) ≡ true
    → (actor.role ≡ super_admin)
      ⊎ ((scope : BucketScope) × Memᴰ scope scopes
          × (scope.admin_user_id ≡ actor.id)
          × (scope.bucket_id ≡ s.bucket_id))
in_scope-of scopes actor s (inl root) h = inl root
in_scope-of scopes actor s (inr limited) h =
    inr (scope_of_has scopes actor.id s.bucket_id (rw limited at h))

of-in_scope :
    (scopes : List BucketScope) (actor : SessionUser) (s : UploadSession)
    → (actor.role ≡ super_admin)
      ⊎ ((scope : BucketScope) × Memᴰ scope scopes
          × (scope.admin_user_id ≡ actor.id)
          × (scope.bucket_id ≡ s.bucket_id))
    → (if role_eq actor.role admin then has_scope scopes actor.id s.bucket_id else true) ≡ true
of-in_scope scopes actor s (inl root) = rw root refl
of-in_scope scopes actor s (inr (scope, m, owner, bucket)) =
    ground (arith, has_of_scope scopes actor.id s.bucket_id scope m owner bucket)

pub is_expired-IsOver :
    (scopes : List BucketScope) (actor : SessionUser) (now : ℕ) (s : UploadSession)
    → (actor.role ≡ super_admin) ⊎ (actor.role ≡ admin)
    → is_expired scopes actor now s ≡ true
    → IsOver scopes actor now s
unfolding is_expired
is_expired-IsOver scopes actor now s may h = (
  (is_open_iff s.status).0 (ground arith),
  ground arith,
  in_scope-of scopes actor s may (ground arith),
)

pub IsOver-is_expired :
    (scopes : List BucketScope) (actor : SessionUser) (now : ℕ) (s : UploadSession)
    → IsOver scopes actor now s
    → is_expired scopes actor now s ≡ true
unfolding is_expired
IsOver-is_expired scopes actor now s (begun, past, scoped) =
    rw
      (
        (is_open_iff s.status).1 begun,
        lt→ltb s.expires_at now past,
        of-in_scope scopes actor s scoped,
      )
      refl
