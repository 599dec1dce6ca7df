-- ===== src/Auth/Authorization/Grants.antt =====
-- Exactly who passes the checks of a bucket.
use s3gator.Base.{
  mem_of_keep_if, keep_if_of_mem, String, true, false, Option, none, some, List, [], ◌∷◌, ◌≡◌, ◌≢◌,
  ◌↔◌, ◌⊎◌, inl, inr, refl, arith, str_eq, eq_iff, ◌&&◌, Bool-cases, Option-cases, All,
}
use s3gator.Base.Outcome.{ok}
use s3gator.Auth.{
  super_admin, BucketPermission, bucket_list, SessionUser, role_eq, permission_eq,
  permission_eq_iff, role_eq_iff,
}
use s3gator.Auth.Authorization.{
  Bucket, Grant, Tables, find_bucket, has_grant, in_bucket, on_bucket, named,
  require_bucket_permission, list_accessible_buckets,
}
use mathlib.Core.List.{Memᴰ}

grant_of_has :
    (user_id bucket_id : String) (p : BucketPermission) (grants : List Grant)
    → has_grant user_id bucket_id p grants ≡ true
    → Memᴰ (record { user_id = user_id; bucket_id = bucket_id; permission = p }) grants
unfolding has_grant
grant_of_has user_id bucket_id p [] h = absurd (cc h)
grant_of_has user_id bucket_id p (g ∷ grants) h =
    elim (Bool-cases
      (str_eq g.user_id user_id && str_eq g.bucket_id bucket_id && permission_eq g.permission p)) [
        | inl hit ↦ Memᴰ.head (
            ground (
              arith,
              eq_iff g.user_id user_id,
              eq_iff g.bucket_id bucket_id,
              permission_eq_iff g.permission p,
            ))
        | inr miss ↦ Memᴰ.tail (grant_of_has user_id bucket_id p grants (rw miss at h))
      ]

has_of_grant :
    (user_id bucket_id : String) (p : BucketPermission) (grants : List Grant)
    → Memᴰ (record { user_id = user_id; bucket_id = bucket_id; permission = p }) grants
    → has_grant user_id bucket_id p grants ≡ true
unfolding has_grant
has_of_grant user_id bucket_id p [] m = elim m [ ]
has_of_grant user_id bucket_id p (g ∷ grants) (Memᴰ.head e) = ground (
  arith,
  eq_iff g.user_id user_id,
  eq_iff g.bucket_id bucket_id,
  permission_eq_iff g.permission p,
)
has_of_grant user_id bucket_id p (g ∷ grants) (Memᴰ.tail m) =
    ground (arith, has_of_grant user_id bucket_id p grants m)

-- A bucket of the name on which the user has the permission.
abbrev pub IsGranted : Tables → String → String → BucketPermission → Type 0
IsGranted tables user_id name p =
    (bucket : Bucket) × (find_bucket name tables.buckets ≡ some bucket)
    × Memᴰ (record { user_id = user_id; bucket_id = bucket.id; permission = p }) tables.grants

named_iff :
    (bucket_name : Option String) (name : String)
    → (named bucket_name ≡ some name) ↔ ((bucket_name ≡ some name) × (name ≢ ""))
named_iff none name = ground arith
named_iff (some s) name = ground (arith, eq_iff s "")

in_bucket_iff :
    (tables : Tables) (user_id name : String) (p : BucketPermission)
    → (in_bucket tables user_id p (some name) ≡ ok tt) ↔ IsGranted tables user_id name p
in_bucket_iff tables user_id name p = (there, back)
  where
    there : in_bucket tables user_id p (some name) ≡ ok tt → IsGranted tables user_id name p
    there h = elim (Option-cases (find_bucket name tables.buckets)) [
      | inl e ↦ absurd (cc (rw e at h))
      | inr (b, e) ↦ (b, e, grant_of_has user_id b.id p tables.grants (passed b (rw e at h)))
    ]
      where
        passed :
            (b : Bucket)
            → on_bucket tables user_id name p (some b) ≡ ok tt
            → has_grant user_id b.id p tables.grants ≡ true
        passed b q = ground arith

    back : IsGranted tables user_id name p → in_bucket tables user_id p (some name) ≡ ok tt
    back (b, e, m) = rw e (rw (has_of_grant user_id b.id p tables.grants m))

-- The check of a bucket lets exactly these pass: a super administrator, and a user who has the
-- permission, by a row of the grants, on the bucket of the name that the request gives. No one
-- else passes, also not where the request has no user, no name, or the name of no bucket.
pub require_bucket_permission_iff :
    (tables : Tables) (actor : Option SessionUser) (bucket_name : Option String)
    (p : BucketPermission)
    → (require_bucket_permission tables actor bucket_name p ≡ ok tt) ↔ (
        (u : SessionUser) × (actor ≡ some u)
        × ((u.role ≡ super_admin)
            ⊎ ((name : String) × (bucket_name ≡ some name)
                × (name ≢ "")
                × IsGranted tables u.id name p)))
unfolding require_bucket_permission
require_bucket_permission_iff tables none bucket_name p =
    ((λ h. absurd (cc h)), (λ x. absurd (cc (x.1))))
require_bucket_permission_iff tables (some u) bucket_name p =
    elim (Bool-cases (role_eq u.role super_admin)) [
      | inl top ↦
          rw top ((λ h. (u, refl, inl ((role_eq_iff u.role super_admin).0 top))), (λ x. refl))
      | inr other ↦ rw other (
        (λ h. elim (Option-cases (named bucket_name)) [
          | inl e ↦ absurd (cc (rw e at h))
          | inr (name, e) ↦ (
            u,
            refl,
            inr (
              name,
              ((named_iff bucket_name name).0 e).0,
              ((named_iff bucket_name name).0 e).1,
              (in_bucket_iff tables u.id name p).0 (rw e at h),
            ),
          )
        ]),
        (λ x. passes other x.0 x.1 x.2),
      )
    ]
  where
    passes :
        role_eq u.role super_admin ≡ false
        → (v : SessionUser) → ◌≡◌ {A = Option SessionUser} (some u) (some v)
        → (v.role ≡ super_admin)
          ⊎ ((name : String) × (bucket_name ≡ some name)
              × (name ≢ "")
              × IsGranted tables v.id name p)
        → in_bucket tables u.id p (named bucket_name) ≡ ok tt
    passes other v e (inl top) =
        let same : u ≡ v = cc in
        absurd (cc (other, (role_eq_iff u.role super_admin).1 (rw same top)))
    passes other v e (inr (name, given, filled, granted)) =
        let same : u ≡ v = cc in
        rw ((named_iff bucket_name name).1 (given, filled))
          ((in_bucket_iff tables u.id name p).1 (rw same granted))

-- The name is unique in the table.
abbrev pub UniqueNames : List Bucket → Type 0
UniqueNames [] = Unit
UniqueNames (b ∷ buckets) = All (λ c. c.name ≢ b.name) buckets × UniqueNames buckets

ne_of_mem :
    (name : String) (b : Bucket) (buckets : List Bucket)
    → All (λ c. c.name ≢ name) buckets
    → Memᴰ b buckets
    → b.name ≢ name
ne_of_mem name b [] h m = elim m [ ]
ne_of_mem name b (c ∷ buckets) h (Memᴰ.head e) = λ q. h.0 (ground arith)
ne_of_mem name b (c ∷ buckets) h (Memᴰ.tail m) = ne_of_mem name b buckets h.1 m

find_bucket_of_mem :
    (b : Bucket) (buckets : List Bucket)
    → UniqueNames buckets
    → Memᴰ b buckets
    → find_bucket b.name buckets ≡ some b
unfolding find_bucket
find_bucket_of_mem b [] u m = elim m [ ]
find_bucket_of_mem b (c ∷ buckets) u (Memᴰ.head e) = ground (arith, eq_iff c.name b.name)
find_bucket_of_mem b (c ∷ buckets) u (Memᴰ.tail m) = ground (
  arith,
  eq_iff c.name b.name,
  ne_of_mem c.name b buckets u.0 m,
  find_bucket_of_mem b buckets u.1 m,
)

-- The list of buckets agrees with the check: where names are unique and not empty, a bucket is in
-- a user's list exactly if it is in the table and the check of its name passes for bucket:list.
pub list_accessible_buckets_iff :
    (tables : Tables) (u : SessionUser) (b : Bucket)
    → UniqueNames tables.buckets
    → b.name ≢ ""
    → Memᴰ b (list_accessible_buckets tables u) ↔ (
        Memᴰ b tables.buckets
        × (require_bucket_permission tables (some u) (some b.name) bucket_list ≡ ok tt))
unfolding list_accessible_buckets require_bucket_permission
list_accessible_buckets_iff tables u b unique filled =
    elim (Bool-cases (role_eq u.role super_admin)) [
      | inl top ↦ rw top ((λ m. (m, refl)), (λ x. x.0))
      | inr other ↦
          rw (other, (named_iff (some b.name) b.name).1 (refl, filled))
            (
              (λ m.
                  let (listed, granted) = mem_of_keep_if _ b tables.buckets m in
                  (listed, rw (find_bucket_of_mem b tables.buckets unique listed) (rw granted))),
              (λ x. keep_if_of_mem _ b tables.buckets (listed_grant x.0 x.1) x.0),
            )
    ]
  where
    listed_grant :
        Memᴰ b tables.buckets
        → in_bucket tables u.id bucket_list (some b.name) ≡ ok tt
        → has_grant u.id b.id bucket_list tables.grants ≡ true
    listed_grant m h = passed (rw (find_bucket_of_mem b tables.buckets unique m) at h)
      where
        passed :
            on_bucket tables u.id b.name bucket_list (some b) ≡ ok tt
            → has_grant u.id b.id bucket_list tables.grants ≡ true
        passed q = ground arith
