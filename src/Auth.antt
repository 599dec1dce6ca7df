-- ===== src/Auth.antt =====
-- packages/shared/src: roles, permissions and the user of a session.
mod Examples
pub mod Authorization
pub mod Sessions
use s3gator.Base.{
  String, Option, Bool, true, false, ◌≡◌, ◌↔◌, refl, sym, ap, ◌∙◌, arith, ℕ, ◌==◌, ==_iff,
  if◌then◌else◌,
}

pub data AppRole : Type 0 where
  super_admin admin user : AppRole

-- The permission codes; `bucket_list` is "bucket:list", and so on.
pub data BucketPermission : Type 0 where
  bucket_list object_list object_read object_preview object_download : BucketPermission
  object_upload object_delete object_rename folder_create folder_rename : BucketPermission
  folder_delete folder_stats search_run : BucketPermission

pub record SessionUser : Type 0 where
  pub id : String
  pub username : String
  pub email : Option String
  pub display_name : Option String
  pub role : AppRole

abbrev pub role_eq : AppRole → AppRole → Bool
role_eq super_admin super_admin = true
role_eq admin admin = true
role_eq user user = true
role_eq _ _ = false

-- The place of a code in `BUCKET_PERMISSIONS`, by which codes are compared.
permission_index : BucketPermission → ℕ
permission_index bucket_list = 0
permission_index object_list = 1
permission_index object_read = 2
permission_index object_preview = 3
permission_index object_download = 4
permission_index object_upload = 5
permission_index object_delete = 6
permission_index object_rename = 7
permission_index folder_create = 8
permission_index folder_rename = 9
permission_index folder_delete = 10
permission_index folder_stats = 11
permission_index search_run = 12

at_index : ℕ → BucketPermission
at_index n =
    if n == 0
    then bucket_list
    else if n == 1
    then object_list
    else if n == 2
    then object_read
    else if n == 3
    then object_preview
    else if n == 4
    then object_download
    else if n == 5
    then object_upload
    else if n == 6
    then object_delete
    else if n == 7
    then object_rename
    else if n == 8
    then folder_create
    else if n == 9
    then folder_rename
    else if n == 10
    then folder_delete
    else if n == 11
    then folder_stats
    else search_run

at-permission_index : (p : BucketPermission) → at_index (permission_index p) ≡ p
unfolding at_index permission_index
at-permission_index bucket_list = refl
at-permission_index object_list = refl
at-permission_index object_read = refl
at-permission_index object_preview = refl
at-permission_index object_download = refl
at-permission_index object_upload = refl
at-permission_index object_delete = refl
at-permission_index object_rename = refl
at-permission_index folder_create = refl
at-permission_index folder_rename = refl
at-permission_index folder_delete = refl
at-permission_index folder_stats = refl
at-permission_index search_run = refl

unfoldable pub permission_eq : BucketPermission → BucketPermission → Bool
unfolding permission_index
permission_eq p q = permission_index p == permission_index q

pub permission_eq_iff : (p q : BucketPermission) → (permission_eq p q ≡ true) ↔ (p ≡ q)
unfolding permission_eq
permission_eq_iff p q = (
  (λ h. sym (at-permission_index p) ∙ ap at_index ((==_iff _ _).0 h) ∙ at-permission_index q),
  (λ e. (==_iff _ _).1 (ap permission_index e)),
)

pub role_eq_iff : (r s : AppRole) → (role_eq r s ≡ true) ↔ (r ≡ s)
role_eq_iff r s = ground arith
