-- ===== src/Auth/Authorization.antt =====
-- apps/api/src/authorization: which role and which grant a request needs. The tables are lists:
-- buckets by their unique name, in the order of the names, and the grants of permissions on them.
pub mod Grants
use Prim.Native.String
use s3gator.Base.{
  String, Bool, true, false, Option, none, some, List, [], ◌∷◌, keep_if, if◌then◌else◌, str_eq,
  ◌&&◌, ◌||◌, or_default, is_some, ℕ,
}
use s3gator.Base.Outcome.{Outcome, ok, err, forbidden}
use s3gator.Auth.{
  AppRole, super_admin, BucketPermission, bucket_list, object_list, object_read, object_preview,
  object_download, object_upload, object_delete, object_rename, folder_create, folder_rename,
  folder_delete, folder_stats, search_run, SessionUser, role_eq, permission_eq,
}

pub record Bucket : Type 0 where
  pub id : String
  pub name : String
  pub garage_bucket_id : Option String
  pub connection_id : Option String
  pub created_at : ℕ
  pub updated_at : ℕ

-- A row of `userBucketPermission`, with the code of its permission.
pub record Grant : Type 0 where
  pub user_id : String
  pub bucket_id : String
  pub permission : BucketPermission

pub record Tables : Type 0 where
  pub buckets : List Bucket
  pub grants : List Grant

abbrev pub permission_code : BucketPermission → String
permission_code bucket_list = "bucket:list"
permission_code object_list = "object:list"
permission_code object_read = "object:read"
permission_code object_preview = "object:preview"
permission_code object_download = "object:download"
permission_code object_upload = "object:upload"
permission_code object_delete = "object:delete"
permission_code object_rename = "object:rename"
permission_code folder_create = "folder:create"
permission_code folder_rename = "folder:rename"
permission_code folder_delete = "folder:delete"
permission_code folder_stats = "folder:stats"
permission_code search_run = "search:run"

-- `allowed.includes(role)`
abbrev pub role_in : AppRole → List AppRole → Bool
role_in role [] = false
role_in role (r ∷ roles) = role_eq r role || role_in role roles

unfoldable pub require_role : Option SessionUser → List AppRole → Outcome (Unit {0})
require_role none allowed = err (forbidden "Not authenticated")
require_role (some user) allowed =
    if role_in user.role allowed then ok tt else err (forbidden "Insufficient role")

-- `bucket.findUnique` by name
unfoldable pub find_bucket : String → List Bucket → Option Bucket
find_bucket name [] = none
find_bucket name (b ∷ buckets) = if str_eq b.name name then some b else find_bucket name buckets

-- `userBucketPermission.findFirst`
unfoldable pub has_grant : String → String → BucketPermission → List Grant → Bool
has_grant user_id bucket_id permission [] = false
has_grant user_id bucket_id permission (g ∷ grants) =
    (str_eq g.user_id user_id
      && str_eq g.bucket_id bucket_id
      && permission_eq g.permission permission)
    || has_grant user_id bucket_id permission grants

-- `!bucketName`
abbrev pub named : Option String → Option String
named none = none
named (some name) = if str_eq name "" then none else some name

abbrev pub on_bucket :
    Tables → String → String → BucketPermission → Option Bucket → Outcome (Unit {0})
on_bucket tables user_id name permission none = err (forbidden "Unknown bucket")
on_bucket tables user_id name permission (some bucket) =
    if has_grant user_id bucket.id permission tables.grants
    then ok tt
    else err (
        forbidden (
          String.◌++◌ "Missing permission "
            (String.◌++◌ (permission_code permission) (String.◌++◌ " on bucket " name))))

abbrev pub in_bucket : Tables → String → BucketPermission → Option String → Outcome (Unit {0})
in_bucket tables user_id permission none = err (forbidden "Missing bucket scope")
in_bucket tables user_id permission (some name) =
    on_bucket tables user_id name permission (find_bucket name tables.buckets)

unfoldable pub require_bucket_permission :
    Tables → Option SessionUser → Option String → BucketPermission → Outcome (Unit {0})
require_bucket_permission tables none bucket_name permission = err (forbidden "Not authenticated")
require_bucket_permission tables (some user) bucket_name permission =
    if role_eq user.role super_admin
    then ok tt
    else in_bucket tables user.id permission (named bucket_name)

unfoldable pub list_accessible_buckets : Tables → SessionUser → List Bucket
list_accessible_buckets tables user =
    if role_eq user.role super_admin
    then tables.buckets
    else keep_if (λ b. has_grant user.id b.id bucket_list tables.grants) tables.buckets

-- role.guard.ts; the roles that a route's decorator names, if it has one
unfoldable pub role_guard : Option (List AppRole) → Option SessionUser → Outcome (Unit {0})
role_guard none user = ok tt
role_guard (some []) user = ok tt
role_guard (some (r ∷ roles)) user = require_role user (r ∷ roles)

-- permission.decorator.ts
pub data Source : Type 0 where
  query body params : Source

pub record BucketPermissionRequirement : Type 0 where
  pub permission : BucketPermission
  pub bucket_field : Option String
  pub source : Option Source

-- bucket-permission.guard.ts. `field_of` is the text of a member of the request's query, body or
-- parameters, none where it is missing.
unfoldable pub bucket_permission_guard :
    Tables
    → Option BucketPermissionRequirement
    → (Source → String → Option String)
    → Option SessionUser
    → Outcome (Unit {0})
bucket_permission_guard tables none field_of user = ok tt
bucket_permission_guard tables (some requirement) field_of user =
    let source = or_default requirement.source query in
    let field = or_default requirement.bucket_field "bucket" in
    require_bucket_permission tables user (named (field_of source field)) requirement.permission
