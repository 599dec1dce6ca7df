-- ===== src/Worker/Payload.antt =====
-- apps/api/src/jobs/jobs.worker.service.ts: the schemas of the jobs' payloads, on JSON values. The
-- text of the error that the schema library throws is a parameter of the callers.
use s3gator.Base.{Option, none, some, [], ◌∷◌, if◌then◌else◌}
use s3gator.Base.Text.{Text, codes, text_eq}
use s3gator.Auth.{AppRole, super_admin, admin, user}
use s3gator.Jobs.Json.{Json, str, null, obj, Fields, end, field}

pub record Actor : Type 0 where
  pub id : Text
  pub username : Text
  pub email : Option Text
  pub display_name : Option Text
  pub role : AppRole

pub data Reason : Type 0 where
  manual scheduled : Reason

pub record FolderRenamePayload : Type 0 where
  pub actor : Actor
  pub bucket : Text
  pub old_key : Text
  pub new_key : Text
  pub ip_address : Option Text
  pub correlation_id : Option Text

pub record FolderDeletePayload : Type 0 where
  pub actor : Actor
  pub bucket : Text
  pub object_key : Text
  pub ip_address : Option Text
  pub correlation_id : Option Text

-- The payload of the other jobs; only that of a synchronisation has an address.
pub record MaintenancePayload : Type 0 where
  pub actor : Actor
  pub reason : Reason
  pub ip_address : Option Text
  pub correlation_id : Option Text

infixl 5 ◌>>=◌
abbrev pub ◌>>=◌ {ℓ κ} : {A : Type ℓ} {B : Type κ} → Option A → (A → Option B) → Option B
none >>= f = none
some a >>= f = f a

-- A member of an object.
unfoldable pub member : Text → Fields → Option Json
member k end = none
member k (field name value rest) = if text_eq name k then some value else member k rest

abbrev pub as_fields : Json → Option Fields
as_fields (obj fields) = some fields
as_fields _ = none

-- `z.string()`
abbrev pub as_string : Option Json → Option Text
as_string (some (str s)) = some s
as_string _ = none

-- `z.string().min(1)`
abbrev pub as_nonempty : Option Json → Option Text
as_nonempty (some (str [])) = none
as_nonempty (some (str (c ∷ s))) = some (c ∷ s)
as_nonempty _ = none

-- `z.string().nullable()`
abbrev pub as_nullable : Option Json → Option (Option Text)
as_nullable (some null) = some none
as_nullable (some (str s)) = some (some s)
as_nullable _ = none

-- `z.string().optional()`
abbrev pub as_optional : Option Json → Option (Option Text)
as_optional none = some none
as_optional (some (str s)) = some (some s)
as_optional (some _) = none

abbrev pub role_named : Text → Option AppRole
role_named s =
    if text_eq s (codes "SUPER_ADMIN")
    then some super_admin
    else if text_eq s (codes "ADMIN")
    then some admin
    else if text_eq s (codes "USER")
    then some user
    else none

abbrev pub reason_named : Text → Option Reason
reason_named s =
    if text_eq s (codes "manual")
    then some manual
    else if text_eq s (codes "scheduled")
    then some scheduled
    else none

-- `z.enum(["manual", "scheduled"])`
abbrev pub as_reason : Option Json → Option Reason
as_reason (some (str s)) = reason_named s
as_reason _ = none

-- `z.enum(["manual", "scheduled"]).default("manual")`
abbrev pub as_default_reason : Option Json → Option Reason
as_default_reason none = some manual
as_default_reason (some v) = as_reason (some v)

unfoldable pub parse_actor : Option Json → Option Actor
unfolding member
parse_actor none = none
parse_actor (some value) = do
  fields ← as_fields value
  id ← as_string (member (codes "id") fields)
  username ← as_string (member (codes "username") fields)
  email ← as_nullable (member (codes "email") fields)
  display_name ← as_nullable (member (codes "displayName") fields)
  name ← as_string (member (codes "role") fields)
  role ← role_named name
  some (record {
    id = id;
    username = username;
    email = email;
    display_name = display_name;
    role = role;
  })

unfoldable pub parse_folder_rename : Json → Option FolderRenamePayload
unfolding parse_actor
parse_folder_rename value = do
  fields ← as_fields value
  actor ← parse_actor (member (codes "actor") fields)
  bucket ← as_nonempty (member (codes "bucket") fields)
  old_key ← as_nonempty (member (codes "oldKey") fields)
  new_key ← as_nonempty (member (codes "newKey") fields)
  ip_address ← as_optional (member (codes "ipAddress") fields)
  correlation_id ← as_optional (member (codes "correlationId") fields)
  some (record {
    actor = actor;
    bucket = bucket;
    old_key = old_key;
    new_key = new_key;
    ip_address = ip_address;
    correlation_id = correlation_id;
  })

unfoldable pub parse_folder_delete : Json → Option FolderDeletePayload
unfolding parse_actor
parse_folder_delete value = do
  fields ← as_fields value
  actor ← parse_actor (member (codes "actor") fields)
  bucket ← as_nonempty (member (codes "bucket") fields)
  key ← as_nonempty (member (codes "key") fields)
  ip_address ← as_optional (member (codes "ipAddress") fields)
  correlation_id ← as_optional (member (codes "correlationId") fields)
  some (record {
    actor = actor;
    bucket = bucket;
    object_key = key;
    ip_address = ip_address;
    correlation_id = correlation_id;
  })

unfoldable pub parse_bucket_sync : Json → Option MaintenancePayload
unfolding parse_actor
parse_bucket_sync value = do
  fields ← as_fields value
  actor ← parse_actor (member (codes "actor") fields)
  reason ← as_default_reason (member (codes "reason") fields)
  ip_address ← as_optional (member (codes "ipAddress") fields)
  correlation_id ← as_optional (member (codes "correlationId") fields)
  some (record {
    actor = actor;
    reason = reason;
    ip_address = ip_address;
    correlation_id = correlation_id;
  })

-- The two other schemas, whose reason is required in the first and has a default in the second.
abbrev parse_cleanup : (Option Json → Option Reason) → Json → Option MaintenancePayload
parse_cleanup reason_of value = do
  fields ← as_fields value
  actor ← parse_actor (member (codes "actor") fields)
  reason ← reason_of (member (codes "reason") fields)
  correlation_id ← as_optional (member (codes "correlationId") fields)
  some (record {
    actor = actor;
    reason = reason;
    ip_address = none;
    correlation_id = correlation_id;
  })

unfoldable pub parse_upload_cleanup : Json → Option MaintenancePayload
unfolding parse_actor
parse_upload_cleanup value = parse_cleanup as_reason value

unfoldable pub parse_retention_cleanup : Json → Option MaintenancePayload
unfolding parse_actor
parse_retention_cleanup value = parse_cleanup as_default_reason value
