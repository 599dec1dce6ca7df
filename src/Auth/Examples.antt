-- ===== src/Auth/Examples.antt =====
-- Concrete requests, sessions and grants.
use s3gator.Base.{
  ◌+◌, ◌*◌, String, true, false, Option, none, some, [], ◌∷◌, ◌≡◌, ◌≢◌, ◌↔◌, ◌⊎◌, refl, ltb,
  if◌then◌else◌, or_default,
}
use mathlib.Core.List.{Memᴰ}
use s3gator.Base.Outcome.{ok}
use s3gator.Auth.{
  SessionUser, AppRole, super_admin, admin, user, BucketPermission, bucket_list, object_read,
}
use s3gator.Auth.Authorization.{Bucket, Grant, require_bucket_permission, list_accessible_buckets}
use s3gator.Auth.Authorization.Grants.{
  IsGranted, require_bucket_permission_iff, list_accessible_buckets_iff,
}
use s3gator.Auth.Sessions.{
  Session, Account, Tables, Resolved, one, Request, find_session, find_account, resolve,
  get_session_user, create_session, revoke_session, session_user, admit, nonempty, first_value,
  same_token, is_safe, session_of_token, session_auth_guard, csrf_guard, enter,
}
use s3gator.Auth.Sessions.Admitted.{IsSessionOf, signed_in, admit-ok}
use s3gator.Auth.Sessions.Created.{create_session-get_session_user}
use s3gator.Auth.Sessions.Revoked.{revoke_session-get_session_user}

abbrev alice : SessionUser
alice = record { id = "u1"; username = "alice"; email = none; display_name = none; role = user }

abbrev photos : Bucket
photos = record {
  id = "b1";
  name = "photos";
  garage_bucket_id = some "g1";
  connection_id = none;
  created_at = 1;
  updated_at = 1;
}

abbrev granted : s3gator.Auth.Authorization.Tables
granted = record {
  buckets = photos ∷ [];
  grants = record { user_id = "u1"; bucket_id = "b1"; permission = object_read } ∷ [];
}

require_bucket_permission_iff_example :
    (require_bucket_permission granted (some alice) (some "photos") object_read ≡ ok tt) ↔ (
      (u : SessionUser) × (◌≡◌ {A = Option SessionUser} (some alice) (some u))
      × ((u.role ≡ super_admin)
          ⊎ ((name : String) × (◌≡◌ {A = Option String} (some "photos") (some name))
              × (name ≢ "")
              × IsGranted granted u.id name object_read)))
require_bucket_permission_iff_example =
    require_bucket_permission_iff granted (some alice) (some "photos") object_read

list_accessible_buckets_iff_example : Memᴰ photos (list_accessible_buckets granted alice) ↔ (
    Memᴰ photos granted.buckets
    × (require_bucket_permission granted (some alice) (some "photos") bucket_list ≡ ok tt))
list_accessible_buckets_iff_example =
    list_accessible_buckets_iff granted alice photos (tt, tt) (λ h. absurd (cc h))

abbrev account : Account
account = record {
  id = "u1";
  username = "alice";
  email = none;
  display_name = none;
  role = admin;
  is_active = true;
}

abbrev session : Session
session = record {
  id = "s1";
  token_hash = "t1";
  csrf_token = "c1";
  user_id = "u1";
  ip_address = none;
  user_agent = none;
  last_seen_at = 1000;
  expires_at = 9000;
  revoked_at = none;
}

abbrev stored : Tables
stored = record { sessions = session ∷ []; accounts = account ∷ [] }

found : find_account "u1" stored.accounts ≡ some account
unfolding find_account
found = refl

create_session-get_session_user_example :
    (get_session_user
      (λ x. x)
      5000
      "t2"
      (create_session (λ x. x) 1 1000 "s2" "t2" "c2" "u1" none none stored)).1
    ≡ (if ltb (1000 + 1 * 60 * 60 * 1000) 5000
        then none
        else some record { session_id = "s2"; csrf_token = "c2"; user = session_user account })
create_session-get_session_user_example =
    create_session-get_session_user (λ x. x) 1 1000 5000 "s2" "t2" "c2" "u1" none none stored
      account found refl

abbrev answer : Resolved
answer = record { session_id = "s1"; csrf_token = "c1"; user = session_user account }

still_there :
    (get_session_user (λ x. x) 3000 "t1" (revoke_session 2000 "s2" stored)).1 ≡ some answer
unfolding get_session_user find_session find_account resolve revoke_session
still_there = refl

revoke_session-get_session_user_example : answer.session_id ≢ "s2"
revoke_session-get_session_user_example =
    revoke_session-get_session_user (λ x. x) 2000 3000 "s2" "t1" stored answer still_there

abbrev post : Request
post = record {
  method = "POST";
  cookie = some "t1";
  csrf_header = one "c1";
  session_id = none;
  csrf_token = none;
  user = none;
}

admitted :
    (admit (λ x. x) (λ x. some x) (λ x. x) false 3000 post stored).1
    ≡ ok (signed_in post session account)
unfolding admit session_auth_guard session_of_token enter csrf_guard get_session_user find_session
    find_account resolve
admitted = refl

admit-ok_example :
    (token : String) × (s : Session) × (a : Account) × (nonempty (some (or_default post.cookie ""))
      ≡ some token)
    × IsSessionOf (λ x. x) 3000 token stored s a
    × (signed_in post session account ≡ signed_in post s a)
    × ((is_safe post.method ≡ true)
        ⊎ (same_token (nonempty (first_value post.csrf_header)) (nonempty (some s.csrf_token))
            ≡ true))
admit-ok_example =
    admit-ok (λ x. x) (λ x. some x) (λ x. x) 3000 post (signed_in post session account) stored
      admitted
