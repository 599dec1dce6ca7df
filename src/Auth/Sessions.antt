-- ===== src/Auth/Sessions.antt =====
-- apps/api/src/auth: sessions and the two guards that every request passes, in their order. Times
-- are milliseconds; a row's identifier and the random tokens are arguments.
pub mod Found
pub mod Revoked
pub mod Created
pub mod Admitted
use s3gator.Base.{
  ℕ, ◌+◌, ◌*◌, String, Bool, true, false, not, ◌&&◌, ◌||◌, Option, none, some, List, [], ◌∷◌, map,
  if◌then◌else◌, ltb, str_eq, is_some, or_default,
}
use s3gator.Base.Outcome.{Outcome, ok, err, ◌>>=◌, forbidden, unauthorized}
use s3gator.Auth.{SessionUser, AppRole, super_admin, admin, user, role_eq}

pub record Session : Type 0 where
  pub id : String
  pub token_hash : String
  pub csrf_token : String
  pub user_id : String
  pub ip_address : Option String
  pub user_agent : Option String
  pub last_seen_at : ℕ
  pub expires_at : ℕ
  pub revoked_at : Option ℕ

-- A row of `user` with the code of its role.
pub record Account : Type 0 where
  pub id : String
  pub username : String
  pub email : Option String
  pub display_name : Option String
  pub role : AppRole
  pub is_active : Bool

pub record Tables : Type 0 where
  pub sessions : List Session
  pub accounts : List Account

pub record Resolved : Type 0 where
  pub session_id : String
  pub csrf_token : String
  pub user : SessionUser

abbrev pub map_role : AppRole → AppRole
map_role value =
    if role_eq value super_admin then super_admin else if role_eq value admin then admin else user

abbrev pub session_user : Account → SessionUser
session_user a = record {
  id = a.id;
  username = a.username;
  email = a.email;
  display_name = a.display_name;
  role = map_role a.role;
}

-- `session.findUnique` by the token's hash
unfoldable pub find_session : String → List Session → Option Session
find_session hash [] = none
find_session hash (s ∷ sessions) =
    if str_eq s.token_hash hash then some s else find_session hash sessions

-- The user of a session.
unfoldable pub find_account : String → List Account → Option Account
find_account id [] = none
find_account id (a ∷ accounts) = if str_eq a.id id then some a else find_account id accounts

abbrev pub seen : ℕ → String → Session → Session
seen now id s = if str_eq s.id id then record s { last_seen_at = now } else s

abbrev pub revoked : ℕ → String → Session → Session
revoked now id s =
    if str_eq s.id id && not (is_some s.revoked_at) then record s { revoked_at = some now } else s

-- The session is good for its user at the time.
abbrev pub is_live : ℕ → Session → Account → Bool
is_live now s a = not (is_some s.revoked_at || ltb s.expires_at now || not a.is_active)

abbrev pub resolved : Session → Account → Resolved
resolved s a = record { session_id = s.id; csrf_token = s.csrf_token; user = session_user a }

-- `getSessionUser` of a session with its user, which its foreign key guarantees.
unfoldable pub resolve : ℕ → Option Session → Tables → Tables × Option Resolved
unfolding find_account
resolve now none t = (t, none)
resolve now (some s) t = elim (find_account s.user_id t.accounts) [
  | none ↦ (t, none)
  | some a ↦
      if is_live now s a
      then (record t { sessions = map (seen now s.id) t.sessions }, some (resolved s a))
      else (t, none)
]

module _ (hash_token : String → String) where
  -- The row's id, token and CSRF token are drawn at random.
  unfoldable pub create_session :
      ℕ → ℕ → String → String → String → String → Option String → Option String → Tables → Tables
  create_session ttl_hours now id token csrf user_id ip agent t = record t {
    sessions =
        record {
          id = id;
          token_hash = hash_token token;
          csrf_token = csrf;
          user_id = user_id;
          ip_address = ip;
          user_agent = agent;
          last_seen_at = now;
          expires_at = now + ttl_hours * 60 * 60 * 1000;
          revoked_at = none;
        }
        ∷ t.sessions;
  }

  unfoldable pub get_session_user : ℕ → String → Tables → Tables × Option Resolved
  unfolding resolve find_session
  get_session_user now token t = resolve now (find_session (hash_token token) t.sessions) t

unfoldable pub revoke_session : ℕ → String → Tables → Tables
revoke_session now id t = record t { sessions = map (revoked now id) t.sessions }

-- A header's value: missing, one text, or several.
pub data Header : Type 0 where
  absent : Header
  one : String → Header
  several : List String → Header

-- What the guards read of a request, and what the session's guard writes to it.
pub record Request : Type 0 where
  pub method : String
  pub cookie : Option String
  pub csrf_header : Header
  pub session_id : Option String
  pub csrf_token : Option String
  pub user : Option SessionUser

abbrev pub first_value : Header → Option String
first_value absent = none
first_value (one v) = some v
first_value (several []) = none
first_value (several (v ∷ vs)) = some v

-- The text, if it is there and not empty.
abbrev pub nonempty : Option String → Option String
nonempty none = none
nonempty (some v) = if str_eq v "" then none else some v

abbrev pub is_safe : String → Bool
is_safe method = str_eq method "GET" || str_eq method "HEAD" || str_eq method "OPTIONS"

-- The request with the session that its token resolves to.
unfoldable pub enter : Request → Option Resolved → Outcome Request
enter r none = err (unauthorized "Session expired or invalid")
enter r (some found) = ok record r {
  user = some found.user;
  session_id = some found.session_id;
  csrf_token = some found.csrf_token;
}

module _ (hash_token : String → String) where
  -- The session's guard, from the token in the request's cookie.
  unfoldable pub session_of_token : ℕ → Option String → Request → Tables → Tables × Outcome Request
  unfolding get_session_user enter
  session_of_token now none r t = (t, err (unauthorized "Not authenticated"))
  session_of_token now (some token) r t =
      let found = get_session_user hash_token now token t in (found.0, enter r found.1)

  -- session-auth.guard.ts; `read_cookie` is the session's cookie in the text of the header.
  unfoldable pub session_auth_guard :
      (String → Option String) → Bool → ℕ → Request → Tables → Tables × Outcome Request
  unfolding session_of_token
  session_auth_guard read_cookie is_public now r t =
      if is_public
      then (t, ok r)
      else session_of_token now (nonempty (read_cookie (or_default r.cookie ""))) r t

abbrev pub same_token : Option String → Option String → Bool
same_token (some a) (some b) = str_eq a b
same_token _ _ = false

-- csrf.guard.ts; `upper` is `String.prototype.toUpperCase`.
unfoldable pub csrf_guard : (String → String) → Bool → Request → Outcome Request
csrf_guard upper is_public r =
    if is_public || is_safe (upper r.method)
    then ok r
    else if same_token (nonempty (first_value r.csrf_header)) (nonempty r.csrf_token)
    then ok r
    else err (forbidden "CSRF validation failed")

-- The two global guards of app.module.ts.
unfoldable pub admit :
    (String → String)
    → (String → Option String)
    → (String → String)
    → Bool
    → ℕ
    → Request
    → Tables
    → Tables × Outcome Request
unfolding session_auth_guard csrf_guard
admit hash_token read_cookie upper is_public now r t =
    let session = session_auth_guard hash_token read_cookie is_public now r t in
    (session.0, session.1 >>= csrf_guard upper is_public)
