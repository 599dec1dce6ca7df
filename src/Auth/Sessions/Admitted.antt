-- ===== src/Auth/Sessions/Admitted.antt =====
-- What the two global guards demand of a request.
use s3gator.Base.{
  ℕ, String, true, false, Option, none, some, ◌≡◌, subst, ◌⊎◌, refl, ap, ◌∙◌, Bool-cases, inl, inr,
  or_default,
}
use s3gator.Base.Outcome.{ok, bind-ok}
use s3gator.Auth.Sessions.{
  Session, Account, Tables, Resolved, Request, find_session, find_account, is_live, resolve,
  get_session_user, session_of_token, enter, session_auth_guard, csrf_guard, admit, nonempty,
  first_value, same_token, is_safe, session_user, resolved,
}
use s3gator.Auth.Sessions.Found.{resolve-some}

-- The session and the account that stand behind a token, good at the time.
pub record IsSessionOf (hash_token : String → String) (now : ℕ) (token : String) (t : Tables)
    (s : Session) (a : Account) : Type 0 where
  row : find_session (hash_token token) t.sessions ≡ some s
  owner : find_account s.user_id t.accounts ≡ some a
  live : is_live now s a ≡ true

abbrev pub signed_in : Request → Session → Account → Request
signed_in r s a = record r {
  user = some (session_user a);
  session_id = some s.id;
  csrf_token = some s.csrf_token;
}

csrf_guard-ok :
    (upper : String → String) (r q : Request)
    → csrf_guard upper false r ≡ ok q
    → (q ≡ r)
      × ((is_safe (upper r.method) ≡ true)
          ⊎ (same_token (nonempty (first_value r.csrf_header)) (nonempty r.csrf_token) ≡ true))
unfolding csrf_guard
csrf_guard-ok upper r q h = elim (Bool-cases (is_safe (upper r.method))) [
  | inl safe ↦ (cc (rw (csrf_guard, safe) at h), inl safe)
  | inr unsafe ↦
      elim (Bool-cases
        (same_token (nonempty (first_value r.csrf_header)) (nonempty r.csrf_token))) [
          | inl same ↦ (cc (rw (csrf_guard, unsafe, same) at h), inr same)
          | inr differ ↦ absurd (cc (rw (csrf_guard, unsafe, differ) at h))
        ]
]

enter-ok :
    (r q : Request) (o : Option Resolved)
    → enter r o ≡ ok q
    → (found : Resolved) × (o ≡ some found)
      × (q ≡ record r {
        user = some found.user;
        session_id = some found.session_id;
        csrf_token = some found.csrf_token;
      })
unfolding enter
enter-ok r q none h = absurd (cc h)
enter-ok r q (some found) h = (found, refl, cc h)

resolve-IsSessionOf :
    (hash_token : String → String) (now : ℕ) (token : String) (o : Option Session) (t : Tables)
    (found : Resolved)
    → find_session (hash_token token) t.sessions ≡ o
    → (resolve now o t).1 ≡ some found
    → (s : Session) × (a : Account) × IsSessionOf hash_token now token t s a
      × (found ≡ resolved s a)
unfolding resolve
resolve-IsSessionOf hash_token now token none t found e h = absurd (cc h)
resolve-IsSessionOf hash_token now token (some s) t found e h =
    let (a, owner, live, same) = resolve-some now s t found h in
    (s, a, record { row = e; owner = owner; live = live }, same)

session_of_token-ok :
    (hash_token : String → String) (now : ℕ) (o : Option String) (r q : Request) (t : Tables)
    → (session_of_token hash_token now o r t).1 ≡ ok q
    → (token : String) × (s : Session) × (a : Account) × (o ≡ some token)
      × IsSessionOf hash_token now token t s a
      × (q ≡ signed_in r s a)
unfolding session_of_token get_session_user
session_of_token-ok hash_token now none r q t h = absurd (cc h)
session_of_token-ok hash_token now (some token) r q t h =
    let (found, answered, e) = enter-ok r q (get_session_user hash_token now token t).1 h in
    let (s, a, good, same) =
      resolve-IsSessionOf hash_token now token (find_session (hash_token token) t.sessions) t found
        refl answered in
    (
      token,
      s,
      a,
      refl,
      good,
      e
          ∙ ap
              (λ (x : Resolved). record r {
                user = some x.user;
                session_id = some x.session_id;
                csrf_token = some x.csrf_token;
              })
              same,
    )

-- A request to a route that is not public passes the two guards only if its cookie has the token of
-- a session that is neither revoked nor expired and whose user is active; it then carries that
-- user, and if its method is not a safe one, its CSRF header is the session's CSRF token, which is
-- not empty.
pub admit-ok :
    (hash_token : String → String) (read_cookie : String → Option String) (upper : String → String)
    (now : ℕ) (r q : Request) (t : Tables)
    → (admit hash_token read_cookie upper false now r t).1 ≡ ok q
    → (token : String) × (s : Session) × (a : Account) × (nonempty
          (read_cookie (or_default r.cookie ""))
        ≡ some token)
      × IsSessionOf hash_token now token t s a
      × (q ≡ signed_in r s a)
      × ((is_safe (upper r.method) ≡ true)
          ⊎ (same_token (nonempty (first_value r.csrf_header)) (nonempty (some s.csrf_token))
              ≡ true))
unfolding admit session_auth_guard
admit-ok hash_token read_cookie upper now r q t h =
    let session =
      session_of_token hash_token now (nonempty (read_cookie (or_default r.cookie ""))) r t in
    let (p, first, second) = bind-ok session.1 (csrf_guard upper false) h in
    let (token, s, a, cookie, good, entered) =
      session_of_token-ok hash_token now (nonempty (read_cookie (or_default r.cookie ""))) r p t
        first in
    let (same, allowed) =
      csrf_guard-ok upper (signed_in r s a) q
        (subst (λ (x : Request). csrf_guard upper false x ≡ ok q) entered second) in
    (token, s, a, cookie, good, same, allowed)
