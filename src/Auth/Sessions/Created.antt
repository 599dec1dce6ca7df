-- ===== src/Auth/Sessions/Created.antt =====
-- A session that was created serves its token until it expires.
use text.Mathlib.TextPositions.{eq_refl}
use s3gator.Base.{
  ℕ, ◌+◌, ◌*◌, String, true, Option, none, some, ◌≡◌, refl, Bool-cases, inl, inr, ltb,
  if◌then◌else◌,
}
use s3gator.Auth.Sessions.{
  Account, Tables, find_session, find_account, resolve, get_session_user, session_user,
  create_session,
}

-- Where the user's account is active, the token of a new session resolves to the session, its CSRF
-- token and the user until the lifetime has passed, and to nothing from then on.
pub create_session-get_session_user :
    (hash_token : String → String) (ttl_hours now later : ℕ) (id token csrf user_id : String)
    (ip agent : Option String) (t : Tables) (a : Account)
    → find_account user_id t.accounts ≡ some a
    → a.is_active ≡ true
    → (get_session_user hash_token later token
        (create_session hash_token ttl_hours now id token csrf user_id ip agent t)).1
      ≡ (if ltb (now + ttl_hours * 60 * 60 * 1000) later
          then none
          else some record { session_id = id; csrf_token = csrf; user = session_user a })
unfolding get_session_user create_session find_session resolve
create_session-get_session_user hash_token ttl_hours now later id token csrf user_id ip agent t a
      found active =
    elim (Bool-cases (ltb (now + ttl_hours * 60 * 60 * 1000) later)) [
      | inl late ↦
          rw (get_session_user, find_session, eq_refl (hash_token token), resolve, found, late) refl
      | inr early ↦
          rw
            (
              get_session_user,
              find_session,
              eq_refl (hash_token token),
              resolve,
              found,
              early,
              active,
            )
            refl
    ]
