-- ===== src/Auth/Sessions/Found.antt =====
-- How a session is found and resolved.
use mathlib.Core.Option
use s3gator.Base.{
  ℕ, String, true, some, List, [], ◌∷◌, map, ◌≡◌, refl, Bool-cases, Option-cases, inl, inr, str_eq,
}
use s3gator.Auth.Sessions.{
  Session, Account, Tables, Resolved, find_session, find_account, is_live, resolve, resolved,
}

-- Rows are found as they were before a change that leaves their tokens' hashes.
pub find_session-map :
    (f : Session → Session) (hash : String) (sessions : List Session)
    → ((s : Session) → (f s).token_hash ≡ s.token_hash)
    → find_session hash (map f sessions) ≡ Option.map f (find_session hash sessions)
unfolding find_session
find_session-map f hash [] same = refl
find_session-map f hash (s ∷ sessions) same = elim (Bool-cases (str_eq s.token_hash hash)) [
  | inl e ↦ rw (e, same s, e) refl
  | inr e ↦ rw (e, same s, e) (find_session-map f hash sessions same)
]

-- A session is resolved just when it is live, and then as itself.
pub resolve-some :
    (now : ℕ) (s : Session) (t : Tables) (r : Resolved)
    → (resolve now (some s) t).1 ≡ some r
    → (a : Account) × (find_account s.user_id t.accounts ≡ some a)
      × (is_live now s a ≡ true)
      × (r ≡ resolved s a)
unfolding resolve
resolve-some now s t r h = elim (Option-cases (find_account s.user_id t.accounts)) [
  | inl e ↦ absurd (cc (rw (resolve, e) at h))
  | inr (a, e) ↦ elim (Bool-cases (is_live now s a)) [
    | inl live ↦ (a, e, live, cc (rw (resolve, e, live) at h))
    | inr dead ↦ absurd (cc (rw (resolve, e, dead) at h))
  ]
]
