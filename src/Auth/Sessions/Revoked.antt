-- ===== src/Auth/Sessions/Revoked.antt =====
-- A session that was revoked is never used again.
use mathlib.Core.Option
use s3gator.Base.{
  ℕ, String, true, false, Option, none, some, ◌≡◌, ◌≢◌, refl, sym, ap, ◌∙◌, Bool-cases, inl, inr,
  str_eq, eq_iff, is_some, arith,
}
use s3gator.Auth.Sessions.{
  Session, Account, Tables, Resolved, find_session, revoked, is_live, resolve, get_session_user,
  revoke_session,
}
use s3gator.Auth.Sessions.Found.{find_session-map, resolve-some}

revoked-token_hash :
    (now : ℕ) (id : String) (s : Session) → (revoked now id s).token_hash ≡ s.token_hash
revoked-token_hash now id s = ground arith

revoked-id : (now : ℕ) (id : String) (s : Session) → (revoked now id s).id ≡ s.id
revoked-id now id s = ground arith

revoked-is_some :
    (now : ℕ) (id : String) (s : Session)
    → str_eq s.id id ≡ true
    → is_some (revoked now id s).revoked_at ≡ true
revoked-is_some now id s e = elim (Bool-cases (is_some s.revoked_at)) [
  | inl was ↦ rw (e, was) was
  | inr not_yet ↦ rw (e, not_yet) refl
]

live-revoked :
    (now : ℕ) (s : Session) (a : Account) → is_live now s a ≡ true → is_some s.revoked_at ≡ false
live-revoked now s a h = ground arith

revoked_refused :
    (then now : ℕ) (id : String) (o : Option Session) (t : Tables) (r : Resolved)
    → (resolve now (Option.map (revoked then id) o) t).1 ≡ some r
    → r.session_id ≢ id
unfolding resolve
revoked_refused then now id none t r h same = cc h
revoked_refused then now id (some s) t r h same =
    let (a, found, live, e) = resolve-some now (revoked then id s) t r h in
    let mine : str_eq s.id id ≡ true =
      (eq_iff s.id id).1
        (sym (revoked-id then id s) ∙ (sym (ap (λ (x : Resolved). x.session_id) e) ∙ same)) in
    cc (live-revoked now (revoked then id s) a live, revoked-is_some then id s mine)

-- A session whose identifier was revoked, at any time, is not resolved by any token at any later
-- or earlier time, whatever the tables hold.
pub revoke_session-get_session_user :
    (hash_token : String → String) (then now : ℕ) (id token : String) (t : Tables) (r : Resolved)
    → (get_session_user hash_token now token (revoke_session then id t)).1 ≡ some r
    → r.session_id ≢ id
unfolding get_session_user revoke_session
revoke_session-get_session_user hash_token then now id token t r h =
    revoked_refused then now id (find_session (hash_token token) t.sessions)
      (revoke_session then id t) r
      (rw
        (
          get_session_user,
          find_session-map (revoked then id) (hash_token token) t.sessions
              (revoked-token_hash then id),
        )
        at h)
