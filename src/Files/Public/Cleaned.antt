-- ===== src/Files/Public/Cleaned.antt =====
-- What the cleanup of expired upload sessions does to the table.
use s3gator.Base.{
  sym, some, ℕ, zero, suc, ◌+◌, String, Bool, true, Option, List, [], ◌∷◌, map, ◌≡◌, ◌≢◌, refl, ◌∙◌,
  ap, inl, inr, arith, eq_iff, All, keep_if, take, length, if◌then◌else◌, Bool-cases, ◌≤◌, min, max,
  or_default, ◌⊎◌, ◌||◌,
}
use s3gator.Base.Outcome.{ok}
use s3gator.Auth.{SessionUser, super_admin, admin, role_eq}
use s3gator.Files.Model.{
  UploadSessionStatus, BucketScope, UploadSession, Env, State, update_upload, write_session,
}
use s3gator.Files.Rows.{expired_row}
use s3gator.Files.Public.{is_expired, clean_all, find_expired, cleanup_expired_multipart_sessions}
use s3gator.Files.Public.Over.{IsOver, is_expired-IsOver, IsOver-is_expired}

-- No two sessions have the same identifier.
abbrev pub IsUnique : List UploadSession → Type 0
IsUnique [] = Unit
IsUnique (s ∷ sessions) = All (λ t. s.id ≢ t.id) sessions × IsUnique sessions

abbrev expire_if : (UploadSession → Bool) → ℕ → UploadSession → UploadSession
expire_if p now s = if p s then expired_row now s else s

-- The updates of the loop, on the rows.
expire_all : List UploadSession → ℕ → List UploadSession → List UploadSession
expire_all [] now rows = rows
expire_all (s ∷ expired) now rows =
    expire_all expired now (update_upload s.id (expired_row now) rows)

sessions-clean_all :
    {S : Type 0} (expired : List UploadSession) (now count : ℕ) (st : State S)
    → (clean_all expired now count st).0.sessions ≡ expire_all expired now st.sessions
unfolding clean_all expire_all
sessions-clean_all [] now count st = refl
sessions-clean_all (s ∷ expired) now count st =
    sessions-clean_all expired now (suc count) (write_session s.id (expired_row now) st)

count-clean_all :
    {S : Type 0} (expired : List UploadSession) (now count : ℕ) (st : State S)
    → (clean_all expired now count st).1 ≡ count + length expired
unfolding clean_all
count-clean_all [] now count st = omega arith
count-clean_all (s ∷ expired) now count st =
    omega (arith, count-clean_all expired now (suc count) (write_session s.id (expired_row now) st))

update-skip :
    (id : String) (f : UploadSession → UploadSession) (s : UploadSession)
    (sessions : List UploadSession)
    → s.id ≢ id
    → update_upload id f (s ∷ sessions) ≡ s ∷ update_upload id f sessions
unfolding update_upload
update-skip id f s sessions h = ground (arith, eq_iff s.id id)

update-hit :
    (f : UploadSession → UploadSession) (s : UploadSession) (sessions : List UploadSession)
    → update_upload s.id f (s ∷ sessions) ≡ f s ∷ sessions
unfolding update_upload
update-hit f s sessions = ground (arith, eq_iff s.id s.id)

-- A row with another identifier than all that expire stays.
expire_all-skip :
    (expired : List UploadSession) (now : ℕ) (s : UploadSession) (sessions : List UploadSession)
    → All (λ t. s.id ≢ t.id) expired
    → expire_all expired now (s ∷ sessions) ≡ s ∷ expire_all expired now sessions
unfolding expire_all
expire_all-skip [] now s sessions h = refl
expire_all-skip (t ∷ expired) now s sessions h =
    ap (expire_all expired now) (update-skip t.id (expired_row now) s sessions h.0)
    ∙ expire_all-skip expired now s (update_upload t.id (expired_row now) sessions) h.1

kept-All :
    (P : UploadSession → Type 0) (p : UploadSession → Bool) (sessions : List UploadSession)
    → All P sessions
    → All P (keep_if p sessions)
kept-All P p [] h = tt
kept-All P p (s ∷ sessions) h = elim (Bool-cases (p s)) [
  | inl e ↦ rw e (h.0, kept-All P p sessions h.1)
  | inr e ↦ rw e (kept-All P p sessions h.1)
]

expire_all-keep_if :
    (p : UploadSession → Bool) (now : ℕ) (sessions : List UploadSession)
    → IsUnique sessions
    → expire_all (keep_if p sessions) now sessions ≡ map (expire_if p now) sessions
unfolding expire_all expired_row
expire_all-keep_if p now [] h = refl
expire_all-keep_if p now (s ∷ sessions) h = elim (Bool-cases (p s)) [
  | inl e ↦ rw e (
      ap (expire_all (keep_if p sessions) now) (update-hit (expired_row now) s sessions)
      ∙ expire_all-skip (keep_if p sessions) now (expired_row now s) sessions
          (kept-All (λ t. s.id ≢ t.id) p sessions h.0)
      ∙ ap (λ l. expired_row now s ∷ l) (expire_all-keep_if p now sessions h.1))
  | inr e ↦ rw e (
      expire_all-skip (keep_if p sessions) now s sessions
        (kept-All (λ t. s.id ≢ t.id) p sessions h.0)
      ∙ ap (λ l. s ∷ l) (expire_all-keep_if p now sessions h.1))
]

take_all :
    (n : ℕ) (sessions : List UploadSession) → length sessions ≤ n → take n sessions ≡ sessions
take_all zero [] h = refl
take_all zero (s ∷ sessions) h = absurd (omega arith)
take_all (suc n) [] h = refl
take_all (suc n) (s ∷ sessions) h = ap (λ l. s ∷ l) (take_all n sessions (omega arith))

-- The session, failed at a time.
abbrev pub failed_at : ℕ → UploadSession → UploadSession
failed_at now s = record s {
  status = UploadSessionStatus.failed;
  error = some "Upload session expired";
  last_activity_at = now;
  updated_at = now;
}

-- Two tables, of which the second has the sessions of the first that fit a description failed, a
-- number of them, and the others as they were.
pub data Cleans (P : UploadSession → Type 0) (now : ℕ)
    : List UploadSession → List UploadSession → ℕ → Type 0 where
  no_rows : Cleans P now [] [] 0
  fails :
      {s : UploadSession} {rows rows' : List UploadSession} {n : ℕ}
      → P s
      → Cleans P now rows rows' n
      → Cleans P now (s ∷ rows) (failed_at now s ∷ rows') (suc n)
  keeps :
      {s : UploadSession} {rows rows' : List UploadSession} {n : ℕ}
      → ¬ P s
      → Cleans P now rows rows' n
      → Cleans P now (s ∷ rows) (s ∷ rows') n

map-Cleans :
    (scopes : List BucketScope) (actor : SessionUser) (now : ℕ) (sessions : List UploadSession)
    → (actor.role ≡ super_admin) ⊎ (actor.role ≡ admin)
    → Cleans
        (IsOver scopes actor now)
        now
        sessions
        (map (expire_if (is_expired scopes actor now) now) sessions)
        (length (keep_if (is_expired scopes actor now) sessions))
unfolding expired_row
map-Cleans scopes actor now [] may = no_rows
map-Cleans scopes actor now (s ∷ sessions) may =
    let rest = map-Cleans scopes actor now sessions may in
    elim (Bool-cases (is_expired scopes actor now s)) [
      | inl e ↦ rw e (fails (is_expired-IsOver scopes actor now s may e) rest)
      | inr e ↦
          rw e
            (keeps (λ over. absurd (cc (sym e ∙ IsOver-is_expired scopes actor now s over))) rest)
    ]

module _ {S : Type 0} (env : Env S) where
  cleanup-expire_if :
      (actor : SessionUser) (limit : Option ℕ) (now : ℕ) (st : State S)
      → (actor.role ≡ super_admin) ⊎ (actor.role ≡ admin)
      → IsUnique st.sessions
      → length (keep_if (is_expired env.scopes actor now) st.sessions)
        ≤ min (max (or_default limit 100) 1) 500
      → ((cleanup_expired_multipart_sessions env actor limit now st).0.sessions
          ≡ map (expire_if (is_expired env.scopes actor now) now) st.sessions)
        × ((cleanup_expired_multipart_sessions env actor limit now st).1
            ≡ ok (
              length (keep_if (is_expired env.scopes actor now) st.sessions),
              length (keep_if (is_expired env.scopes actor now) st.sessions),
            ))
  unfolding cleanup_expired_multipart_sessions find_expired
  cleanup-expire_if actor limit now st may unique few =
      rw (cleanup_expired_multipart_sessions, allowed)
        (
          sessions-clean_all (find_expired env actor limit now st) now 0 st
              ∙ ap (λ l. expire_all l now st.sessions) all_found
              ∙ expire_all-keep_if (is_expired env.scopes actor now) now st.sessions unique,
          ap (λ k. ok (k, length (find_expired env actor limit now st))) counted
              ∙ ap (λ l. ok (length l, length l)) all_found,
        )
    where
      allowed : (role_eq actor.role super_admin || role_eq actor.role admin) ≡ true
      allowed = ground (arith, may)

      counted :
          (clean_all (find_expired env actor limit now st) now 0 st).1
          ≡ length (find_expired env actor limit now st)
      counted = omega (arith, count-clean_all (find_expired env actor limit now st) now 0 st)

      all_found :
          find_expired env actor limit now st
          ≡ keep_if (is_expired env.scopes actor now) st.sessions
      all_found =
          take_all (min (max (or_default limit 100) 1) 500)
            (keep_if (is_expired env.scopes actor now) st.sessions) few

  -- A cleanup by an administrator or a super administrator, whose limit the sessions to fail do
  -- not exceed, fails exactly the sessions that are begun and unfinished, whose time is over, and
  -- that are in the scope of the actor. The rows of these say that the session expired, at the
  -- time of the cleanup, and have nothing else changed; the others stay as they are. Both counts
  -- of the answer are the number of the failed.
  pub cleanup-IsExpired :
      (actor : SessionUser) (limit : Option ℕ) (now : ℕ) (st : State S)
      → (actor.role ≡ super_admin) ⊎ (actor.role ≡ admin)
      → IsUnique st.sessions
      → length (keep_if (is_expired env.scopes actor now) st.sessions)
        ≤ min (max (or_default limit 100) 1) 500
      → (n : ℕ) × Cleans
          (IsOver env.scopes actor now)
          now
          st.sessions
          (cleanup_expired_multipart_sessions env actor limit now st).0.sessions
          n
        × ((cleanup_expired_multipart_sessions env actor limit now st).1 ≡ ok (n, n))
  cleanup-IsExpired actor limit now st may unique few =
      let (rows, answer) = cleanup-expire_if actor limit now st may unique few in
      (
        length (keep_if (is_expired env.scopes actor now) st.sessions),
        rw rows (map-Cleans env.scopes actor now st.sessions may),
        answer,
      )
