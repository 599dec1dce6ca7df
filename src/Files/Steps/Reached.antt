-- ===== src/Files/Steps/Reached.antt =====
-- The table of upload sessions over a run of the service.
use mathlib.Core.List.{append_assoc, append-nil}
use s3gator.Base.{
  String, none, List, [], ◌∷◌, ◌++◌, map, ◌≡◌, ◌≢◌, sym, ◌∙◌, ap, subst, inl, inr, arith, eq_iff,
  All, All-append,
}
use s3gator.Files.Create.{init_multipart_session}
use s3gator.Files.Uploads.Unchanged.{run}
use s3gator.Files.Public.{cleanup_expired_multipart_sessions}
use s3gator.Files.Model.{UploadSession, Env, State, find_upload}
use s3gator.Files.Steps.{Identity, identity_of, Step, started, worked, cleaned, Reach, here, next}
use s3gator.Files.Steps.Kept.{IsSame, run-IsSame, cleanup-IsSame, init-IsAdded}

-- No two sessions have the same identifier.
abbrev pub IsUnique : List Identity → Type 0
IsUnique [] = Unit
IsUnique (i ∷ rows) = All (λ j. i.id ≢ j.id) rows × IsUnique rows

append-IsUnique :
    (rows : List Identity) (i : Identity)
    → All (λ j. j.id ≢ i.id) rows
    → IsUnique rows
    → IsUnique (rows ++ i ∷ [])
append-IsUnique [] i f h = (tt, tt)
append-IsUnique (j ∷ rows) i f h =
    (All-append (λ k. j.id ≢ k.id) rows (i ∷ []) h.0 (f.0, tt), append-IsUnique rows i f.1 h.1)

fresh-All :
    (id : String) (sessions : List UploadSession)
    → find_upload id sessions ≡ none
    → All (λ i. i.id ≢ id) (map identity_of sessions)
unfolding find_upload
fresh-All id [] h = tt
fresh-All id (s ∷ sessions) h =
    (ground (arith, eq_iff s.id id), fresh-All id sessions (ground (arith, eq_iff s.id id)))

module _ {S : Type 0} (env : Env S) where
  abbrev identities : State S → List Identity
  identities st = map identity_of st.sessions

  -- The table is well formed and holds all that the other one did.
  abbrev IsLater : State S → State S → Type 0
  IsLater st st' =
      IsUnique (identities st')
      × ((added : List Identity) × (identities st' ≡ identities st ++ added))

  same-IsLater : (st st' st'' : State S) → IsSame st' st'' → IsLater st st' → IsLater st st''
  same-IsLater st st' st'' e (unique, (added, h)) = (subst IsUnique (sym e) unique, (added, e ∙ h))

  added-IsLater :
      (st st' st'' : State S) (i : Identity)
      → find_upload i.id st'.sessions ≡ none
      → identities st'' ≡ identities st' ++ i ∷ []
      → IsLater st st'
      → IsLater st st''
  added-IsLater st st' st'' i free e (unique, (added, h)) = (
    subst IsUnique (sym e)
        (append-IsUnique (identities st') i (fresh-All i.id st'.sessions free) unique),
    (added ++ i ∷ [], e ∙ ap (λ l. l ++ i ∷ []) h ∙ append_assoc (identities st) added (i ∷ [])),
  )

  Step-IsLater : (st st' st'' : State S) → Step env st' st'' → IsLater st st' → IsLater st st''
  Step-IsLater st st' _ (started actor input id now free) h =
      elim (init-IsAdded env actor input id now st') [
        | inl e ↦ same-IsLater st st' (init_multipart_session env actor input id now st').0 e h
        | inr (i, same, e) ↦
            added-IsLater st st' (init_multipart_session env actor input id now st').0 i
              (ap (λ x. find_upload x st'.sessions) same ∙ free) e h
      ]
  Step-IsLater st st' _ (worked op actor id now) h =
      same-IsLater st st' (run env op actor id now st') (run-IsSame env op actor id now st') h
  Step-IsLater st st' _ (cleaned actor limit now) h =
      same-IsLater st st' (cleanup_expired_multipart_sessions env actor limit now st').0
        (cleanup-IsSame env actor limit now st') h

  -- Over any run of the service whose new rows have fresh identifiers, the identifiers of upload
  -- sessions stay distinct, and every session stays in its place with its owner, bucket, key,
  -- upload, sizes and times of creation and expiry; new ones come after them.
  pub Reach-IsUnique :
      {st st' : State S}
      → Reach env st st'
      → IsUnique (map identity_of st.sessions)
      → IsUnique (map identity_of st'.sessions)
        × ((added : List Identity) × (map identity_of st'.sessions
              ≡ map identity_of st.sessions ++ added))
  Reach-IsUnique {st} here h = (h, ([], sym (append-nil (map identity_of st.sessions))))
  Reach-IsUnique {st} (next {st' = middle} {st''} reach step) h =
      Step-IsLater st middle st'' step (Reach-IsUnique reach h)
