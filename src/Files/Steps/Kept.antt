-- ===== src/Files/Steps/Kept.antt =====
-- What no step changes of the upload sessions.
use s3gator.Base.{
  ℕ, suc, String, Option, List, [], ◌∷◌, ◌++◌, map, ◌≡◌, refl, ◌∙◌, ap, Bool-cases, inl, inr, ◌⊎◌,
  str_eq, ◌||◌,
}
use mathlib.Core.List.{map-append}
use s3gator.Base.Outcome.{Outcome, Outcome-cases, ok, err}
use s3gator.Auth.{SessionUser, super_admin, admin, role_eq}
use s3gator.Auth.Authorization.{Bucket}
use s3gator.S3.{Sent, answered, failed}
use s3gator.S3.Multipart.{
  MultipartCompletePart, MultipartClient, MultipartInitResult, MultipartCompleteResult,
}
use s3gator.Files.Model.{UploadSession, Env, State, update_upload, write_session}
use s3gator.Files.Rows.{
  signed_row, recorded_row, completed_row, aborted_row, failed_row, expired_row,
}
use s3gator.Files.Entered.{Entry, enter}
use s3gator.Files.Create.{InitInput, init_sent, init_entry, init_multipart_session}
use s3gator.Files.Uploads.{
  presign_all, sign_entered, record_entered, complete_sent, complete_entered, abort_in_store,
  abort_entered, fail_entered, with_client, with_entry, sign_multipart_parts, record_multipart_part,
  complete_multipart, abort_multipart, fail_multipart,
}
use s3gator.Files.Uploads.Unchanged.{Operation, sign, keep, complete, abort, fail, run}
use s3gator.Files.Public.{clean_all, find_expired, cleanup_expired_multipart_sessions}
use s3gator.Files.Steps.{Identity, identity_of}

abbrev KeepsIdentity : (UploadSession → UploadSession) → Type 0
KeepsIdentity f = (s : UploadSession) → identity_of (f s) ≡ identity_of s

map-update_upload :
    (id : String) (f : UploadSession → UploadSession) (sessions : List UploadSession)
    → KeepsIdentity f
    → map identity_of (update_upload id f sessions) ≡ map identity_of sessions
unfolding update_upload
map-update_upload id f [] k = refl
map-update_upload id f (s ∷ sessions) k = elim (Bool-cases (str_eq s.id id)) [
  | inl e ↦ rw e (ap (λ i. i ∷ map identity_of sessions) (k s))
  | inr e ↦ rw e (ap (λ l. identity_of s ∷ l) (map-update_upload id f sessions k))
]

module _ {S : Type 0} where
  abbrev pub IsSame : State S → State S → Type 0
  IsSame st st' = map identity_of st'.sessions ≡ map identity_of st.sessions

  with_client-IsSame :
      {A : Type 0} (o : Outcome (MultipartClient S))
      (act : MultipartClient S → State S → State S × Outcome A) (st : State S)
      → ((client : MultipartClient S) → IsSame st (act client st).0)
      → IsSame st (with_client o act st).0
  with_client-IsSame (err e) act st h = refl
  with_client-IsSame (ok client) act st h = h client

  with_entry-IsSame :
      {A : Type 0} (o : Outcome Entry) (act : Entry → State S → State S × Outcome A) (st : State S)
      → ((entry : Entry) → IsSame st (act entry st).0)
      → IsSame st (with_entry o act st).0
  with_entry-IsSame (err e) act st h = refl
  with_entry-IsSame (ok entry) act st h = h entry

  sign_entered-IsSame :
      (actor : SessionUser) (part_numbers : List ℕ) (now : ℕ) (entry : Entry)
      (client : MultipartClient S) (st : State S)
      → IsSame st (sign_entered actor part_numbers now entry client st).0
  unfolding sign_entered signed_row
  sign_entered-IsSame actor part_numbers now entry client st =
      elim (Outcome-cases (presign_all client entry part_numbers st.store)) [
        | inl (e, h) ↦ rw (sign_entered, h) refl
        | inr (specs, h) ↦
            rw (sign_entered, h)
              (map-update_upload entry.session.id (signed_row part_numbers now) st.sessions
                (λ s. refl))
      ]

  record_entered-IsSame :
      (part : MultipartCompletePart) (now : ℕ) (entry : Entry) (st : State S)
      → IsSame st (record_entered part now entry st).0
  unfolding record_entered recorded_row
  record_entered-IsSame part now entry st =
      map-update_upload entry.session.id (recorded_row _ now) st.sessions (λ s. refl)

  complete_sent-IsSame :
      (actor : SessionUser) (given : List MultipartCompletePart) (ip : Option String) (now : ℕ)
      (entry : Entry) (st : State S) (sent : Sent MultipartCompleteResult)
      → IsSame st (complete_sent actor given ip now entry st sent).0
  unfolding complete_sent completed_row
  complete_sent-IsSame actor given ip now entry st (failed m) = refl
  complete_sent-IsSame actor given ip now entry st (answered result) =
      map-update_upload entry.session.id (completed_row given now) st.sessions (λ s. refl)

  complete_entered-IsSame :
      (actor : SessionUser) (given : List MultipartCompletePart) (ip : Option String) (now : ℕ)
      (entry : Entry) (client : MultipartClient S) (st : State S)
      → IsSame st (complete_entered actor given ip now entry client st).0
  unfolding complete_entered
  complete_entered-IsSame actor given ip now entry client st =
      complete_sent-IsSame actor given ip now entry (record st { store = _ }) _

  abort_entered-IsSame :
      (actor : SessionUser) (ip : Option String) (now : ℕ) (entry : Entry)
      (client : MultipartClient S) (st : State S)
      → IsSame st (abort_entered actor ip now entry client st).0
  unfolding abort_entered abort_in_store aborted_row
  abort_entered-IsSame actor ip now entry client st =
      map-update_upload entry.session.id (aborted_row _ now) st.sessions (λ s. refl)

  fail_entered-IsSame :
      (actor : SessionUser) (message ip : Option String) (now : ℕ) (entry : Entry)
      (client : MultipartClient S) (st : State S)
      → IsSame st (fail_entered actor message ip now entry client st).0
  unfolding fail_entered abort_in_store failed_row
  fail_entered-IsSame actor message ip now entry client st =
      map-update_upload entry.session.id (failed_row _ now) st.sessions (λ s. refl)

  clean_all-IsSame :
      (expired : List UploadSession) (now count : ℕ) (st : State S)
      → IsSame st (clean_all expired now count st).0
  unfolding clean_all expired_row
  clean_all-IsSame [] now count st = refl
  clean_all-IsSame (s ∷ expired) now count st =
      clean_all-IsSame expired now (suc count) (write_session s.id (expired_row now) st)
      ∙ map-update_upload s.id (expired_row now) st.sessions (λ t. refl)

  -- A session with the identifier is added, or none.
  abbrev pub IsAdded : String → State S → State S → Type 0
  IsAdded id st st' =
      IsSame st st'
      ⊎ ((i : Identity) × (i.id ≡ id)
          × (map identity_of st'.sessions ≡ map identity_of st.sessions ++ i ∷ []))

  module _ (env : Env S) where
    pub run-IsSame :
        (op : Operation) (actor : SessionUser) (id : String) (now : ℕ) (st : State S)
        → IsSame st (run env op actor id now st)
    unfolding run sign_multipart_parts record_multipart_part complete_multipart abort_multipart
        fail_multipart
    run-IsSame (sign part_numbers) actor id now st =
        with_entry-IsSame (enter env actor id now st) _ st λ entry.
          with_client-IsSame env.client _ st
            λ client. sign_entered-IsSame actor part_numbers now entry client st
    run-IsSame (keep part) actor id now st =
        with_entry-IsSame (enter env actor id now st) _ st
          λ entry. record_entered-IsSame part now entry st
    run-IsSame (complete given ip) actor id now st =
        with_entry-IsSame (enter env actor id now st) _ st λ entry.
          with_client-IsSame env.client _ st
            λ client. complete_entered-IsSame actor given ip now entry client st
    run-IsSame (abort ip) actor id now st =
        with_entry-IsSame (enter env actor id now st) _ st λ entry.
          with_client-IsSame env.client _ st
            λ client. abort_entered-IsSame actor ip now entry client st
    run-IsSame (fail message ip) actor id now st =
        with_entry-IsSame (enter env actor id now st) _ st λ entry.
          with_client-IsSame env.client _ st
            λ client. fail_entered-IsSame actor message ip now entry client st

    pub cleanup-IsSame :
        (actor : SessionUser) (limit : Option ℕ) (now : ℕ) (st : State S)
        → IsSame st (cleanup_expired_multipart_sessions env actor limit now st).0
    unfolding cleanup_expired_multipart_sessions
    cleanup-IsSame actor limit now st =
        elim (Bool-cases (role_eq actor.role super_admin || role_eq actor.role admin)) [
          | inl h ↦
              rw (cleanup_expired_multipart_sessions, h)
                (clean_all-IsSame (find_expired env actor limit now st) now 0 st)
          | inr h ↦ rw (cleanup_expired_multipart_sessions, h) refl
        ]

    init_sent-IsAdded :
        (actor : SessionUser) (input : InitInput) (id : String) (now : ℕ) (bucket : Bucket)
        (st : State S) (sent : Sent MultipartInitResult)
        → IsAdded id st (init_sent env actor input id now bucket st sent).0
    unfolding init_sent
    init_sent-IsAdded actor input id now bucket st (failed m) = inl refl
    init_sent-IsAdded actor input id now bucket st (answered result) =
        inr (_, refl, map-append identity_of st.sessions (_ ∷ []))

    pub init-IsAdded :
        (actor : SessionUser) (input : InitInput) (id : String) (now : ℕ) (st : State S)
        → IsAdded id st (init_multipart_session env actor input id now st).0
    unfolding init_multipart_session
    init-IsAdded actor input id now st = elim (Outcome-cases (init_entry env actor input)) [
      | inl (e, h) ↦ inl (rw (init_multipart_session, h) refl)
      | inr (entry, h) ↦
          rw (init_multipart_session, h)
            (init_sent-IsAdded actor input id now entry.0 (record st { store = _ }) _)
    ]
