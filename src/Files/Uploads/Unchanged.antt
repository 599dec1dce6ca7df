-- ===== src/Files/Uploads/Unchanged.antt =====
-- What the operations on a session may change, by the operation.
use s3gator.Base.{ℕ, String, Option, List, ◌≡◌, ◌≢◌, refl, inl, inr}
use s3gator.Base.Outcome.{Outcome-cases, err, Error}
use s3gator.Auth.{SessionUser}
use s3gator.S3.Multipart.{MultipartCompletePart}
use s3gator.Files.Model.{Env, State}
use s3gator.Files.Entered.{Entry, enter}
use s3gator.Files.Entered.Admitted.{IsAdmitted, enter-IsAdmitted}
use s3gator.Files.Uploads.{
  sign_multipart_parts, record_multipart_part, complete_multipart, abort_multipart, fail_multipart,
}

-- The operations on the parts of a session, with their arguments.
pub data Operation : Type 0 where
  sign : List ℕ → Operation
  keep : MultipartCompletePart → Operation
  complete : List MultipartCompletePart → Option String → Operation
  abort : Option String → Operation
  fail : Option String → Option String → Operation

module _ {S : Type 0} (env : Env S) where
  -- The state that an operation leaves.
  unfoldable pub run : Operation → SessionUser → String → ℕ → State S → State S
  unfolding sign_multipart_parts record_multipart_part complete_multipart abort_multipart
      fail_multipart
  run (sign part_numbers) actor id now st =
      (sign_multipart_parts env actor id part_numbers now st).0
  run (keep part) actor id now st = (record_multipart_part env actor id part now st).0
  run (complete given ip) actor id now st = (complete_multipart env actor id given ip now st).0
  run (abort ip) actor id now st = (abort_multipart env actor id ip now st).0
  run (fail message ip) actor id now st = (fail_multipart env actor id message ip now st).0

  run_refused :
      (op : Operation) (actor : SessionUser) (id : String) (now : ℕ) (st : State S) (e : Error)
      → enter env actor id now st ≡ err e
      → run op actor id now st ≡ st
  unfolding run sign_multipart_parts record_multipart_part complete_multipart abort_multipart
      fail_multipart
  run_refused (sign part_numbers) actor id now st e h = rw (run, h) refl
  run_refused (keep part) actor id now st e h = rw (run, h) refl
  run_refused (complete given ip) actor id now st e h = rw (run, h) refl
  run_refused (abort ip) actor id now st e h = rw (run, h) refl
  run_refused (fail message ip) actor id now st e h = rw (run, h) refl

  -- An operation on the parts of a session that changes anything, in the database, the audit log,
  -- the metrics or the object store, is by the session's owner or a super administrator, on a
  -- session that is there and has not expired unless it is over, and with the permission to upload
  -- to its bucket.
  pub run-IsAdmitted :
      (op : Operation) (actor : SessionUser) (id : String) (now : ℕ) (st : State S)
      → run op actor id now st ≢ st
      → (entry : Entry) × IsAdmitted env actor id now st entry
  run-IsAdmitted op actor id now st changed = elim (Outcome-cases (enter env actor id now st)) [
    | inl (e, h) ↦ absurd (changed (run_refused op actor id now st e h))
    | inr (entry, h) ↦ (entry, enter-IsAdmitted env actor id now st entry h)
  ]
