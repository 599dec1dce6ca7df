-- ===== src/Worker/Model.antt =====
-- apps/api/src/jobs/jobs.worker.service.ts: what a run of a job works on, and its actions, which
-- may end early: by the cancellation of the job, by an error, or not at all.
use s3gator.Base.{
  ℕ, suc, String, Bool, true, false, Option, none, some, List, [], ◌∷◌, ◌++◌, if◌then◌else◌,
}
use s3gator.Base.Outcome.{
  Outcome, ok, err, Error, not_found, forbidden, unauthorized, bad_request, too_many_requests,
  thrown, record_missing,
}
use s3gator.Base.Text.{Text}
use s3gator.Auth.Authorization.{Bucket}
use s3gator.S3.{Sent, answered, failed, S3Client}
use s3gator.Files.Model.{UploadSession}
use s3gator.Jobs.Json.{Json, object, string, bool}
use s3gator.Jobs.Model.{Level, warn, Env, State, record_event}
use s3gator.Jobs.Finish.{mark_progress, is_cancel_requested}
use s3gator.Worker.Payload.{Actor}

-- The argument of `auditService.record`.
pub record AuditInput : Type 0 where
  pub actor : Actor
  pub action : String
  pub entity_type : String
  pub entity_id : Option Text
  pub metadata : Json
  pub ip_address : Option Text

-- The calls of the metrics service, without durations.
pub data Measure : Type 0 where
  s3_duration s3_failure retention_cleanup : String → Measure

pub record World (L S : Type 0) : Type 0 where
  pub jobs : State L
  pub store : S
  pub buckets : List Bucket
  pub uploads : List UploadSession
  pub audits : List AuditInput
  pub measures : List Measure
  pub checkpoints : ℕ

pub record Connection : Type 0 where
  pub id : String
  pub admin_api_url : Option String
  pub admin_token : Option String

-- A bucket as the store's administration lists it.
pub record RemoteBucket : Type 0 where
  pub id : String
  pub global_aliases : List String

-- What a cleanup of the retention service answers, as the job writes it.
pub record RetentionSummary : Type 0 where
  pub mode : Json
  pub archived : Json
  pub deleted : Json
  pub thresholds : Json

-- What the worker is given. `others` is what the rest of the system did to the jobs before the
-- n-th checkpoint, such as a request to cancel; `clock` is the time at that checkpoint. `pages`
-- and `schedule` bound the listings and order the steps of a rename.
pub record Tools (L S : Type 0) : Type 0 where
  pub env : Env L
  pub client : Outcome (S3Client S)
  pub encode : Text → Text
  pub pages : ℕ
  pub schedule : List ℕ
  pub connection : Outcome Connection
  pub list_buckets : Connection → Outcome (List RemoteBucket)
  pub run_cleanup : World L S → World L S × Outcome RetentionSummary
  pub cleanup_batch_size : ℕ
  pub others : ℕ → State L → State L
  pub clock : ℕ → ℕ
  pub text : String → Text
  pub schema_error : String
  pub missing_record : String

-- How an action ends: `stopped` by a `JobCanceledError`, `threw` another error with its message,
-- and `unfinished` where the pages or the schedule given did not see it to its end.
pub data Result {ℓ} (A : Type ℓ) : Type ℓ where
  done : A → Result A
  stopped : Result A
  threw : String → Result A
  unfinished : Result A

abbrev pub error_message : String → Error → String
error_message missing (not_found m) = m
error_message missing (forbidden m) = m
error_message missing (unauthorized m) = m
error_message missing (bad_request m) = m
error_message missing (too_many_requests m) = m
error_message missing (thrown m) = m
error_message missing record_missing = missing

abbrev pub Action : Type 0 → Type 0 → Type 0
Action W A = W → W × Result A

-- What follows an action that is done.
abbrev pub continue : {W A B : Type 0} → W × Result A → (A → Action W B) → W × Result B
continue (w, done a) f = f a w
continue (w, stopped) f = (w, stopped)
continue (w, threw m) f = (w, threw m)
continue (w, unfinished) f = (w, unfinished)

infixl 5 ◌>>=◌ ◌>>◌
abbrev pub ◌>>=◌ : {W A B : Type 0} → Action W A → (A → Action W B) → Action W B
◌>>=◌ m f w = continue (m w) f

abbrev pub ◌>>◌ : {W A B : Type 0} → Action W A → Action W B → Action W B
m >> k = m >>= λ _. k

abbrev pub pure : {W A : Type 0} → A → Action W A
pure a w = (w, done a)

abbrev pub throw : {W A : Type 0} → String → Action W A
throw m w = (w, threw m)

abbrev pub modify : {W : Type 0} → (W → W) → Action W (Unit {0})
modify f w = (f w, done tt)

module _ {L S : Type 0} where
  abbrev pub record_audit : AuditInput → Action (World L S) (Unit {0})
  record_audit input = modify λ w. record w { audits = w.audits ++ input ∷ [] }

  abbrev pub measure : Measure → Action (World L S) (Unit {0})
  measure m = modify λ w. record w { measures = w.measures ++ m ∷ [] }

  -- A call of the object store.
  abbrev pub call_store : {A : Type 0} → (S → S × Option (Sent A)) → Action (World L S) A
  call_store call w =
      let (s, sent) = call w.store in
      elim sent [
        | none ↦ (record w { store = s }, unfinished)
        | some (answered a) ↦ (record w { store = s }, done a)
        | some (failed m) ↦ (record w { store = s }, threw m)
      ]

  module _ (tools : Tools L S) where
    abbrev pub lift : {A : Type 0} → Outcome A → Action (World L S) A
    lift (ok a) w = (w, done a)
    lift (err e) w = (w, threw (error_message tools.missing_record e))

    abbrev pub lift_parsed : {A : Type 0} → Option A → Action (World L S) A
    lift_parsed (some a) w = (w, done a)
    lift_parsed none w = (w, threw tools.schema_error)

    abbrev pub now : World L S → ℕ
    now w = tools.clock w.checkpoints

    abbrev pub event :
        String → String → Option Level → String → Json → Action (World L S) (Unit {0})
    event id type level message metadata = modify λ w. record w {
      jobs =
          record_event tools.env id
            (record {
              type = type;
              message = message;
              metadata = some metadata;
              level = level;
              correlation_id = none;
            })
            w.jobs;
    }

    -- What comes of a call that gives new jobs or throws.
    abbrev pub with_jobs : World L S → Outcome (State L) → World L S × Result (Unit {0})
    with_jobs w (ok jobs) = (record w { jobs = jobs }, done tt)
    with_jobs w (err e) = (w, threw (error_message tools.missing_record e))

    abbrev pub progress : String → Json → Bool → String → Action (World L S) (Unit {0})
    progress id value emit message w = with_jobs w (
        mark_progress tools.env id value
          (record { emit_event = emit; message = some message; level = none }) w.jobs)

    -- What the rest of the system did until now.
    abbrev pub meanwhile : World L S → World L S
    meanwhile w = record w {
      jobs = tools.others w.checkpoints w.jobs;
      checkpoints = suc w.checkpoints;
    }

    abbrev observed : String → String → String → World L S → World L S
    observed id message checkpoint w =
        (event id "cancel_observed" (some warn) message
          (object (("checkpoint", string checkpoint) ∷ ("bestEffort", bool true) ∷ [])) w).0

    -- `isCancelRequested`, and the event of a request.
    unfoldable pub cancel_seen : String → String → String → World L S → World L S × Bool
    cancel_seen id message checkpoint w =
        let w' = meanwhile w in
        if is_cancel_requested tools.env id w'.jobs
        then (observed id message checkpoint w', true)
        else (w', false)

    abbrev pub stop_if : World L S × Bool → World L S × Result (Unit {0})
    stop_if (w, true) = (w, stopped)
    stop_if (w, false) = (w, done tt)

    unfoldable pub throw_if_cancel_requested : String → String → Action (World L S) (Unit {0})
    unfolding cancel_seen
    throw_if_cancel_requested id checkpoint w =
        stop_if (cancel_seen id "Cancel request observed at worker checkpoint." checkpoint w)
