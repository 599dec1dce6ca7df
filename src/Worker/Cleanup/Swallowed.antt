-- ===== src/Worker/Cleanup/Swallowed.antt =====
-- The cleanup of uploads takes the cancellation of its job for the failure of an item.
use s3gator.Base.{
  ℕ, suc, ◌+◌, String, Bool, true, false, Option, none, some, List, [], ◌∷◌, ◌≡◌, ◌≢◌, refl, ◌∙◌,
  ap, arith, length, take, keep_if,
}
use s3gator.Base.Outcome.{Outcome, ok, err}
use s3gator.Auth.Authorization.{Bucket}
use s3gator.Files.Model.{UploadSession, find_bucket_by_id}
use s3gator.Jobs.Json.{object, num}
use s3gator.Jobs.Model.{Job, State}
use s3gator.Worker.Payload.{Actor, Reason, MaintenancePayload, parse_upload_cleanup}
use s3gator.Worker.Model.{
  World, Tools, Action, Result, done, stopped, threw, unfinished, continue, cancel_seen, stop_if,
  progress, with_jobs, now, throw_if_cancel_requested,
}
use s3gator.Worker.Cleanup.{
  recover, is_expired_upload, audit_item, clean_item, clean_items, clean_expired,
  execute_upload_cleanup,
}

-- The action comes to its end, whatever that is.
abbrev IsFinished : {W A : Type 0} → W × Result A → Type 0
IsFinished r = r.1 ≢ unfinished

continue-IsFinished :
    {W A B : Type 0} (r : W × Result A) (f : A → Action W B)
    → IsFinished r
    → ((a : A) (w : W) → IsFinished (f a w))
    → IsFinished (continue r f)
continue-IsFinished (w, done a) f h k = k a w
continue-IsFinished (w, stopped) f h k = λ e. cc
continue-IsFinished (w, threw m) f h k = λ e. cc
continue-IsFinished (w, unfinished) f h k = absurd (h refl)

-- A handler that always succeeds makes any finished action succeed.
recover_done :
    {W : Type 0} (r : W × Result (Unit {0})) (handler : String → Action W (Unit {0}))
    → IsFinished r
    → ((m : String) (w : W) → (handler m w).1 ≡ done tt)
    → (recover r handler).1 ≡ done tt
recover_done (w, done a) handler h k = refl
recover_done (w, stopped) handler h k = k "Job canceled" w
recover_done (w, threw m) handler h k = k m w
recover_done (w, unfinished) handler h k = absurd (h refl)

-- After a successful action, the next one decides.
continue_done :
    {W A B : Type 0} (r : W × Result A) (f : A → Action W B) (a : A) (b : Result B)
    → r.1 ≡ done a
    → ((w : W) → (f a w).1 ≡ b)
    → (continue r f).1 ≡ b
continue_done (w, done c) f a b h k = rw (done_inj c a h) (k w)
  where
    done_inj : {A : Type 0} (c a : A) → ◌≡◌ {A = Result A} (done c) (done a) → c ≡ a
    done_inj c a e = cc
continue_done (w, stopped) f a b h k = absurd (cc h)
continue_done (w, threw m) f a b h k = absurd (cc h)
continue_done (w, unfinished) f a b h k = absurd (cc h)

module _ {L S : Type 0} (tools : Tools L S) where
  stop-IsFinished : (r : World L S × Bool) → IsFinished (stop_if tools r)
  stop-IsFinished (w, true) = λ e. cc
  stop-IsFinished (w, false) = λ e. cc

  with_jobs-IsFinished : (w : World L S) (o : Outcome (State L)) → IsFinished (with_jobs tools w o)
  with_jobs-IsFinished w (ok jobs) = λ e. cc
  with_jobs-IsFinished w (err e) = λ h. cc

  audit_item-IsFinished :
      (actor : Actor) (reason : Reason) (session : UploadSession) (bucket : Option Bucket)
      (w : World L S)
      → IsFinished (audit_item tools actor reason session bucket w)
  audit_item-IsFinished actor reason session none w = λ e. cc
  audit_item-IsFinished actor reason session (some bucket) w = λ e. cc

  clean_item-IsFinished :
      (id : String) (payload : MaintenancePayload) (total processed : ℕ) (session : UploadSession)
      (w : World L S)
      → IsFinished (clean_item tools id payload total processed session w)
  unfolding clean_item throw_if_cancel_requested
  clean_item-IsFinished id payload total processed session w =
      continue-IsFinished (throw_if_cancel_requested tools id "upload_cleanup_loop" w) _
        (stop-IsFinished (
          cancel_seen tools id "Cancel request observed at worker checkpoint." "upload_cleanup_loop"
            w))
        λ _ w'.
          continue-IsFinished (progress tools id _ _ _ w') _ (with_jobs-IsFinished w' _) λ _ w''.
            audit_item-IsFinished payload.actor payload.reason session
              (find_bucket_by_id session.bucket_id w''.buckets) _

  clean_items_done :
      (id : String) (payload : MaintenancePayload) (total : ℕ) (sessions : List UploadSession)
      (processed : ℕ) (w : World L S)
      → (clean_items tools id payload total sessions processed w).1
        ≡ done (processed + length sessions)
  unfolding clean_items
  clean_items_done id payload total [] processed w = ap done (omega arith)
  clean_items_done id payload total (session ∷ sessions) processed w =
      continue_done _ _ tt _
        (recover_done _ _ (clean_item-IsFinished id payload total processed session w)
          (λ m w'. refl))
        λ w'. clean_items_done id payload total sessions (suc processed) w' ∙ ap done (omega arith)

  clean_expired_done :
      (job : Job) (payload : MaintenancePayload) (expired : List UploadSession) (w : World L S)
      → (clean_expired tools job payload expired w).1
        ≡ done (
            object
              (("cleaned", num (length expired)) ∷ ("totalExpired", num (length expired)) ∷ []))
  unfolding clean_expired
  clean_expired_done job payload expired w =
      continue_done (clean_items tools job.id payload (length expired) expired 0 w) _
        (length expired) _
        (clean_items_done job.id payload (length expired) expired 0 w ∙ ap done (omega arith))
        (λ w'. refl)

  -- Whatever requests to cancel come, the cleanup of uploads is never canceled: it succeeds, and
  -- tells that it cleaned every expired session that it found, also those whose step was refused.
  pub execute_upload_cleanup_done :
      (job : Job) (payload : MaintenancePayload) (w : World L S)
      → parse_upload_cleanup job.payload ≡ some payload
      → (n : ℕ) × (n
          ≡ length
              (take tools.cleanup_batch_size (keep_if (is_expired_upload (now tools w)) w.uploads)))
        × ((execute_upload_cleanup tools job w).1
            ≡ done (object (("cleaned", num n) ∷ ("totalExpired", num n) ∷ [])))
  unfolding execute_upload_cleanup
  execute_upload_cleanup_done job payload w h = (
    length (take tools.cleanup_batch_size (keep_if (is_expired_upload (now tools w)) w.uploads)),
    refl,
    rw (execute_upload_cleanup, h) (clean_expired_done job payload _ _),
  )
