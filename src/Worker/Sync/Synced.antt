-- ===== src/Worker/Sync/Synced.antt =====
-- What a synchronisation leaves in the table of buckets.
use s3gator.Base.{
  ℕ, suc, String, Bool, true, false, Option, none, some, List, [], ◌∷◌, ◌≡◌, refl, ◌∙◌, ap, arith,
  str_eq, eq_iff, if◌then◌else◌, or_else, Bool-cases, inl, inr,
}
use s3gator.Base.Outcome.{Outcome, ok, err}
use s3gator.Auth.Authorization.{Bucket}
use s3gator.Jobs.Model.{State}
use s3gator.Jobs.Finish.{is_cancel_requested}
use s3gator.Worker.Model.{
  RemoteBucket, World, Tools, Action, Result, done, stopped, threw, unfinished, continue, stop_if,
  with_jobs, meanwhile, now, cancel_seen, throw_if_cancel_requested, progress,
}
use s3gator.Worker.Sync.{preferred_name, upsert_bucket, sync_loop}

-- The identifier in the store of the first bucket with a name, if there is one and it has it.
abbrev pub garage_id : String → List Bucket → Option String
garage_id name [] = none
garage_id name (b ∷ buckets) =
    if str_eq b.name name then b.garage_bucket_id else garage_id name buckets

-- The identifier that is listed last for a name.
abbrev pub last_id : String → List RemoteBucket → Option String
last_id name [] = none
last_id name (r ∷ remotes) =
    or_else (last_id name remotes) (if str_eq (preferred_name r) name then some r.id else none)

garage_id-upsert_bucket :
    (fresh : String → String) (at : ℕ) (connection_id name : String) (r : RemoteBucket)
    (buckets : List Bucket)
    → garage_id name (upsert_bucket fresh at connection_id r buckets)
      ≡ (if str_eq (preferred_name r) name then some r.id else garage_id name buckets)
unfolding upsert_bucket
garage_id-upsert_bucket fresh at connection_id name r [] = refl
garage_id-upsert_bucket fresh at connection_id name r (b ∷ buckets) = ground (
  arith,
  eq_iff b.name (preferred_name r),
  eq_iff (preferred_name r) name,
  eq_iff b.name name,
  garage_id-upsert_bucket fresh at connection_id name r buckets,
)

or_else_assoc : (a b c : Option String) → or_else a (or_else b c) ≡ or_else (or_else a b) c
or_else_assoc none b c = refl
or_else_assoc (some t) b c = refl

-- The buckets are those of before and the ones synchronised, if the action is done.
module _ {L S : Type 0} (tools : Tools L S) (fresh : String → String) where
  -- What the action leaves if it is done.
  abbrev Leaves : (World L S → Type 0) → World L S × Result (Unit {0}) → Type 0
  Leaves P r = r.1 ≡ done tt → P r.0

  continue-Leaves :
      (P Q : World L S → Type 0) (r : World L S × Result (Unit {0}))
      (f : Unit {0} → Action (World L S) (Unit {0}))
      → Leaves Q r
      → ((w : World L S) → Q w → Leaves P (f tt w))
      → Leaves P (continue r f)
  continue-Leaves P Q (w, done tt) f h k = k w (h refl)
  continue-Leaves P Q (w, stopped) f h k = λ e. absurd (cc e)
  continue-Leaves P Q (w, threw m) f h k = λ e. absurd (cc e)
  continue-Leaves P Q (w, unfinished) f h k = λ e. absurd (cc e)

  stop-Leaves : (P : World L S → Type 0) (r : World L S × Bool) → P r.0 → Leaves P (stop_if tools r)
  stop-Leaves P (w, true) h = λ e. h
  stop-Leaves P (w, false) h = λ e. h

  with_jobs-Leaves :
      (bs : List Bucket) (w : World L S) (o : Outcome (State L))
      → w.buckets ≡ bs
      → Leaves (λ w'. w'.buckets ≡ bs) (with_jobs tools w o)
  with_jobs-Leaves bs w (ok jobs) h = λ e. h
  with_jobs-Leaves bs w (err m) h = λ e. h

  buckets-cancel_seen :
      (id message checkpoint : String) (w : World L S)
      → (cancel_seen tools id message checkpoint w).0.buckets ≡ w.buckets
  unfolding cancel_seen
  buckets-cancel_seen id message checkpoint w =
      elim (Bool-cases (is_cancel_requested tools.env id (meanwhile tools w).jobs)) [
        | inl h ↦ rw (cancel_seen, h) refl
        | inr h ↦ rw (cancel_seen, h) refl
      ]

  checkpoint-Leaves :
      (id checkpoint : String) (w : World L S)
      → Leaves (λ w'. w'.buckets ≡ w.buckets) (throw_if_cancel_requested tools id checkpoint w)
  unfolding throw_if_cancel_requested
  checkpoint-Leaves id checkpoint w =
      stop-Leaves (λ w'. w'.buckets ≡ w.buckets)
        (cancel_seen tools id "Cancel request observed at worker checkpoint." checkpoint w)
        (buckets-cancel_seen id "Cancel request observed at worker checkpoint." checkpoint w)

  IsSynced : String → List RemoteBucket → List Bucket → List Bucket → Type 0
  IsSynced name remotes before after =
      garage_id name after ≡ or_else (last_id name remotes) (garage_id name before)

  upserted-IsSynced :
      (connection_id name : String) (r : RemoteBucket) (remotes : List RemoteBucket)
      (w w' w'' : World L S) (after : List Bucket)
      → w'.buckets ≡ w.buckets
      → w''.buckets ≡ upsert_bucket fresh (now tools w') connection_id r w'.buckets
      → IsSynced name remotes w''.buckets after
      → IsSynced name (r ∷ remotes) w.buckets after
  unfolding IsSynced
  upserted-IsSynced connection_id name r remotes w w' w'' after same added rest =
      rest
      ∙ ap (or_else (last_id name remotes)) (
          ap (garage_id name) added
          ∙ garage_id-upsert_bucket fresh (now tools w') connection_id name r w'.buckets
          ∙ ap (λ b. if str_eq (preferred_name r) name then some r.id else garage_id name b) same
          ∙ choose (str_eq (preferred_name r) name) (garage_id name w.buckets))
      ∙ or_else_assoc (last_id name remotes)
          (if str_eq (preferred_name r) name then some r.id else none) (garage_id name w.buckets)
    where
      choose :
          (b : Bool) (o : Option String)
          → (if b then some r.id else o) ≡ or_else (if b then some r.id else none) o
      choose true o = refl
      choose false o = refl

  -- A synchronisation that comes to its end has, for each name, the identifier that the store lists
  -- last for it, and where it lists none, what the table had before.
  pub sync_loop_lem :
      (id connection_id : String) (total : ℕ) (remotes : List RemoteBucket) (processed last : ℕ)
      (w : World L S) (name : String)
      → (sync_loop tools fresh id connection_id total remotes processed last w).1 ≡ done tt
      → garage_id name
          (sync_loop tools fresh id connection_id total remotes processed last w).0.buckets
        ≡ or_else (last_id name remotes) (garage_id name w.buckets)
  unfolding sync_loop IsSynced
  sync_loop_lem id connection_id total [] processed last w name = λ h. refl
  sync_loop_lem id connection_id total (r ∷ remotes) processed last w name =
      continue-Leaves (λ v. IsSynced name (r ∷ remotes) w.buckets v.buckets)
        (λ w'. w'.buckets ≡ w.buckets) (throw_if_cancel_requested tools id "bucket_sync_loop" w) _
        (checkpoint-Leaves id "bucket_sync_loop" w)
        λ w' same.
          continue-Leaves (λ v. IsSynced name (r ∷ remotes) w.buckets v.buckets)
            (λ w''. w''.buckets ≡ upsert_bucket fresh (now tools w') connection_id r w'.buckets)
            (progress tools id _ _ _ _) _ (with_jobs-Leaves _ _ _ refl)
            λ w'' added e.
              upserted-IsSynced connection_id name r remotes w w' w'' _ same added
                (sync_loop_lem id connection_id total remotes (suc processed) _ w'' name e)
