-- ===== src/Jobs/Next.antt =====
-- The job that a worker is handed.
use Prim.Native.String
use s3gator.Base.{
  ℕ, ◌≤◌, ◌<◌, ◌+◌, ◌-◌, ◌*◌, ◌⊎◌, String, true, Option, none, some, map, if◌then◌else◌, str_eq,
  or_default, List, [], ◌∷◌, ◌≡◌, eq_iff, refl, sym, ap, ◌∙◌, arith, All, Bool-cases, Option-cases,
  inl, inr,
}
use s3gator.Jobs.Model.{
  JobStatus, queued, running, completed, failed, canceled, Job, Env, State, find_job, update_job,
}
use s3gator.Jobs.Queue.{
  is_due, is_stale, claimable_in, is_claimable, claim_row, claim_candidate, claim_next,
  find_candidate, lock_candidate,
}
use s3gator.Jobs.Invariant.{IsWellFormed}
use s3gator.Jobs.Table.{KeepsId, All-find_job, find_job-update_job}
use s3gator.Jobs.Claims.{
  UniqueIds, claim_candidate_granted, find_candidate-claimable, find_job_absent, claim_row-id,
}

find_job_candidate :
    (ttl now : ℕ) (jobs : List Job) (candidate : Job)
    → UniqueIds jobs
    → find_candidate ttl now jobs ≡ some candidate
    → find_job candidate.id jobs ≡ some candidate
unfolding find_candidate find_job
find_job_candidate ttl now [] candidate u e = cc
find_job_candidate ttl now (j ∷ jobs) candidate u e = elim (Bool-cases (is_claimable ttl now j)) [
  | inl may ↦ ground (arith, eq_iff j.id candidate.id)
  | inr not_yet ↦
      let later = rw not_yet at e in
      let found = find_job_candidate ttl now jobs candidate u.1 later in
      ground (arith, found, eq_iff j.id candidate.id, find_job_absent j.id jobs u.0)
]

-- A time for a retry that is not there, or has come.
abbrev pub Due : ℕ → Option ℕ → Type 0
Due now o = (o ≡ none) ⊎ ((at : ℕ) × (o ≡ some at) × (at ≤ now))

-- A lock that was taken longer ago than it lives.
abbrev pub Stale : ℕ → ℕ → Option ℕ → Type 0
Stale ttl now o = (at : ℕ) × (o ≡ some at) × (at < now - ttl * 1000)

-- The row waited and was due, or its run went stale.
abbrev pub Ready : ℕ → ℕ → Job → Type 0
Ready ttl now row =
    ((row.status ≡ queued) × Due now row.next_retry_at)
    ⊎ ((row.status ≡ running) × Stale ttl now row.locked_at)

is_due-Due : (now : ℕ) (o : Option ℕ) → is_due now o ≡ true → Due now o
is_due-Due now none h = inl refl
is_due-Due now (some at) h = inr (at, refl, ground arith)

is_stale-Stale : (ttl now : ℕ) (o : Option ℕ) → is_stale ttl now o ≡ true → Stale ttl now o
is_stale-Stale ttl now none h = absurd (cc h)
is_stale-Stale ttl now (some at) h = (at, refl, ground arith)

ready_in :
    (status : JobStatus) (ttl now : ℕ) (row : Job)
    → claimable_in status ttl now row ≡ true
    → ((status ≡ queued) × Due now row.next_retry_at)
      ⊎ ((status ≡ running) × Stale ttl now row.locked_at)
ready_in queued ttl now row h = inl (refl, is_due-Due now row.next_retry_at h)
ready_in running ttl now row h = inr (refl, is_stale-Stale ttl now row.locked_at h)
ready_in completed ttl now row h = absurd (cc h)
ready_in failed ttl now row h = absurd (cc h)
ready_in canceled ttl now row h = absurd (cc h)

is_claimable-Ready : (ttl now : ℕ) (row : Job) → is_claimable ttl now row ≡ true → Ready ttl now row
unfolding is_claimable
is_claimable-Ready ttl now row h = ready_in row.status ttl now row h

attempts_within :
    (ttl now : ℕ) (row : Job)
    → IsWellFormed row
    → Ready ttl now row
    → (row.status ≡ running) ⊎ (row.attempt_count + 1 ≤ row.max_attempts)
attempts_within ttl now row wf (inl waits) = inr (ground (arith, waits.0))
attempts_within ttl now row wf (inr stale) = inl stale.0

ids-update_job :
    (id : String) (f : Job → Job) (jobs : List Job)
    → KeepsId f
    → map (λ j. j.id) (update_job id f jobs) ≡ map (λ j. j.id) jobs
unfolding update_job
ids-update_job id f [] keeps = refl
ids-update_job id f (j ∷ jobs) keeps = elim (Bool-cases (str_eq j.id id)) [
  | inl hit ↦ rw hit (ap (λ k. k ∷ map (λ j. j.id) jobs) (keeps j))
  | inr miss ↦ rw miss (ap (λ ids. j.id ∷ ids) (ids-update_job id f jobs keeps))
]

-- The row, running under a token since now, with one attempt more.
abbrev pub run_under : String → ℕ → Job → Job
run_under token now row = record row {
  status = running;
  started_at = some (or_default row.started_at now);
  locked_at = some now;
  lock_key = some token;
  next_retry_at = none;
  attempt_count = row.attempt_count + 1;
}

-- How a job that is handed out under a token comes from a row, and the table after it.
pub record HandedOut (token : String) (ttl now : ℕ) (jobs jobs' : List Job) (job : Job)
    : Type 0 where
  pub row : Job
  pub found : find_job row.id jobs ≡ some row
  pub ready : Ready ttl now row
  pub claimed : job ≡ run_under token now row
  pub ids_kept : map (λ j. j.id) jobs' ≡ map (λ j. j.id) jobs
  pub updated :
      (id : String) → find_job id jobs' ≡ (if str_eq row.id id then some job else find_job id jobs)
  pub attempts : (row.status ≡ running) ⊎ (job.attempt_count ≤ job.max_attempts)

run_under-claim_row :
    (token : String) (now : ℕ) (row : Job)
    → claim_row now token row.started_at row ≡ run_under token now row
unfolding claim_row
run_under-claim_row token now row = refl

module _ {L : Type 0} (env : Env L) where
  jobs-lock_candidate :
      (token : String) (ttl now : ℕ) (candidate : Job) (st : State L)
      → (lock_candidate env token ttl now candidate st).1.jobs ≡ st.jobs
  unfolding lock_candidate
  jobs-lock_candidate token ttl now candidate st = refl

  claim_candidate-HandedOut :
      (worker token : String) (ttl now : ℕ) (st st' : State L) (c job : Job)
      → UniqueIds st.jobs
      → All IsWellFormed st.jobs
      → find_candidate ttl now st.jobs ≡ some c
      → claim_candidate env worker token ttl now c (lock_candidate env token ttl now c st).1
        ≡ (some job, st')
      → HandedOut token ttl now st.jobs st'.jobs job
  claim_candidate-HandedOut worker token ttl now st st' c job u wf first done =
      let locked = (lock_candidate env token ttl now c st).1 in
      let same = jobs-lock_candidate token ttl now c st in
      let may = find_candidate-claimable ttl now st.jobs c first in
      let found = find_job_candidate ttl now st.jobs c u first in
      let (got, rows) =
        claim_candidate_granted env worker token ttl now c c locked (rw same u) (rw same found)
          may in
      let ready = is_claimable-Ready ttl now c may in
      let row : some job ≡ some (claim_row now token c.started_at c) =
        sym (ap (λ (x : Option Job × State L). x.0) done) ∙ got in
      let is : job ≡ run_under token now c = cc row ∙ run_under-claim_row token now c in
      let table : st'.jobs ≡ update_job c.id (claim_row now token c.started_at) st.jobs =
        sym (ap (λ (x : Option Job × State L). x.1.jobs) done) ∙ rw same at rows in
      let keeps = claim_row-id now token c.started_at in
      record {
        row = c;
        found = found;
        ready = ready;
        claimed = is;
        ids_kept =
            ap (map (λ (j : Job). j.id)) table
            ∙ ids-update_job c.id (claim_row now token c.started_at) st.jobs keeps;
        updated = λ id.
            ap (find_job id) table
            ∙ find_job-update_job c.id id (claim_row now token c.started_at) st.jobs c found keeps
            ∙ ap (λ (o : Option Job). if str_eq c.id id then o else find_job id st.jobs) (sym row);
        attempts =
            rw is
              (attempts_within ttl now c (All-find_job IsWellFormed c.id st.jobs c wf found) ready);
      }

  -- Which job `claim_next` hands out, where ids are unique and rows well-formed: that of a row of
  -- the table that waited and had no time for a retry that is still to come, or that ran and was
  -- locked longer ago than a lock lives. The job is that row with the status of a running job, locked now under
  -- a token made of the worker's name and the call's uuid, started now if it was not before, with
  -- no time for a retry and one attempt more. The table has the job in that row's place, the same
  -- ids in the same order, and every other row as before. If the row waited, the attempt is within
  -- the allowed number.
  pub claim_next-HandedOut :
      (worker uuid : String) (ttl now : ℕ) (st st' : State L) (job : Job)
      → UniqueIds st.jobs
      → All IsWellFormed st.jobs
      → claim_next env worker uuid ttl now st ≡ (some job, st')
      → HandedOut (String.◌++◌ worker (String.◌++◌ ":" uuid)) ttl now st.jobs st'.jobs job
  unfolding claim_next
  claim_next-HandedOut worker uuid ttl now st st' job u wf e =
      let token = String.◌++◌ worker (String.◌++◌ ":" uuid) in
      elim (Option-cases (find_candidate ttl now st.jobs)) [
        | inl nothing ↦ absurd (cc (rw (nothing, claim_next) at e))
        | inr (c, first) ↦ elim (Bool-cases (lock_candidate env token ttl now c st).0) [
          | inr busy ↦ absurd (cc (rw (first, claim_next, busy) at e))
          | inl got ↦
              claim_candidate-HandedOut worker token ttl now st st' c job u wf first
                (rw (first, claim_next, got) at e)
        ]
      ]
