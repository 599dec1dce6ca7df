-- ===== src/Jobs/Claims.antt =====
-- What a claim promises to the worker that makes it.
use s3gator.Base.{
  ℕ, ◌-◌, ◌*◌, String, true, false, Option, none, some, List, [], ◌∷◌, ◌≡◌, ◌≢◌, refl, arith, All,
  Bool-cases, inl, inr, str_eq, eq_iff, ltb,
}
use s3gator.Jobs.Model.{Job, Env, State, find_job, update_job}
use s3gator.Jobs.Queue.{is_claimable, claim_row, claim_rows, claim_candidate, find_candidate}
use s3gator.Jobs.Rows.{jobs-claim_candidate}
use s3gator.Jobs.Table.{KeepsId, find_job-update_job}

-- The id is the primary key of the table.
abbrev pub UniqueIds : List Job → Type 0
UniqueIds [] = Unit
UniqueIds (j ∷ jobs) = All (λ k. k.id ≢ j.id) jobs × UniqueIds jobs

claim_rows_absent :
    (ttl now : ℕ) (token : String) (candidate : Job) (jobs : List Job)
    → All (λ k. k.id ≢ candidate.id) jobs
    → claim_rows ttl now token candidate jobs ≡ (jobs, 0)
unfolding claim_rows
claim_rows_absent ttl now token candidate [] h = refl
claim_rows_absent ttl now token candidate (j ∷ jobs) h =
    ground (arith, eq_iff j.id candidate.id, claim_rows_absent ttl now token candidate jobs h.1)

absent_of_eq :
    (j candidate : Job) (jobs : List Job)
    → j.id ≡ candidate.id
    → All (λ k. k.id ≢ j.id) jobs
    → All (λ k. k.id ≢ candidate.id) jobs
absent_of_eq j candidate [] e h = tt
absent_of_eq j candidate (k ∷ jobs) e h =
    ((λ p. h.0 (ground arith)), absent_of_eq j candidate jobs e h.1)

-- The update claims the one row with the candidate's id if it may be claimed.
pub claim_rows_found :
    (ttl now : ℕ) (token : String) (candidate job : Job) (jobs : List Job)
    → UniqueIds jobs
    → find_job candidate.id jobs ≡ some job
    → is_claimable ttl now job ≡ true
    → claim_rows ttl now token candidate jobs
      ≡ (update_job candidate.id (claim_row now token candidate.started_at) jobs, 1)
unfolding claim_rows find_job update_job
claim_rows_found ttl now token candidate job [] u e may = absurd (cc e)
claim_rows_found ttl now token candidate job (j ∷ jobs) u e may =
    elim (Bool-cases (str_eq j.id candidate.id)) [
      | inl hit ↦ ground (
        arith,
        claim_rows_absent ttl now token candidate jobs
            (absent_of_eq j candidate jobs ((eq_iff j.id candidate.id).0 hit) u.0),
      )
      | inr miss ↦ ground (arith, claim_rows_found ttl now token candidate job jobs u.1)
    ]

pub claim_rows_refused :
    (ttl now : ℕ) (token : String) (candidate job : Job) (jobs : List Job)
    → UniqueIds jobs
    → find_job candidate.id jobs ≡ some job
    → is_claimable ttl now job ≡ false
    → claim_rows ttl now token candidate jobs ≡ (jobs, 0)
unfolding claim_rows find_job
claim_rows_refused ttl now token candidate job [] u e may = absurd (cc e)
claim_rows_refused ttl now token candidate job (j ∷ jobs) u e may =
    elim (Bool-cases (str_eq j.id candidate.id)) [
      | inl hit ↦ ground (
        arith,
        claim_rows_absent ttl now token candidate jobs
            (absent_of_eq j candidate jobs ((eq_iff j.id candidate.id).0 hit) u.0),
      )
      | inr miss ↦ ground (arith, claim_rows_refused ttl now token candidate job jobs u.1)
    ]

pub claim_row-claimable :
    (ttl now later : ℕ) (token : String) (started : Option ℕ) (job : Job)
    → is_claimable ttl later (claim_row now token started job) ≡ ltb now (later - ttl * 1000)
unfolding claim_row is_claimable
claim_row-claimable ttl now later token started job = ground arith

pub find_candidate-claimable :
    (ttl now : ℕ) (jobs : List Job) (candidate : Job)
    → find_candidate ttl now jobs ≡ some candidate
    → is_claimable ttl now candidate ≡ true
unfolding find_candidate
find_candidate-claimable ttl now [] candidate e = cc
find_candidate-claimable ttl now (j ∷ jobs) candidate e =
    ground (arith, find_candidate-claimable ttl now jobs candidate)

pub find_job_absent :
    (id : String) (jobs : List Job) → All (λ k. k.id ≢ id) jobs → find_job id jobs ≡ none
unfolding find_job
find_job_absent id [] h = refl
find_job_absent id (j ∷ jobs) h = ground (arith, eq_iff j.id id, find_job_absent id jobs h.1)

pub claim_row-id :
    (now : ℕ) (token : String) (started : Option ℕ) → KeepsId (claim_row now token started)
unfolding claim_row
claim_row-id now token started job = refl

pub find_job_updated :
    (id : String) (f : Job → Job) (jobs : List Job) (job : Job)
    → find_job id jobs ≡ some job
    → KeepsId f
    → find_job id (update_job id f jobs) ≡ some (f job)
find_job_updated id f jobs job e keeps =
    ground (arith, find_job-update_job id id f jobs job e keeps, eq_iff id id)

module _ {L : Type 0} (env : Env L) where
  -- An update that finds no row to claim gives the lock back and changes no row.
  pub claim_candidate_refused :
      (worker token : String) (ttl now : ℕ) (candidate job : Job) (st : State L)
      → UniqueIds st.jobs
      → find_job candidate.id st.jobs ≡ some job
      → is_claimable ttl now job ≡ false
      → ((claim_candidate env worker token ttl now candidate st).0 ≡ none)
        × ((claim_candidate env worker token ttl now candidate st).1.jobs ≡ st.jobs)
  unfolding claim_candidate
  claim_candidate_refused worker token ttl now candidate job st u e may =
      let refused = claim_rows_refused ttl now token candidate job st.jobs u e may in
      (rw (refused, claim_candidate), rw (refused, claim_candidate))

  pub claim_candidate_granted :
      (worker token : String) (ttl now : ℕ) (candidate job : Job) (st : State L)
      → UniqueIds st.jobs
      → find_job candidate.id st.jobs ≡ some job
      → is_claimable ttl now job ≡ true
      → let row = claim_row now token candidate.started_at job in
        ((claim_candidate env worker token ttl now candidate st).0 ≡ some row)
        × ((claim_candidate env worker token ttl now candidate st).1.jobs
            ≡ update_job candidate.id (claim_row now token candidate.started_at) st.jobs)
  unfolding claim_candidate
  claim_candidate_granted worker token ttl now candidate job st u e may =
      let row = claim_row now token candidate.started_at in
      let granted = claim_rows_found ttl now token candidate job st.jobs u e may in
      let updated =
        find_job_updated candidate.id row st.jobs job e
          (claim_row-id now token candidate.started_at) in
      (
        rw (granted, claim_candidate) (rw (updated, claim_candidate)),
        rw jobs-claim_candidate (rw granted),
      )
