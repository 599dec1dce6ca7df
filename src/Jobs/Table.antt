-- ===== src/Jobs/Table.antt =====
-- Reading and updating the rows of the job table.
use s3gator.Base.{
  ℕ, String, true, Option, none, some, List, [], ◌∷◌, ◌++◌, ◌≡◌, refl, arith, if◌then◌else◌, str_eq,
  eq_iff, All, Bool-cases, inl, inr,
}
use s3gator.Jobs.Model.{Job, Env, State, find_job, update_job, release_token, release_job_lock}
use s3gator.Jobs.Queue.{is_claimable, claim_row, claim_rows}

-- The update keeps the key of a row.
abbrev pub KeepsId : (Job → Job) → Type 0
KeepsId f = (j : Job) → (f j).id ≡ j.id

pub find_job-id : (id : String) (jobs : List Job) (j : Job) → find_job id jobs ≡ some j → j.id ≡ id
unfolding find_job
find_job-id id [] j e = cc
find_job-id id (x ∷ jobs) j e = ground (arith, eq_iff x.id id, find_job-id id jobs j)

pub All-find_job :
    (P : Job → Type 0) (id : String) (jobs : List Job) (j : Job)
    → All P jobs
    → find_job id jobs ≡ some j
    → P j
unfolding find_job
All-find_job P id [] j h e = absurd (cc e)
All-find_job P id (x ∷ jobs) j h e = elim (Bool-cases (str_eq x.id id)) [
  | inl hit ↦ rw (← some_inj x j (rw hit at e)) h.0
  | inr miss ↦ All-find_job P id jobs j h.1 (rw miss at e)
]
  where
    some_inj : (a b : Job) → some a ≡ some b → a ≡ b
    some_inj a b p = cc

pub All-update_job :
    (P : Job → Type 0) (id : String) (f : Job → Job) (jobs : List Job) (j : Job)
    → All P jobs
    → find_job id jobs ≡ some j
    → P (f j)
    → All P (update_job id f jobs)
unfolding find_job update_job
All-update_job P id f [] j h e p = tt
All-update_job P id f (x ∷ jobs) j h e p = elim (Bool-cases (str_eq x.id id)) [
  | inl hit ↦ rw hit (rw (some_inj j x (rw hit at e)) at p, h.1)
  | inr miss ↦ rw miss (h.0, All-update_job P id f jobs j h.1 (rw miss at e) p)
]
  where
    some_inj : (a b : Job) → some b ≡ some a → a ≡ b
    some_inj a b p = cc

pub All-append_one :
    (P : Job → Type 0) (jobs : List Job) (j : Job) → All P jobs → P j → All P (jobs ++ j ∷ [])
All-append_one P [] j h p = (p, tt)
All-append_one P (x ∷ jobs) j h p = (h.0, All-append_one P jobs j h.1 p)

pub find_job-update_job :
    (id other : String) (f : Job → Job) (jobs : List Job) (j : Job)
    → find_job id jobs ≡ some j
    → KeepsId f
    → find_job other (update_job id f jobs)
      ≡ (if str_eq id other then some (f j) else find_job other jobs)
unfolding find_job update_job
find_job-update_job id other f [] j e keeps = cc
find_job-update_job id other f (x ∷ jobs) j e keeps = ground (
  arith,
  eq_iff x.id id,
  eq_iff x.id other,
  eq_iff id other,
  eq_iff (f x).id other,
  keeps x,
  find_job-update_job id other f jobs j,
)

pub All-claim_rows :
    (P : Job → Type 0) (ttl now : ℕ) (token : String) (candidate : Job) (jobs : List Job)
    → ((j : Job)
        → is_claimable ttl now j ≡ true
        → P j
        → P (claim_row now token candidate.started_at j))
    → All P jobs
    → All P (claim_rows ttl now token candidate jobs).0
unfolding claim_rows
All-claim_rows P ttl now token candidate [] step h = tt
All-claim_rows P ttl now token candidate (j ∷ jobs) step h =
    elim (Bool-cases (is_claimable ttl now j)) [
      | inl may ↦ elim (Bool-cases (str_eq j.id candidate.id)) [
        | inl hit ↦
            rw (may, hit) (step j may h.0, All-claim_rows P ttl now token candidate jobs step h.1)
        | inr miss ↦ rw (may, miss) (h.0, All-claim_rows P ttl now token candidate jobs step h.1)
      ]
      | inr cannot ↦ elim (Bool-cases (str_eq j.id candidate.id)) [
        | inl hit ↦ rw (cannot, hit) (h.0, All-claim_rows P ttl now token candidate jobs step h.1)
        | inr miss ↦ rw (cannot, miss) (h.0, All-claim_rows P ttl now token candidate jobs step h.1)
      ]
    ]

module _ {L : Type 0} (env : Env L) where
  pub jobs-release_token :
      (id : String) (o : Option String) (now : ℕ) (st : State L)
      → (release_token env id o now st).jobs ≡ st.jobs
  unfolding release_token
  jobs-release_token id none now st = refl
  jobs-release_token id (some token) now st = ground arith

  pub jobs-release_job_lock :
      (job : Job) (now : ℕ) (st : State L) → (release_job_lock env job now st).jobs ≡ st.jobs
  unfolding release_job_lock
  jobs-release_job_lock job now st = jobs-release_token job.id job.lock_key now st
