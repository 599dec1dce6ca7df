-- ===== src/Jobs/Access/Visibility.antt =====
-- What the lists of jobs and of events show to whom.
use s3gator.Base.{
  ℕ, ◌≤◌, String, true, Option, List, [], ◌∷◌, ◌≡◌, ◌↔◌, refl, arith, reverse, take, keep_if,
  length, length-take_le, min, max, All, All-take, All-keep_if, or_default, str_eq, eq_iff,
}
use s3gator.Base.Outcome.{ok, bind-ok}
use s3gator.Base.Text.{Text}
use s3gator.Auth.{AppRole, super_admin, admin, user, SessionUser}
use s3gator.Jobs.Model.{Job, JobEvent}
use s3gator.Jobs.Access.Visible.{visible_job-ok}
use s3gator.Jobs.Table.{find_job-id}
use s3gator.Jobs.Access.{
  AdminScope, Scope, mine, all, JobPublic, created_by, can_admin_access_job, can_view, list_rows,
  clamp_limit, list_in, can_as, visible_job, get_by_id, get_detail, list_events,
}

abbrev Sees : AppRole → List AdminScope → String → Job → Type 0
Sees role scopes id j = can_as role scopes id j ≡ true

own_seen :
    (role : AppRole) (scopes : List AdminScope) (id : String) (j : Job)
    → created_by id j.created_by_user_id ≡ true
    → Sees role scopes id j
unfolding can_admin_access_job
own_seen super_admin scopes id j h = refl
own_seen admin scopes id j h = ground arith
own_seen user scopes id j h = h

everything_seen :
    (scopes : List AdminScope) (id : String) (jobs : List Job)
    → All (Sees super_admin scopes id) jobs
everything_seen scopes id [] = tt
everything_seen scopes id (j ∷ jobs) = (refl, everything_seen scopes id jobs)

list_in-seen :
    (scope : Scope) (role : AppRole) (scopes : List AdminScope) (id : String) (limit : ℕ)
    (latest : List Job)
    → All (Sees role scopes id) (list_in scope role scopes id limit latest)
list_in-seen mine role scopes id limit latest =
    All-take (Sees role scopes id) limit _
      (All-keep_if (Sees role scopes id) _ latest (own_seen role scopes id))
list_in-seen all super_admin scopes id limit latest =
    All-take (Sees super_admin scopes id) limit latest (everything_seen scopes id latest)
list_in-seen all admin scopes id limit latest =
    All-take (Sees admin scopes id) limit _ (All-keep_if (Sees admin scopes id) _ _ (λ j h. h))
list_in-seen all user scopes id limit latest =
    All-take (Sees user scopes id) limit _ (All-keep_if (Sees user scopes id) _ latest (λ j h. h))

length-list_in :
    (scope : Scope) (role : AppRole) (scopes : List AdminScope) (id : String) (limit : ℕ)
    (latest : List Job)
    → length (list_in scope role scopes id limit latest) ≤ limit
length-list_in mine role scopes id limit latest = length-take_le limit _
length-list_in all super_admin scopes id limit latest = length-take_le limit _
length-list_in all admin scopes id limit latest = length-take_le limit _
length-list_in all user scopes id limit latest = length-take_le limit _

-- Whatever limit and scope are asked for, every job in the list is one that its reader may open
-- by its id, and there are at most 500 of them, and at most the limit if it is not 0.
pub list_rows-can_view :
    (scopes : List AdminScope) (actor : SessionUser) (limit : Option ℕ) (scope : Option Scope)
    (jobs : List Job)
    → All (λ j. can_view scopes actor j ≡ true) (list_rows scopes actor limit scope jobs)
      × (length (list_rows scopes actor limit scope jobs) ≤ min (max (or_default limit 100) 1) 500)
unfolding can_view list_rows
list_rows-can_view scopes actor limit scope jobs = (
  list_in-seen (or_default scope mine) actor.role scopes actor.id _ (reverse jobs),
  length-list_in (or_default scope mine) actor.role scopes actor.id _ (reverse jobs),
)

events_of :
    (id : String) (events : List JobEvent)
    → All (λ e. e.job_id ≡ id) (keep_if (λ e. str_eq e.job_id id) events)
events_of id events = All-keep_if (λ e. e.job_id ≡ id) _ events (λ e h. (eq_iff e.job_id id).0 h)

-- The three ways to read one job agree: `get_detail` answers a job and its events exactly if
-- `get_by_id` answers that job and `list_events` those events.
pub get_detail-agrees :
    (iso : ℕ → Text) (scopes : List AdminScope) (actor : SessionUser) (id : String)
    (limit : Option ℕ) (jobs : List Job) (events shown : List JobEvent) (p : JobPublic)
    → (get_detail iso scopes actor id limit jobs events ≡ ok (p, shown)) ↔ (
        (get_by_id iso scopes actor id jobs ≡ ok p)
        × (list_events scopes actor id limit jobs events ≡ ok shown))
unfolding get_detail get_by_id list_events
get_detail-agrees iso scopes actor id limit jobs events shown p = ground arith

-- No event of another job is shown with a job, and at most 1000 are shown.
pub list_events-All :
    (scopes : List AdminScope) (actor : SessionUser) (id : String) (limit : Option ℕ)
    (jobs : List Job) (events shown : List JobEvent)
    → list_events scopes actor id limit jobs events ≡ ok shown
    → All (λ e. e.job_id ≡ id) shown × (length shown ≤ 1000)
unfolding list_events
list_events-All scopes actor id limit jobs events shown e =
    let (item, seen, rest) = bind-ok (visible_job scopes actor id _ jobs) _ e in
    let (found, _) = visible_job-ok scopes actor id _ jobs item seen in
    shown_of item (find_job-id id jobs item found) rest
  where
    shown_of :
        (item : Job)
        → item.id ≡ id
        → ok (take (clamp_limit limit 200 1000) (keep_if (λ e. str_eq e.job_id item.id) events))
          ≡ ok shown
        → All (λ e. e.job_id ≡ id) shown × (length shown ≤ 1000)
    shown_of item key rest =
        let n = clamp_limit limit 200 1000 in
        let most : n ≤ 1000 = omega arith in
        let same : shown ≡ take n (keep_if (λ (e : JobEvent). str_eq e.job_id item.id) events) =
          cc rest in
        rw (same, key)
          (
            All-take (λ (e : JobEvent). e.job_id ≡ id) n _ (events_of id events),
            omega (arith, length-take_le n (keep_if (λ (e : JobEvent). str_eq e.job_id id) events)),
          )
