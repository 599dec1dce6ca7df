-- ===== src/Scheduler/Acting.antt =====
-- For whom the scheduler acts.
use s3gator.Base.{
  true, none, some, List, [], ◌∷◌, ◌≡◌, ◌⊎◌, refl, ◌∙◌, inl, inr, arith, Bool-cases, Option-cases,
  ◌&&◌, All,
}
use mathlib.Core.List.{Memᴰ}
use s3gator.Auth.{AppRole, super_admin, admin, SessionUser, role_eq, role_eq_iff}
use s3gator.Auth.Sessions.{Account}
use s3gator.Scheduler.Model.{find_actor, resolve_scheduler_actor}

-- The user is an active account of the list, with the role.
abbrev pub IsAccountOf : List Account → AppRole → SessionUser → Type 0
IsAccountOf accounts role user =
    (a : Account) × Memᴰ a accounts
    × (a.is_active ≡ true)
    × (a.role ≡ role)
    × (user.id ≡ a.id)
    × (user.role ≡ a.role)

find_actor-IsAccountOf :
    (role : AppRole) (accounts : List Account) (user : SessionUser)
    → find_actor role accounts ≡ some user
    → IsAccountOf accounts role user
unfolding find_actor
find_actor-IsAccountOf role [] user h = absurd (cc h)
find_actor-IsAccountOf role (a ∷ accounts) user h =
    elim (Bool-cases (a.is_active && role_eq a.role role)) [
      | inl e ↦ (
        a,
        Memᴰ.head refl,
        ground arith,
        ground (arith, role_eq_iff a.role role),
        cc (rw e at h),
        cc (rw e at h),
      )
      | inr e ↦
          let (b, m, active, same, id, role') =
            find_actor-IsAccountOf role accounts user (rw e at h) in
          (b, Memᴰ.tail m, active, same, id, role')
    ]

-- No account of the list is active and has the role.
abbrev pub NoneActive : List Account → AppRole → Type 0
NoneActive accounts role = All (λ a. ¬ ((a.is_active ≡ true) × (a.role ≡ role))) accounts

find_actor-NoneActive :
    (role : AppRole) (accounts : List Account)
    → find_actor role accounts ≡ none
    → NoneActive accounts role
unfolding find_actor
find_actor-NoneActive role [] h = tt
find_actor-NoneActive role (a ∷ accounts) h =
    elim (Bool-cases (a.is_active && role_eq a.role role)) [
      | inl e ↦ absurd (cc (rw e at h))
      | inr e ↦ (
        (λ both. ground (arith, both.0, both.1, role_eq_iff a.role role)),
        find_actor-NoneActive role accounts (rw e at h),
      )
    ]

-- The scheduler acts for an active account that is a super administrator, or, where there is no
-- active super administrator, for an active one that is an administrator.
pub resolve_scheduler_actor-IsAccountOf :
    (accounts : List Account) (user : SessionUser)
    → resolve_scheduler_actor accounts ≡ some user
    → IsAccountOf accounts super_admin user
      ⊎ (NoneActive accounts super_admin × IsAccountOf accounts admin user)
unfolding resolve_scheduler_actor
resolve_scheduler_actor-IsAccountOf accounts user h =
    elim (Option-cases (find_actor super_admin accounts)) [
      | inl e ↦ inr (
        find_actor-NoneActive super_admin accounts e,
        find_actor-IsAccountOf admin accounts user (rw (resolve_scheduler_actor, e) at h),
      )
      | inr (first, e) ↦ inl (
          find_actor-IsAccountOf super_admin accounts user
            (e ∙ cc (rw (resolve_scheduler_actor, e) at h)))
    ]
