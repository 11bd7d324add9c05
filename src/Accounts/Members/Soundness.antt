-- ===== src/Accounts/Members/Soundness.antt =====
-- Super admins through `ChangeRole` and `DeleteMember` of internal/services/member_service.go.
pub mod Creating
use code_scout.Common.{
  trim_space, ℕ, suc, ◌≤◌, ◌≡◌, refl, Bool, true, false, not, ◌&&◌, ◌||◌, List, [], ◌∷◌, Option,
  none, some, Result, ok, err, arith, if◌then◌else◌, ◌==◌, leb, Bool-cases, inl, inr, Distinct,
  Bytes,
}
use code_scout.Domain.Roles.{
  Role, super_admin, role_eq, level_valid, ProjectLevel, User, ProjectMember, ProjectAssignment,
  CreateMemberOpts,
}
use code_scout.Domain.Access.{resolve_project_access}
use code_scout.Accounts.Database.{
  Tables, Error, not_found, record_not_found, last_super_admin, broken, Failure, M, return, ◌>>=◌,
  ◌>>◌, with_transaction,
}
use code_scout.Accounts.Database.Rules.{
  Triple, return-Triple, throw-Triple, if-Triple, weaken-Triple, bind-Triple, then-Triple,
  unless-Triple, refuse_if-Triple, or_else-Triple, attempt-Triple,
}
use code_scout.Accounts.Database.Statements.{with_transaction-Triple}
use code_scout.Accounts.Outside.{Outside, normalize_email}
use code_scout.Accounts.Repos.Users.{first, has_id, is_super, on_user, update_role}
use code_scout.Accounts.Repos.Supers.{
  user_ids, supers, others, Sound, others-supers, on_user-supers, others-target, on_user-target,
  on_user-user_ids, others-Distinct,
}
use code_scout.Accounts.Repos.Kept.{
  Accounted, Keeps, Spares, get_by_email-Spares, get_membership-Spares, set_membership-Spares,
  remove_membership-Spares, remove_all_for_user-Spares, delete_sessions_by_user-Spares,
  delete_by_user-Spares, get_by_id-Triple, count_super_admins-Triple, update_role-Triple,
  update_password_hash-Keeps, set_must_change_password-Keeps, create_user-Keeps, delete_user-Triple,
}
use code_scout.Accounts.Members.{access_by_row, resolve_access, require_manage}
use code_scout.Accounts.Members.Creating.{
  is_skipped, grant_one, grant_each, set_each, store_member, create_hashed, create_addressed,
  create_member,
}
use code_scout.Accounts.Members.Resetting.{reset_account, reset_to, reset_member_password}
use code_scout.Accounts.Members.Removing.{
  guard_last_super_admin, change_role_of, change_role, erase_account, delete_target, delete_member,
}
use code_scout.Accounts.Members.Projects.{set_project_access, remove_project_access}

-- One super admin more than is needed.
abbrev Plenty : List User → Type 0
Plenty us = Distinct (user_ids us) × (2 ≤ supers us)

-- The account `t` is the one with the id `id`, and no super admin.
abbrev Ordinary : ℕ → User → List User → Type 0
Ordinary id t us = Sound us × (first (has_id id) us ≡ some t) × (is_super t ≡ false)

guard-Keeps :
    (fn : M Error (Unit {0}))
    → Triple (λ ts. Plenty ts.users) fn (λ _. Accounted) (λ _. Unit {0})
    → Keeps (guard_last_super_admin fn)
unfolding guard_last_super_admin
guard-Keeps fn t =
    with_transaction-Triple (λ ts s. s)
      (bind-Triple (λ n ts. Accounted ts × (n ≡ supers ts.users))
        (weaken-Triple (λ ts s. s) (λ ts s. tt) count_super_admins-Triple)
        λ n.
          unless-Triple (leb n 1) last_super_admin (λ ts s. tt)
            λ more. weaken-Triple (λ ts s. (s.0.0, ground arith)) (λ ts s. tt) t)

erase-Triple :
    (P : List User → Type 0) (id : ℕ)
    → ((us : List User) → P us → Sound (others id us))
    → Triple (λ ts. P ts.users) (erase_account id) (λ _. Accounted) (λ _. Unit {0})
unfolding erase_account
erase-Triple P id g =
    then-Triple (λ ts. P ts.users)
      (weaken-Triple (λ ts p. p) (λ ts p. tt) (remove_all_for_user-Spares P id))
      (then-Triple (λ ts. P ts.users)
        (weaken-Triple (λ ts p. p) (λ ts p. tt) (delete_sessions_by_user-Spares P id))
        (then-Triple (λ ts. P ts.users)
          (weaken-Triple (λ ts p. p) (λ ts p. tt) (delete_by_user-Spares P id))
          (delete_user-Triple P Sound id g)))

others-Plenty : (id : ℕ) (us : List User) → Plenty us → Sound (others id us)
others-Plenty id us s = (others-Distinct id us s.0, omega (arith, others-supers id us s.0, s.1))

others-Ordinary : (id : ℕ) (t : User) (us : List User) → Ordinary id t us → Sound (others id us)
others-Ordinary id t us s =
    (others-Distinct id us s.0.0, omega (arith, others-target id us t s.0.0 s.1 s.2, s.0.1))

delete_target-Keeps :
    (actor : Option User) (t : User) (id : ℕ)
    → Triple
        (λ ts. Accounted ts × (first (has_id id) ts.users ≡ some t))
        (delete_target actor t id)
        (λ _. Accounted)
        Accounted
unfolding delete_target
delete_target-Keeps actor t id =
    if-Triple _ _ _
      (λ top.
        unless-Triple _ _ (λ ts s. s.0)
          λ may. or_else-Triple _ (
            weaken-Triple (λ ts s. s.0) (λ ts s. s)
              (guard-Keeps (erase_account id) (erase-Triple Plenty id (others-Plenty id)))))
      (λ low.
        unless-Triple _ _ (λ ts s. s.0)
          λ may. or_else-Triple _ (
            with_transaction-Triple (λ ts s. s.0)
              (weaken-Triple (λ ts s. (s.0, s.1, low)) (λ ts s. tt)
                (erase-Triple (Ordinary id t) id (others-Ordinary id t)))))

pub delete_member-Keeps : (actor : Option User) (id : ℕ) → Keeps (delete_member actor id)
unfolding delete_member
delete_member-Keeps actor id =
    bind-Triple _ (or_else-Triple _ (get_by_id-Triple id)) λ t. delete_target-Keeps actor t id

stays_low :
    (a b : Role)
    → role_eq a b ≡ false
    → (role_eq a super_admin && not (role_eq b super_admin)) ≡ false
    → role_eq a super_admin ≡ false
stays_low a b h k = ground arith

with_role-Plenty :
    (id : ℕ) (role : Role) (us : List User)
    → Plenty us
    → Sound (on_user id (λ u. record u { role = role }) us)
with_role-Plenty id role us s = (
  rw (on_user-user_ids id (λ u. record u { role = role }) us (λ u. refl)) s.0,
  omega (arith, on_user-supers id (λ u. record u { role = role }) us s.0, s.1),
)

with_role-Ordinary :
    (id : ℕ) (role : Role) (t : User) (us : List User)
    → Ordinary id t us
    → Sound (on_user id (λ u. record u { role = role }) us)
with_role-Ordinary id role t us s = (
  rw (on_user-user_ids id (λ u. record u { role = role }) us (λ u. refl)) s.0.0,
  omega (arith, on_user-target id (λ u. record u { role = role }) us t s.0.0 s.1 s.2, s.0.1),
)

change_role_of-Keeps :
    (t : User) (id : ℕ) (role : Role)
    → Triple
        (λ ts. Accounted ts × (first (has_id id) ts.users ≡ some t))
        (change_role_of t id role)
        (λ _. Accounted)
        Accounted
unfolding change_role_of
change_role_of-Keeps t id role =
    if-Triple _ _ _ (λ same. weaken-Triple (λ ts s. s.0) (λ ts s. s) (return-Triple tt))
      λ other.
        if-Triple _ _ _
          (λ down. or_else-Triple _ (
            weaken-Triple (λ ts s. s.0) (λ ts s. s)
              (guard-Keeps (update_role id role) (
                update_role-Triple Plenty Sound (λ _. Unit {0}) id role (λ us s. tt)
                  (with_role-Plenty id role)))))
          λ up. or_else-Triple _ (
            weaken-Triple (λ ts s. (s.0, s.1, stays_low t.role role other up)) (λ ts s. s)
              (update_role-Triple (Ordinary id t) Sound Sound id role (λ us s. s.0)
                (with_role-Ordinary id role t)))

pub change_role-Keeps :
    (actor : Option User) (id : ℕ) (role : Role) → Keeps (change_role actor id role)
unfolding change_role
change_role-Keeps actor id role =
    unless-Triple _ _ (λ ts s. s)
      λ valid.
        unless-Triple _ _ (λ ts s. s)
          λ may.
            bind-Triple _ (or_else-Triple _ (get_by_id-Triple id))
              λ t. change_role_of-Keeps t id role
