-- ===== src/Accounts/Members/Removing.antt =====
-- `ChangeRole` and `DeleteMember` of internal/services/member_service.go, and the guard of the last
-- super admin that they share. Nothing runs between the statements of one call.
use code_scout.Common.{ℕ, not, ◌&&◌, Option, some, if◌then◌else◌, leb, codes}
use code_scout.Domain.Roles.{Role, super_admin, role_eq, role_valid, User}
use code_scout.Domain.Access.{can_manage_account}
use code_scout.Accounts.Database.{
  Error, last_super_admin, Failure, M, return, ◌>>=◌, ◌>>◌, or_else, refuse_if, with_transaction,
}
use code_scout.Accounts.Repos.Users.{
  get_by_id, count_super_admins_for_update, update_role, delete_user, delete_sessions_by_user,
}
use code_scout.Accounts.Repos.Memberships.{remove_all_for_user}
use code_scout.Accounts.Repos.Tokens.{delete_by_user}
use code_scout.Accounts.Members.{failure, always, is_super_admin}

-- `guardLastSuperAdmin`
unfoldable pub guard_last_super_admin : M Error (Unit {0}) → M Error (Unit {0})
guard_last_super_admin fn =
    with_transaction
      (count_super_admins_for_update >>= λ total. refuse_if (leb total 1) last_super_admin >> fn)

-- `statusForGuard`
abbrev pub status_for_guard : Error → Failure
status_for_guard last_super_admin =
    failure 409 (codes "This is the last super admin. Promote someone else first.")
status_for_guard _ = failure 500 (codes "Could not complete that change")

-- `ChangeRole` once the target is read.
unfoldable pub change_role_of : User → ℕ → Role → M Failure (Unit {0})
change_role_of target target_id role =
    if role_eq target.role role
    then return tt
    else if role_eq target.role super_admin && not (role_eq role super_admin)
    then or_else (guard_last_super_admin (update_role target_id role)) status_for_guard
    else or_else (update_role target_id role) (always 500 (codes "Could not change the role"))

-- `ChangeRole`
unfoldable pub change_role : Option User → ℕ → Role → M Failure (Unit {0})
change_role actor target_id role =
    refuse_if (not (role_valid role)) (failure 400 (codes "Unknown role"))
    >> (refuse_if (not (is_super_admin actor))
          (failure 403 (codes "Only a super admin can change roles"))
        >> (or_else (get_by_id target_id) (always 404 (codes "Account not found")) >>= λ target.
            change_role_of target target_id role))

-- What both branches of `DeleteMember` do in their transaction.
unfoldable pub erase_account : ℕ → M Error (Unit {0})
erase_account id =
    remove_all_for_user id >> (delete_sessions_by_user id >> (delete_by_user id >> delete_user id))

-- `DeleteMember` once the target is read.
unfoldable pub delete_target : Option User → User → ℕ → M Failure (Unit {0})
delete_target actor target target_id =
    if role_eq target.role super_admin
    then refuse_if (not (is_super_admin actor))
        (failure 403 (codes "Only a super admin can remove a super admin"))
      >> or_else (guard_last_super_admin (erase_account target_id)) status_for_guard
    else refuse_if (not (can_manage_account actor (some target)))
        (failure 403 (codes "You cannot remove that account"))
      >> or_else (with_transaction (erase_account target_id))
          (always 500 (codes "Could not remove the account"))

-- `DeleteMember`
unfoldable pub delete_member : Option User → ℕ → M Failure (Unit {0})
delete_member actor target_id =
    or_else (get_by_id target_id) (always 404 (codes "Account not found")) >>= λ target.
    delete_target actor target target_id
