-- ===== src/Accounts/Members/Resetting.antt =====
-- `ResetMemberPassword` of internal/services/member_service.go.
use code_scout.Common.{ℕ, true, not, Option, none, some, Bytes, codes}
use code_scout.Domain.Roles.{User}
use code_scout.Domain.Access.{can_manage_account}
use code_scout.Accounts.Database.{
  Error, broken, Failure, M, return, throw, ◌>>=◌, ◌>>◌, or_else, refuse_if, with_transaction,
}
use code_scout.Accounts.Outside.{Outside}
use code_scout.Accounts.Repos.Users.{
  get_by_id, update_password_hash, set_must_change_password, delete_sessions_by_user,
}
use code_scout.Accounts.Repos.Tokens.{delete_by_user}
use code_scout.Accounts.Members.{failure, always}

-- The transaction of `resetTo`.
unfoldable pub reset_account : ℕ → Bytes → M Error (Unit {0})
reset_account id hash = with_transaction (
    update_password_hash id hash
    >> (set_must_change_password id true >> (delete_sessions_by_user id >> delete_by_user id)))

-- `resetTo`, given what bcrypt returns. The password comes back on success only: the caller drops it
-- with an error.
abbrev pub reset_to : ℕ → Bytes → Option Bytes → M Error Bytes
reset_to id password none = throw broken
reset_to id password (some hash) = reset_account id hash >> return password

-- `ResetMemberPassword`. `password` is what `GenerateRandomString` returns.
unfoldable pub reset_member_password : Outside → Option User → ℕ → Bytes → M Failure Bytes
reset_member_password o actor target_id password =
    or_else (get_by_id target_id) (always 404 (codes "Account not found")) >>= λ target.
    refuse_if (not (can_manage_account actor (some target)))
      (failure 403 (codes "You cannot reset that password"))
    >> or_else (reset_to target.id password (o.generate_hash password))
        (always 500 (codes "Could not reset the password"))
