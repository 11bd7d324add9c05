-- ===== src/Accounts/Members.antt =====
-- internal/services/member_service.go: what an account may do in a project.
pub mod Creating
pub mod Resetting
pub mod Removing
pub mod Projects
pub mod Soundness
pub mod Atomic
pub mod Granted
pub mod Progress
use code_scout.Common.{
  ℕ, Bool, true, false, not, Option, none, some, Result, ok, err, if◌then◌else◌, Bytes, codes,
}
use code_scout.Domain.Roles.{super_admin, role_eq, User, ProjectMember, ProjectAccess}
use code_scout.Domain.Access.{no_access, resolve_project_access}
use code_scout.Accounts.Database.{
  Error, not_found, Failure, M, return, throw, ◌>>=◌, ◌>>◌, or_else, attempt, refuse_if,
}
use code_scout.Accounts.Repos.Memberships.{get_membership}

abbrev pub failure : ℕ → Bytes → Failure
failure status message = record { status = status; message = message }

-- `return status, failure` for every error
abbrev pub always {ℓ} : {A : Type ℓ} → ℕ → Bytes → A → Failure
always status message _ = failure status message

abbrev pub is_super_admin : Option User → Bool
is_super_admin none = false
is_super_admin (some u) = role_eq u.role super_admin

-- `ResolveAccess` once the membership is read.
abbrev pub access_by_row : User → Result Error ProjectMember → M Error ProjectAccess
access_by_row u (ok m) = return (resolve_project_access (some u) (some m))
access_by_row u (err not_found) = return no_access
access_by_row u (err e) = throw e

-- `ResolveAccess`
unfoldable pub resolve_access : Option User → ℕ → M Error ProjectAccess
resolve_access none project = return no_access
resolve_access (some u) project =
    if role_eq u.role super_admin
    then return (resolve_project_access (some u) none)
    else attempt (get_membership u.id project) >>= access_by_row u

-- `requireManage`
unfoldable pub require_manage : Option User → ℕ → M Failure (Unit {0})
require_manage actor project =
    or_else (resolve_access actor project) (always 500 (codes "Could not check access"))
    >>= λ access.
        refuse_if (not access.can_read) (failure 404 (codes "Project not found"))
        >> refuse_if (not access.can_manage)
            (failure 403 (codes "You cannot manage access for this project"))
