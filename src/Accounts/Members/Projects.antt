-- ===== src/Accounts/Members/Projects.antt =====
-- Who is on a project, and who could be: the rest of internal/services/member_service.go.
use code_scout.Common.{ℕ, Bool, false, not, ◌||◌, List, Option, none, some, ◌==◌, any, keep, codes}
use code_scout.Domain.Roles.{ProjectLevel, level_valid, User, ProjectMember}
use code_scout.Accounts.Database.{Error, Failure, M, return, ◌>>=◌, ◌>>◌, or_else, refuse_if}
use code_scout.Accounts.Repos.Users.{get_by_id, list_users, is_super}
use code_scout.Accounts.Repos.Memberships.{set_membership, remove_membership, list_project_members}
use code_scout.Accounts.Members.{failure, always, resolve_access, require_manage}

-- `SetProjectAccess`
unfoldable pub set_project_access : Option User → ℕ → ℕ → ProjectLevel → M Failure (Unit {0})
set_project_access actor project target_id level =
    refuse_if (not (level_valid level)) (failure 400 (codes "Unknown access level"))
    >> (require_manage actor project
        >> (or_else (get_by_id target_id) (always 404 (codes "Account not found")) >>= λ target.
            refuse_if (is_super target)
              (failure 400 (codes "Super admins already have access to every project"))
            >> or_else (set_membership target_id project level)
                (always 500 (codes "Could not update access"))))

abbrev pub is_self : Option User → ℕ → Bool
is_self none id = false
is_self (some u) id = u.id == id

-- `RemoveProjectAccess`. Without an actor, `requireManage` has refused already.
unfoldable pub remove_project_access : Option User → ℕ → ℕ → M Failure (Unit {0})
remove_project_access actor project target_id =
    require_manage actor project
    >> (refuse_if (is_self actor target_id)
          (failure 400 (codes "You cannot remove your own access"))
        >> or_else (remove_membership target_id project)
            (always 500 (codes "Could not update access")))

-- `ListProjectMembers`
unfoldable pub list_members_of : Option User → ℕ → M Failure (List ProjectMember)
list_members_of actor project =
    or_else (resolve_access actor project) (always 404 (codes "Project not found")) >>= λ access.
    refuse_if (not access.can_read) (failure 404 (codes "Project not found"))
    >> or_else (list_project_members project) (always 500 (codes "Could not load access"))

-- `ListMembers`
unfoldable pub list_members : M Failure (List User)
list_members = or_else list_users (always 500 (codes "Could not load members"))

abbrev pub is_on_project : List ProjectMember → User → Bool
is_on_project existing u = any (λ m. m.user_id == u.id) existing

-- `ListAssignableAccounts`
unfoldable pub list_assignable_accounts : ℕ → M Error (List User)
list_assignable_accounts project = list_users >>= λ all.
    list_project_members project >>= λ existing.
    return (keep (λ u. not (is_super u || is_on_project existing u)) all)

-- `ListCandidatesForNewProject`
unfoldable pub list_candidates_for_new_project : Option User → M Error (List User)
list_candidates_for_new_project actor =
    list_users >>= λ all. return (keep (λ u. not (is_super u || is_self actor u.id)) all)
