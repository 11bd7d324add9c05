-- ===== src/Accounts/Repos/Memberships.antt =====
-- internal/adapters/db/member_repo.go. The index on `user_id` and `project_id` is unique.
use code_scout.Common.{ℕ, Bool, not, ◌&&◌, List, [], ◌∷◌, ok, if◌then◌else◌, ◌==◌, any, keep}
use code_scout.Domain.Roles.{ProjectLevel, ProjectMember}
use code_scout.Accounts.Database.{Error, not_found, M, statement}
use code_scout.Accounts.Repos.Users.{first, found, has_id}

abbrev pub is_membership : ℕ → ℕ → ProjectMember → Bool
is_membership user project m = m.user_id == user && m.project_id == project

-- `GetMembership`
unfoldable pub get_membership : ℕ → ℕ → M Error ProjectMember
get_membership user project =
    statement λ ts. found not_found ts (first (is_membership user project) ts.members)

-- An insert that becomes an update of the row it conflicts with.
unfoldable pub upsert : ProjectMember → List ProjectMember → List ProjectMember
upsert new [] = new ∷ []
upsert new (m ∷ ms) =
    let rest = upsert new ms in
    if is_membership new.user_id new.project_id m
    then record m { level = new.level } ∷ ms
    else m ∷ rest

-- `SetMembership`
unfoldable pub set_membership : ℕ → ℕ → ProjectLevel → M Error (Unit {0})
set_membership user project level = statement λ ts. ok (
  tt,
  record ts {
    members = upsert (record { user_id = user; project_id = project; level = level }) ts.members;
  },
)

-- `RemoveMembership`
unfoldable pub remove_membership : ℕ → ℕ → M Error (Unit {0})
remove_membership user project =
    statement λ ts.
      ok (tt, record ts { members = keep (λ m. not (is_membership user project m)) ts.members })

-- `ListProjectMembers`: the rows whose account exists, without the columns and the order that are
-- in an order that no caller relies on.
unfoldable pub list_project_members : ℕ → M Error (List ProjectMember)
list_project_members project =
    statement λ ts.
      ok (keep (λ m. m.project_id == project && any (has_id m.user_id) ts.users) ts.members, ts)

-- `RemoveAllForUser`
unfoldable pub remove_all_for_user : ℕ → M Error (Unit {0})
remove_all_for_user user =
    statement λ ts. ok (tt, record ts { members = keep (λ m. not (m.user_id == user)) ts.members })
