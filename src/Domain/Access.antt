-- ===== src/Domain/Access.antt =====
-- internal/domain/access.go: what an account may do in a project, and to another account.
use code_scout.Common.{
  ◌≡◌, ◌≢◌, ◌⊎◌, ◌↔◌, Bool, true, false, ◌&&◌, Option, none, some, arith, if◌then◌else◌, ◌==◌,
  ==_iff,
}
use code_scout.Domain.Roles.{
  Role, super_admin, admin, member, role_eq, outranks, is_maintainer, maintainer, no_level, User,
  ProjectMember, ProjectAccess,
}

abbrev pub no_access : ProjectAccess
no_access = record { can_read = false; can_manage = false; can_delete = false; level = no_level }

abbrev member_access : Role → ProjectMember → ProjectAccess
member_access role m = record {
  can_read = true;
  can_manage = is_maintainer m.level;
  can_delete = is_maintainer m.level && role_eq role admin;
  level = m.level;
}

-- `ResolveProjectAccess`
unfoldable pub resolve_project_access : Option User → Option ProjectMember → ProjectAccess
resolve_project_access none membership = no_access
resolve_project_access (some u) membership =
    if role_eq u.role super_admin
    then record { can_read = true; can_manage = true; can_delete = true; level = no_level }
    else elim membership [ none ↦ no_access | some m ↦ member_access u.role m ]

-- `CanManageAccount`
unfoldable pub can_manage_account : Option User → Option User → Bool
unfolding outranks
can_manage_account (some actor) (some target) =
    if actor.id == target.id then false else outranks actor.role target.role
can_manage_account _ _ = false

-- The membership is one of a maintainer.
abbrev pub Maintains : Option ProjectMember → Type 0
Maintains none = ⊥
Maintains (some m) = m.level ≡ maintainer

-- Access to a project: it may be read by a super admin and by everyone with a membership, and by
-- nobody else; managed by a super admin and by a maintainer; deleted by a super admin and by a
-- maintainer who is an admin of the instance.
pub resolve_project_access_lem :
    (u : User) (membership : Option ProjectMember)
    → let a = resolve_project_access (some u) membership in
      ((a.can_read ≡ true) ↔ ((u.role ≡ super_admin) ⊎ (membership ≢ none)))
      × ((a.can_manage ≡ true) ↔ ((u.role ≡ super_admin) ⊎ Maintains membership))
      × ((a.can_delete ≡ true)
          ↔ ((u.role ≡ super_admin) ⊎ (Maintains membership × (u.role ≡ admin))))
unfolding resolve_project_access
resolve_project_access_lem u none = ground arith
resolve_project_access_lem u (some m) = ground arith

-- Which roles stand above which: a super admin above all others, an admin above members, and each of
-- the three above a role that has no name.
abbrev pub Above : Role → Role → Type 0
Above super_admin super_admin = ⊥
Above super_admin _ = Unit
Above admin member = Unit
Above admin (Role.other _) = Unit
Above member (Role.other _) = Unit
Above _ _ = ⊥

outranks-Above : (r o : Role) → (outranks r o ≡ true) ↔ Above r o
unfolding outranks
outranks-Above super_admin super_admin = ground arith
outranks-Above super_admin admin = ground arith
outranks-Above super_admin member = ground arith
outranks-Above super_admin (Role.other _) = ground arith
outranks-Above admin super_admin = ground arith
outranks-Above admin admin = ground arith
outranks-Above admin member = ground arith
outranks-Above admin (Role.other _) = ground arith
outranks-Above member super_admin = ground arith
outranks-Above member admin = ground arith
outranks-Above member member = ground arith
outranks-Above member (Role.other _) = ground arith
outranks-Above (Role.other _) super_admin = ground arith
outranks-Above (Role.other _) admin = ground arith
outranks-Above (Role.other _) member = ground arith
outranks-Above (Role.other _) (Role.other _) = ground arith

-- An account manages another one exactly if it is not the same account and its role stands above the
-- other's: a super admin's above all others, an admin's above a member's, and each of these three above
-- a role that has no name. So nobody manages their own account, a peer's or a superior's, and of two
-- accounts at most one may manage the other.
pub can_manage_account_lem :
    (a b : User)
    → ((can_manage_account (some a) (some b) ≡ true) ↔ ((a.id ≢ b.id) × Above a.role b.role))
      × (¬ (
          (can_manage_account (some a) (some b) ≡ true)
          × (can_manage_account (some b) (some a) ≡ true)))
unfolding can_manage_account outranks
can_manage_account_lem a b = (
  ground (arith, outranks-Above a.role b.role, ==_iff a.id b.id),
  λ both. let (x, y) = both in ground (arith, x, y),
)
