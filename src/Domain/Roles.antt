-- ===== src/Domain/Roles.antt =====
-- internal/domain/user.go: roles, project levels and accounts. Both `Role` and `ProjectLevel` are
-- strings there: the named constants, and any other text, which the code calls invalid. The times that
-- the database keeps of each row are left out.
use code_scout.Common.{ℕ, Bool, true, false, ◌||◌, List, [], Option, none, some, ltb, equal, Bytes}

pub data Role : Type 0 where
  super_admin admin member : Role
  other : Bytes → Role

abbrev pub role_eq : Role → Role → Bool
role_eq super_admin super_admin = true
role_eq admin admin = true
role_eq member member = true
role_eq (other a) (other b) = equal a b
role_eq _ _ = false

-- `Role.Valid`
abbrev pub role_valid : Role → Bool
role_valid (other _) = false
role_valid _ = true

-- A key that the map of `Outranks` does not have reads as 0.
abbrev pub rank : Role → ℕ
rank member = 1
rank admin = 2
rank super_admin = 3
rank (other _) = 0

-- `Role.Outranks`
unfoldable pub outranks : Role → Role → Bool
outranks r o = ltb (rank o) (rank r)

pub data ProjectLevel : Type 0 where
  viewer maintainer : ProjectLevel
  other : Bytes → ProjectLevel

abbrev pub no_level : ProjectLevel
no_level = ProjectLevel.other []

-- `ProjectLevel.Valid`
abbrev pub level_valid : ProjectLevel → Bool
level_valid (ProjectLevel.other _) = false
level_valid _ = true

abbrev pub is_maintainer : ProjectLevel → Bool
is_maintainer maintainer = true
is_maintainer _ = false

pub record User : Type 0 where
  pub id : ℕ
  pub name : Bytes
  pub email : Bytes
  pub role : Role
  pub password_hash : Bytes
  pub must_change_password : Bool

-- `(*User).CanCreateProjects`, whose receiver may be nil
abbrev pub can_create_projects : Option User → Bool
can_create_projects none = false
can_create_projects (some u) = role_eq u.role super_admin || role_eq u.role admin

pub record ProjectMember : Type 0 where
  pub user_id : ℕ
  pub project_id : ℕ
  pub level : ProjectLevel

pub record ProjectAccess : Type 0 where
  pub can_read : Bool
  pub can_manage : Bool
  pub can_delete : Bool
  pub level : ProjectLevel

pub record ProjectAssignment : Type 0 where
  pub project_id : ℕ
  pub level : ProjectLevel

pub record CreateMemberOpts : Type 0 where
  pub name : Bytes
  pub email : Bytes
  pub role : Role
  pub projects : List ProjectAssignment
