-- ===== src/Accounts/Members/Soundness/Creating.antt =====
-- Super admins through the other operations of internal/services/member_service.go.
use code_scout.Common.{
  trim_space, ℕ, true, List, [], ◌∷◌, Option, none, some, Result, ok, err, Bytes,
}
use code_scout.Domain.Roles.{
  super_admin, role_eq, ProjectLevel, User, ProjectMember, ProjectAssignment, CreateMemberOpts,
}
use code_scout.Domain.Access.{resolve_project_access}
use code_scout.Accounts.Database.{
  Error, not_found, record_not_found, last_super_admin, broken, Failure, M, return,
}
use code_scout.Accounts.Database.Rules.{
  return-Triple, throw-Triple, if-Triple, weaken-Triple, bind-Triple, then-Triple, unless-Triple,
  refuse_if-Triple, or_else-Triple, attempt-Triple,
}
use code_scout.Accounts.Database.Statements.{with_transaction-Triple}
use code_scout.Accounts.Outside.{Outside, normalize_email}
use code_scout.Accounts.Repos.Supers.{Sound}
use code_scout.Accounts.Repos.Kept.{
  Accounted, Keeps, get_by_email-Spares, get_membership-Spares, set_membership-Spares,
  remove_membership-Spares, delete_sessions_by_user-Spares, delete_by_user-Spares, get_by_id-Triple,
  update_password_hash-Keeps, set_must_change_password-Keeps, create_user-Keeps,
}
use code_scout.Accounts.Members.{access_by_row, resolve_access, require_manage}
use code_scout.Accounts.Members.Creating.{
  is_skipped, grant_one, grant_each, set_each, store_member, create_hashed, create_addressed,
  create_member,
}
use code_scout.Accounts.Members.Resetting.{reset_account, reset_to, reset_member_password}
use code_scout.Accounts.Members.Projects.{set_project_access, remove_project_access}

access_by_row-Keeps : (u : User) (r : Result Error ProjectMember) → Keeps (access_by_row u r)
access_by_row-Keeps u (ok m) = return-Triple _
access_by_row-Keeps u (err not_found) = return-Triple _
access_by_row-Keeps u (err record_not_found) = throw-Triple _ (λ ts s. s)
access_by_row-Keeps u (err last_super_admin) = throw-Triple _ (λ ts s. s)
access_by_row-Keeps u (err broken) = throw-Triple _ (λ ts s. s)

pub resolve_access-Keeps :
    (actor : Option User) (project : ℕ) → Keeps (resolve_access actor project)
unfolding resolve_access
resolve_access-Keeps none project = return-Triple _
resolve_access-Keeps (some u) project =
    if-Triple (role_eq u.role super_admin) (return (resolve_project_access (some u) none)) _
      (λ top. return-Triple (resolve_project_access (some u) none))
      λ low.
        bind-Triple _ (attempt-Triple (get_membership-Spares Sound u.id project))
          λ r. access_by_row-Keeps u r

pub require_manage-Keeps :
    (actor : Option User) (project : ℕ) → Keeps (require_manage actor project)
unfolding require_manage
require_manage-Keeps actor project =
    bind-Triple _ (or_else-Triple _ (resolve_access-Keeps actor project))
      λ access. unless-Triple _ _ (λ ts s. s) λ may. refuse_if-Triple _ _ (λ ts s. s)

grant_one-Keeps :
    (actor : User) (p : ProjectAssignment) (again : M Failure (List ProjectAssignment))
    → Keeps again
    → Keeps (grant_one actor p again)
unfolding grant_one
grant_one-Keeps actor p again t =
    bind-Triple _ (or_else-Triple _ (resolve_access-Keeps (some actor) p.project_id))
      λ access. unless-Triple _ _ (λ ts s. s) λ may. bind-Triple _ t λ rest. return-Triple _

grant_each-Keeps : (actor : User) (ps : List ProjectAssignment) → Keeps (grant_each actor ps)
unfolding grant_each
grant_each-Keeps actor [] = return-Triple _
grant_each-Keeps actor (p ∷ ps) =
    if-Triple (is_skipped p) (grant_each actor ps) (grant_one actor p (grant_each actor ps))
      (λ skip. grant_each-Keeps actor ps)
      λ asked. grant_one-Keeps actor p (grant_each actor ps) (grant_each-Keeps actor ps)

set_each-Keeps : (id : ℕ) (ps : List ProjectAssignment) → Keeps (set_each id ps)
unfolding set_each
set_each-Keeps id [] = return-Triple tt
set_each-Keeps id (p ∷ ps) =
    then-Triple Accounted (set_membership-Spares Sound id p.project_id p.level)
      (set_each-Keeps id ps)

store_member-Keeps : (u : User) (ps : List ProjectAssignment) → Keeps (store_member u ps)
unfolding store_member
store_member-Keeps u ps = or_else-Triple _ (
    with_transaction-Triple (λ ts s. s)
      (weaken-Triple (λ ts s. s) (λ ts s. tt)
        (then-Triple Accounted (create_user-Keeps u) (set_each-Keeps u.id ps))))

create_hashed-Keeps :
    (actor : User) (opts : CreateMemberOpts) (id : ℕ) (name email temp : Bytes)
    (hash : Option Bytes)
    → Keeps (create_hashed actor opts id name email temp hash)
unfolding create_hashed
create_hashed-Keeps actor opts id name email temp none = throw-Triple _ (λ ts s. s)
create_hashed-Keeps actor opts id name email temp (some hash) =
    bind-Triple _ (grant_each-Keeps actor opts.projects)
      λ granted. then-Triple Accounted (store_member-Keeps _ granted) (return-Triple _)

create_addressed-Keeps :
    (o : Outside) (actor : User) (opts : CreateMemberOpts) (id : ℕ) (temp : Bytes)
    (email : Option Bytes)
    → Keeps (create_addressed o actor opts id temp email)
unfolding create_addressed
create_addressed-Keeps o actor opts id temp none = throw-Triple _ (λ ts s. s)
create_addressed-Keeps o actor opts id temp (some email) =
    unless-Triple _ _ (λ ts s. s)
      λ named. bind-Triple _ (attempt-Triple (get_by_email-Spares Sound email)) λ existing.
        unless-Triple _ _ (λ ts s. s)
          λ unused. create_hashed-Keeps actor opts id (trim_space opts.name) email temp _

pub create_member-Keeps :
    (o : Outside) (actor : Option User) (opts : CreateMemberOpts) (id : ℕ) (temp : Bytes)
    → Keeps (create_member o actor opts id temp)
unfolding create_member
create_member-Keeps o none opts id temp = throw-Triple _ (λ ts s. s)
create_member-Keeps o (some actor) opts id temp =
    unless-Triple _ _ (λ ts s. s)
      λ may.
        unless-Triple _ _ (λ ts s. s)
          λ valid.
            unless-Triple _ _ (λ ts s. s)
              λ below. create_addressed-Keeps o actor opts id temp (normalize_email o opts.email)

reset_account-Keeps : (id : ℕ) (hash : Bytes) → Keeps (reset_account id hash)
unfolding reset_account
reset_account-Keeps id hash =
    with_transaction-Triple (λ ts s. s)
      (weaken-Triple (λ ts s. s) (λ ts s. tt)
        (then-Triple Accounted (update_password_hash-Keeps id hash) (
          then-Triple Accounted (set_must_change_password-Keeps id true) (
            then-Triple Accounted (delete_sessions_by_user-Spares Sound id)
              (delete_by_user-Spares Sound id)))))

reset_to-Keeps :
    (id : ℕ) (password : Bytes) (hash : Option Bytes) → Keeps (reset_to id password hash)
reset_to-Keeps id password none = throw-Triple _ (λ ts s. s)
reset_to-Keeps id password (some hash) =
    then-Triple Accounted (reset_account-Keeps id hash) (return-Triple _)

pub reset_member_password-Keeps :
    (o : Outside) (actor : Option User) (id : ℕ) (password : Bytes)
    → Keeps (reset_member_password o actor id password)
unfolding reset_member_password
reset_member_password-Keeps o actor id password =
    bind-Triple _ (or_else-Triple _ (get_by_id-Triple id)) λ t.
      unless-Triple _ _ (λ ts s. s.0)
        λ may. or_else-Triple _ (
          weaken-Triple (λ ts s. s.0) (λ ts s. s)
            (reset_to-Keeps t.id password (o.generate_hash password)))

pub set_project_access-Keeps :
    (actor : Option User) (project id : ℕ) (level : ProjectLevel)
    → Keeps (set_project_access actor project id level)
unfolding set_project_access
set_project_access-Keeps actor project id level =
    unless-Triple _ _ (λ ts s. s)
      λ valid. then-Triple Accounted (require_manage-Keeps actor project) (
        bind-Triple _ (or_else-Triple _ (get_by_id-Triple id)) λ t.
          unless-Triple _ _ (λ ts s. s.0)
            λ low. or_else-Triple _ (
              weaken-Triple (λ ts s. s.0) (λ ts s. s)
                (set_membership-Spares Sound id project level)))

pub remove_project_access-Keeps :
    (actor : Option User) (project id : ℕ) → Keeps (remove_project_access actor project id)
unfolding remove_project_access
remove_project_access-Keeps actor project id =
    then-Triple Accounted (require_manage-Keeps actor project) (
      unless-Triple _ _ (λ ts s. s)
        λ another. or_else-Triple _ (remove_membership-Spares Sound id project))
