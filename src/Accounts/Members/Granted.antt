-- ===== src/Accounts/Members/Granted.antt =====
-- The projects that `CreateMember` of internal/services/member_service.go hands out.
pub mod Stored
use code_scout.Common.{
  trim_space, ℕ, ◌≡◌, ◌⊎◌, inl, inr, refl, sym, ◌∙◌, subst, ap, Bool, true, false, not, ◌||◌, List,
  [], ◌∷◌, ◌++◌, Option, none, some, Option-cases, Result, ok, err, arith, if◌then◌else◌,
  Bool-cases, any, All, Bytes,
}
use code_scout.Domain.Roles.{
  super_admin, role_eq, outranks, User, ProjectMember, ProjectAccess, ProjectAssignment,
  CreateMemberOpts,
}
use code_scout.Domain.Access.{no_access, resolve_project_access}
use code_scout.Accounts.Database.{
  Tables, Db, Error, not_found, record_not_found, last_super_admin, broken, Failure, M, return,
  ◌>>=◌, ◌>>◌, attempt, statement,
}
use code_scout.Accounts.Database.Rules.{
  Outcome, Triple, return-Triple, throw-Triple, if-Triple, weaken-Triple, conclude-Triple,
  given-Triple, bind-Triple, then-Triple, unless-Triple, or_else-Triple, attempt-Triple, Looked,
  look-Triple,
}
use code_scout.Accounts.Database.Statements.{statement-Triple, with_transaction-Triple}
use code_scout.Accounts.Outside.{Outside, normalize_email}
use code_scout.Accounts.Repos.Users.{first, has_id, has_email, create_user}
use code_scout.Accounts.Repos.Memberships.{is_membership, get_membership, upsert, set_membership}
use code_scout.Accounts.Repos.Kept.{get_by_email-Spares}
use code_scout.Accounts.Members.{access_by_row, resolve_access}
use code_scout.Accounts.Members.Creating.{
  is_skipped, grant_one, grant_each, set_each, new_member, store_member, create_hashed,
  create_addressed, create_member,
}
use code_scout.Accounts.Members.Atomic.{Does, then-Does}

-- The membership that the tables hold, and what the account may do by it.
abbrev pub may_manage : Tables → User → ℕ → Bool
may_manage t u project =
    (resolve_project_access (some u) (first (is_membership u.id project) t.members)).can_manage

get_membership-Triple :
    (user project : ℕ) (t : Tables)
    → Triple
        (λ ts. ts ≡ t)
        (get_membership user project)
        (λ m ts. (ts ≡ t) × (first (is_membership user project) ts.members ≡ some m))
        (λ ts. ts ≡ t)
unfolding get_membership
get_membership-Triple user project t =
    statement-Triple _ (λ ts p. p)
      λ ts p. elim (Option-cases (first (is_membership user project) ts.members)) [
        | inl none_there ↦ rw none_there p
        | inr (m, there) ↦ rw there (p, there)
      ]

-- Access that was read is either none, or what the tables say.
abbrev Read : Tables → User → ℕ → ProjectAccess → Tables → Type 0
Read t u project access ts =
    (ts ≡ t) × ((access.can_manage ≡ false) ⊎ (access.can_manage ≡ may_manage t u project))

access_by_row-Triple :
    (u : User) (project : ℕ) (r : Result Error ProjectMember) (t : Tables)
    → Triple
        (Looked
          (λ m ts. (ts ≡ t) × (first (is_membership u.id project) ts.members ≡ some m))
          (λ ts. ts ≡ t)
          r)
        (access_by_row u r)
        (Read t u project)
        (λ ts. ts ≡ t)
access_by_row-Triple u project (ok m) t =
    weaken-Triple
      (λ ts p. (
        p.0,
        inr (
            ap (λ x. (resolve_project_access (some u) x).can_manage)
              (sym (
                subst (λ us. first (is_membership u.id project) us ≡ some m)
                  (ap (λ x. x.members) p.0) p.1))),
      ))
      (λ ts p. p) (return-Triple _)
access_by_row-Triple u project (err not_found) t =
    weaken-Triple (λ ts p. (p, inl refl)) (λ ts p. p) (return-Triple _)
access_by_row-Triple u project (err record_not_found) t = throw-Triple _ (λ ts p. p)
access_by_row-Triple u project (err last_super_admin) t = throw-Triple _ (λ ts p. p)
access_by_row-Triple u project (err broken) t = throw-Triple _ (λ ts p. p)

top_manages :
    (u : User) (x : Option ProjectMember)
    → role_eq u.role super_admin ≡ true
    → (resolve_project_access (some u) x).can_manage ≡ true
unfolding resolve_project_access
top_manages u x h = ground arith

resolve_access-Triple :
    (u : User) (project : ℕ) (t : Tables)
    → Triple (λ ts. ts ≡ t) (resolve_access (some u) project) (Read t u project) (λ ts. ts ≡ t)
unfolding resolve_access
resolve_access-Triple u project t =
    if-Triple (role_eq u.role super_admin) (return (resolve_project_access (some u) none)) _
      (λ top.
        weaken-Triple (λ ts p. (p, inr (top_manages u none top ∙ sym (top_manages u _ top))))
          (λ ts p. p) (return-Triple (resolve_project_access (some u) none)))
      λ low.
        bind-Triple _ (look-Triple (get_membership-Triple u.id project t))
          λ r. access_by_row-Triple u project r t

-- Every assignment is of a project that the account manages.
abbrev pub AllManaged : Tables → User → List ProjectAssignment → Type 0
AllManaged t u = All (λ p. may_manage t u p.project_id ≡ true)

grant_one-Triple :
    (u : User) (p : ProjectAssignment) (again : M Failure (List ProjectAssignment)) (t : Tables)
    → Triple (λ ts. ts ≡ t) again (λ ps ts. (ts ≡ t) × AllManaged t u ps) (λ ts. ts ≡ t)
    → Triple
        (λ ts. ts ≡ t)
        (grant_one u p again)
        (λ ps ts. (ts ≡ t) × AllManaged t u ps)
        (λ ts. ts ≡ t)
unfolding grant_one
grant_one-Triple u p again t g =
    bind-Triple _ (or_else-Triple _ (resolve_access-Triple u p.project_id t)) λ access.
      unless-Triple _ _ (λ ts s. s.0)
        λ may. given-Triple λ read. bind-Triple _ g λ rest.
          weaken-Triple (λ ts s. (s.0, (ground arith, s.1))) (λ ts s. s) (return-Triple (p ∷ rest))

pub grant_each-Triple :
    (u : User) (ps : List ProjectAssignment) (t : Tables)
    → Triple (λ ts. ts ≡ t) (grant_each u ps) (λ qs ts. (ts ≡ t) × AllManaged t u qs) (λ ts. ts ≡ t)
unfolding grant_each
grant_each-Triple u [] t = weaken-Triple (λ ts p. (p, tt)) (λ ts p. p) (return-Triple [])
grant_each-Triple u (p ∷ ps) t =
    if-Triple (is_skipped p) (grant_each u ps) (grant_one u p (grant_each u ps))
      (λ skip. grant_each-Triple u ps t)
      λ asked. grant_one-Triple u p (grant_each u ps) t (grant_each-Triple u ps t)
