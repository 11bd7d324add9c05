-- ===== src/Accounts/Members/Creating.antt =====
-- `CreateMember` of internal/services/member_service.go.
use code_scout.Common.{
  trim_space, is_empty, ℕ, Bool, true, false, not, ◌||◌, List, [], ◌∷◌, Option, none, some, Result,
  ok, err, if◌then◌else◌, ◌==◌, Bytes, codes,
}
use code_scout.Domain.Roles.{
  Role, role_valid, outranks, level_valid, User, can_create_projects, ProjectAssignment,
  CreateMemberOpts,
}
use code_scout.Accounts.Database.{
  Error, Failure, M, return, throw, ◌>>=◌, ◌>>◌, or_else, attempt, refuse_if, with_transaction,
}
use code_scout.Accounts.Outside.{Outside, normalize_email}
use code_scout.Accounts.Repos.Users.{get_by_email, create_user}
use code_scout.Accounts.Repos.Memberships.{set_membership}
use code_scout.Accounts.Members.{failure, always, resolve_access}

-- The assignments that the loop over `opts.Projects` passes over. The nil id is 0.
abbrev pub is_skipped : ProjectAssignment → Bool
is_skipped p = p.project_id == 0 || not (level_valid p.level)

-- The rest of one round, `again` being the rounds behind it.
unfoldable pub grant_one :
    User
    → ProjectAssignment
    → M Failure (List ProjectAssignment)
    → M Failure (List ProjectAssignment)
grant_one actor p again =
    or_else (resolve_access (some actor) p.project_id)
      (always 500 (codes "Could not check project access"))
    >>= λ access.
        refuse_if (not access.can_manage)
          (failure 403 (codes "You cannot grant access to a project you do not manage"))
        >> (again >>= λ rest. return (p ∷ rest))

-- The loop over `opts.Projects`: the assignments that the actor may hand out.
unfoldable pub grant_each : User → List ProjectAssignment → M Failure (List ProjectAssignment)
grant_each actor [] = return []
grant_each actor (p ∷ ps) =
    let again = grant_each actor ps in if is_skipped p then again else grant_one actor p again

unfoldable pub set_each : ℕ → List ProjectAssignment → M Error (Unit {0})
set_each id [] = return tt
set_each id (p ∷ ps) = set_membership id p.project_id p.level >> set_each id ps

abbrev pub new_member : ℕ → Bytes → Bytes → Role → Bytes → User
new_member id name email role hash = record {
  id = id;
  name = name;
  email = email;
  role = role;
  password_hash = hash;
  must_change_password = true;
}

abbrev pub is_ok {ℓ κ} : {E : Type ℓ} {A : Type κ} → Result E A → Bool
is_ok (ok _) = true
is_ok (err _) = false

-- The transaction of `CreateMember`.
unfoldable pub store_member : User → List ProjectAssignment → M Failure (Unit {0})
store_member user granted =
    or_else (with_transaction (create_user user >> set_each user.id granted))
      (always 500 (codes "Could not create the account"))

-- `CreateMember` from the hash on.
unfoldable pub create_hashed :
    User → CreateMemberOpts → ℕ → Bytes → Bytes → Bytes → Option Bytes → M Failure (User × Bytes)
create_hashed actor opts id name email temp none =
    throw (failure 500 (codes "Could not create the account"))
create_hashed actor opts id name email temp (some hash) =
    grant_each actor opts.projects >>= λ granted.
    store_member (new_member id name email opts.role hash) granted
    >> return (new_member id name email opts.role hash, temp)

-- `CreateMember` from the address on.
unfoldable pub create_addressed :
    Outside → User → CreateMemberOpts → ℕ → Bytes → Option Bytes → M Failure (User × Bytes)
create_addressed o actor opts id temp none =
    throw (failure 400 (codes "Enter a valid email address"))
create_addressed o actor opts id temp (some email) =
    refuse_if (is_empty (trim_space opts.name)) (failure 400 (codes "Name cannot be empty"))
    >> (attempt (get_by_email email) >>= λ existing.
        refuse_if (is_ok existing) (failure 409 (codes "An account with that email already exists"))
        >> create_hashed actor opts id (trim_space opts.name) email temp (o.generate_hash temp))

-- `CreateMember`. `temp` is what `GenerateRandomString` returns, `id` the id of the new row.
unfoldable pub create_member :
    Outside → Option User → CreateMemberOpts → ℕ → Bytes → M Failure (User × Bytes)
create_member o none opts id temp = throw (failure 403 (codes "You cannot add members"))
create_member o (some actor) opts id temp =
    refuse_if (not (can_create_projects (some actor)))
      (failure 403 (codes "You cannot add members"))
    >> (refuse_if (not (role_valid opts.role)) (failure 400 (codes "Unknown role"))
        >> (refuse_if (not (outranks actor.role opts.role))
              (failure 403 (codes "You cannot create an account with that role"))
            >> create_addressed o actor opts id temp (normalize_email o opts.email)))
