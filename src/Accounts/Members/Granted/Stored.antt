-- ===== src/Accounts/Members/Granted/Stored.antt =====
-- The tables before and after `CreateMember` of internal/services/member_service.go.
use code_scout.Common.{
  trim_space, ℕ, ◌≡◌, inl, inr, refl, ap, true, ◌||◌, List, [], ◌∷◌, ◌++◌, Option, none, some,
  Option-cases, arith, Bool-cases, any, Bytes,
}
use code_scout.Domain.Roles.{outranks, User, ProjectMember, ProjectAssignment, CreateMemberOpts}
use code_scout.Accounts.Database.{Tables, Db}
use code_scout.Accounts.Database.Rules.{
  Outcome, Triple, return-Triple, throw-Triple, weaken-Triple, given-Triple, bind-Triple,
  then-Triple, unless-Triple, or_else-Triple, attempt-Triple,
}
use code_scout.Accounts.Database.Statements.{statement-Triple, with_transaction-Triple}
use code_scout.Accounts.Outside.{Outside, normalize_email}
use code_scout.Accounts.Repos.Users.{first, has_id, has_email, create_user, get_by_email}
use code_scout.Accounts.Repos.Memberships.{upsert, set_membership}
use code_scout.Accounts.Members.Creating.{
  set_each, new_member, store_member, create_hashed, create_addressed, create_member,
}
use code_scout.Accounts.Members.Atomic.{Does, then-Does}
use code_scout.Accounts.Members.Granted.{AllManaged, grant_each-Triple}

abbrev with_user : User → Tables → Tables
with_user u t = record t { users = t.users ++ u ∷ [] }

-- The memberships after the assignments are handed out, one after the other.
abbrev pub assign_all : ℕ → List ProjectAssignment → List ProjectMember → List ProjectMember
assign_all id [] ms = ms
assign_all id (p ∷ ps) ms =
    assign_all id ps
      (upsert (record { user_id = id; project_id = p.project_id; level = p.level }) ms)

abbrev with_members : ℕ → List ProjectAssignment → Tables → Tables
with_members id ps t = record t { members = assign_all id ps t.members }

create_user-Does : (u : User) → Does (with_user u) (create_user u)
unfolding Does create_user
create_user-Does u t =
    statement-Triple _ (λ ts p. tt)
      λ ts p. elim (Bool-cases (any (has_id u.id) ts.users || any (has_email u.email) ts.users)) [
        | inl taken ↦ rw taken tt
        | inr unused ↦ rw unused (ap (with_user u) p)
      ]

set_membership-Does :
    (id : ℕ) (p : ProjectAssignment)
    → Does (with_members id (p ∷ [])) (set_membership id p.project_id p.level)
unfolding Does set_membership
set_membership-Does id p t =
    statement-Triple _ (λ ts q. tt) (λ ts q. ap (with_members id (p ∷ [])) q)

set_each-Does : (id : ℕ) (ps : List ProjectAssignment) → Does (with_members id ps) (set_each id ps)
unfolding set_each Does
set_each-Does id [] t = return-Triple tt
set_each-Does id (p ∷ ps) t =
    then-Does (with_members id (p ∷ [])) (with_members id ps) _ _ (set_membership-Does id p)
      (set_each-Does id ps) t

-- The tables with a new account and its memberships.
abbrev pub joined_by : User → List ProjectAssignment → Tables → Tables
joined_by u ps t = record t { users = t.users ++ u ∷ []; members = assign_all u.id ps t.members }

store_member-Triple :
    (u : User) (ps : List ProjectAssignment) (t : Tables)
    → Triple (λ ts. ts ≡ t) (store_member u ps) (λ _ ts. ts ≡ joined_by u ps t) (λ ts. ts ≡ t)
unfolding store_member Does
store_member-Triple u ps t = or_else-Triple _ (
    with_transaction-Triple (λ ts p. p)
      (then-Does (with_user u) (with_members u.id ps) _ _ (create_user-Does u)
        (set_each-Does u.id ps) t))

-- The account that a creation gives back, with its one-time password.
abbrev pub Created : User → Bytes → Tables → User × Bytes → Tables → Type 0
Created actor temp t made ts =
    (outranks actor.role (made.0).role ≡ true)
    × ((made.0).must_change_password ≡ true)
    × (made.1 ≡ temp)
    × ((granted : List ProjectAssignment) × AllManaged t actor granted
        × (ts ≡ joined_by made.0 granted t))

create_hashed-Triple :
    (actor : User) (opts : CreateMemberOpts) (id : ℕ) (name email temp : Bytes)
    (hash : Option Bytes) (t : Tables)
    → outranks actor.role opts.role ≡ true
    → Triple
        (λ ts. ts ≡ t)
        (create_hashed actor opts id name email temp hash)
        (Created actor temp t)
        (λ ts. ts ≡ t)
unfolding create_hashed
create_hashed-Triple actor opts id name email temp none t below = throw-Triple _ (λ ts p. p)
create_hashed-Triple actor opts id name email temp (some hash) t below =
    bind-Triple _ (grant_each-Triple actor opts.projects t) λ granted. given-Triple λ managed.
      then-Triple _ (store_member-Triple (new_member id name email opts.role hash) granted t) (
        weaken-Triple (λ ts p. (below, refl, refl, (granted, managed, p))) (λ ts p. p)
          (return-Triple (new_member id name email opts.role hash, temp)))

get_by_email-Reads :
    (email : Bytes) (t : Tables)
    → Triple (λ ts. ts ≡ t) (get_by_email email) (λ _ ts. ts ≡ t) (λ ts. ts ≡ t)
unfolding get_by_email
get_by_email-Reads email t =
    statement-Triple _ (λ ts p. p)
      λ ts p. elim (Option-cases (first (has_email email) ts.users)) [
        | inl none_there ↦ rw none_there p
        | inr (u, there) ↦ rw there p
      ]

create_addressed-Triple :
    (o : Outside) (actor : User) (opts : CreateMemberOpts) (id : ℕ) (temp : Bytes)
    (email : Option Bytes) (t : Tables)
    → outranks actor.role opts.role ≡ true
    → Triple
        (λ ts. ts ≡ t)
        (create_addressed o actor opts id temp email)
        (Created actor temp t)
        (λ ts. ts ≡ t)
unfolding create_addressed
create_addressed-Triple o actor opts id temp none t below = throw-Triple _ (λ ts p. p)
create_addressed-Triple o actor opts id temp (some email) t below =
    unless-Triple _ _ (λ ts p. p)
      λ named. bind-Triple _ (attempt-Triple (get_by_email-Reads email t)) λ existing.
        unless-Triple _ _ (λ ts p. p)
          λ unused. create_hashed-Triple actor opts id (trim_space opts.name) email temp _ t below

create_member-Triple :
    (o : Outside) (actor : User) (opts : CreateMemberOpts) (id : ℕ) (temp : Bytes) (t : Tables)
    → Triple
        (λ ts. ts ≡ t)
        (create_member o (some actor) opts id temp)
        (Created actor temp t)
        (λ ts. ts ≡ t)
unfolding create_member
create_member-Triple o actor opts id temp t =
    unless-Triple _ _ (λ ts p. p)
      λ may.
        unless-Triple _ _ (λ ts p. p)
          λ valid.
            unless-Triple _ _ (λ ts p. p)
              λ below.
                create_addressed-Triple o actor opts id temp (normalize_email o opts.email) t
                  (ground arith)

-- A creation that succeeds adds one account, of a role below the actor's, with a password that must
-- be changed, and memberships of projects that the actor manages, whatever the form asked for, and
-- changes nothing else. One that fails, at whatever statement, changes nothing.
pub create_member_lem :
    (o : Outside) (actor : User) (opts : CreateMemberOpts) (id : ℕ) (temp : Bytes) (db : Db)
    → Outcome
        (Created actor temp db.tables)
        (λ ts. ts ≡ db.tables)
        (create_member o (some actor) opts id temp db)
create_member_lem o actor opts id temp db =
    (create_member-Triple o actor opts id temp db.tables).runs db refl
