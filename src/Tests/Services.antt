-- ===== src/Tests/Services.antt =====
-- Requests to the account services on a small instance.
use code_scout.Common.{
  refl, ok, ◌≡◌, true, false, List, [], ◌∷◌, ◌++◌, none, some, arith, codes, equal,
}
use code_scout.Domain.Access.{can_manage_account}
use code_scout.Domain.Roles.{
  maintainer, outranks, member, CreateMemberOpts, super_admin, admin, User,
}
use code_scout.Accounts.Database.{PersonalAccessToken, Tables, Db}
use code_scout.Accounts.Database.Rules.{Outcome}
use code_scout.Accounts.Outside.{Outside}
use code_scout.Accounts.Members.Progress.{reset_succeeds, delete_succeeds}
use code_scout.Accounts.Repos.Users.{first, has_id}
use code_scout.Accounts.Repos.Supers.{Sound}
use code_scout.Accounts.Members.Creating.{create_member}
use code_scout.Accounts.Members.Granted.Stored.{Created, create_member_lem}
use code_scout.Accounts.Members.Resetting.{reset_member_password}
use code_scout.Accounts.Members.Removing.{delete_member}
use code_scout.Accounts.Members.Atomic.{ResetDone, reset_member_password_lem}
use code_scout.Accounts.Members.Atomic.Removal.{erased, RemovalDone, delete_member_lem}
use code_scout.Accounts.TokenService.{authenticate}
use code_scout.Accounts.TokenService.Progress.{authenticate_succeeds}
use code_scout.Accounts.TokenService.Admission.{live_with, Admitted, authenticate_lem}
use code_scout.Accounts.Service.{Request, deletes, changes_role, serve_all, serve_all-Sound}
use code_scout.Tests.People.{person, upkeep}

abbrev tools : Outside
tools = record {
  parse_address = some;
  generate_hash = λ p. some (codes "#" ++ p);
  compare_hash = λ h p. equal h (codes "#" ++ p);
}

abbrev ada : User
ada = person 1 super_admin

abbrev bob : User
bob = record (person 2 admin) { email = codes "bob@example.org" }

abbrev bobs_token : PersonalAccessToken
bobs_token = record {
  id = 7;
  user_id = 2;
  name = codes "editor";
  token_hash = codes "csp_x";
  suffix = codes "sp_x";
  last_used_at = none;
  expires_at = some 50;
  revoked = false;
}

abbrev office : Tables
office = record {
  users = ada ∷ bob ∷ [];
  members = upkeep ∷ [];
  sessions = [];
  tokens = bobs_token ∷ [];
}

-- The second statement from here fails.
abbrev shaky : Db
shaky = record { tables = office; faults = false ∷ true ∷ [] }

abbrev calm : Db
calm = record { tables = office; faults = [] }

office-Sound : Sound office.users
office-Sound = ((((λ e. ground arith), tt), (tt, tt)), omega arith)

abbrev busy_day : List Request
busy_day = deletes (some ada) 1 ∷ changes_role (some ada) 2 super_admin ∷ deletes (some bob) 1 ∷ []

serve_all-Sound_example : Sound (serve_all tools busy_day shaky).tables.users
serve_all-Sound_example = serve_all-Sound tools busy_day shaky office-Sound

reset_member_password_lem_example :
    Outcome
      (ResetDone tools (some ada) 2 (codes "new") office)
      (λ ts. ts ≡ office)
      (reset_member_password tools (some ada) 2 (codes "new") shaky)
reset_member_password_lem_example = reset_member_password_lem tools (some ada) 2 (codes "new") shaky

delete_member_lem_example :
    Outcome
      (λ _. RemovalDone (some ada) 2 office)
      (λ ts. ts ≡ office)
      (delete_member (some ada) 2 calm)
delete_member_lem_example = delete_member_lem (some ada) 2 calm

authenticate_lem_example :
    Outcome
      (Admitted (λ p. p) 9 (codes "csp_x") office)
      (λ ts. ts ≡ office)
      (authenticate (λ p. p) 9 (codes "csp_x") calm)
authenticate_lem_example = authenticate_lem (λ p. p) 9 (codes "csp_x") calm

abbrev form : CreateMemberOpts
form = record {
  name = codes "Cy";
  email = codes "cy@example.org";
  role = member;
  projects = record { project_id = 3; level = maintainer } ∷ [];
}

create_member_lem_example :
    Outcome
      (Created bob (codes "temp") office)
      (λ ts. ts ≡ office)
      (create_member tools (some bob) form 5 (codes "temp") calm)
create_member_lem_example = create_member_lem tools bob form 5 (codes "temp") calm

bob_is_there : first (has_id 2) office.users ≡ some bob
bob_is_there = refl

ada_may : can_manage_account (some ada) (some bob) ≡ true
unfolding can_manage_account outranks
ada_may = refl

reset_succeeds_example :
    (reset_member_password tools
      (some ada)
      2
      (codes "new")
      (record { tables = office; faults = [] })).0
    ≡ ok (codes "new")
reset_succeeds_example =
    reset_succeeds tools (some ada) 2 (codes "new") (codes "#new") office bob bob_is_there ada_may
      refl

bobs_token_is_there : first (live_with (codes "csp_x")) office.tokens ≡ some bobs_token
unfolding equal
bobs_token_is_there = refl

authenticate_succeeds_example :
    (authenticate (λ p. p) 9 (codes "csp_x") (record { tables = office; faults = [] })).0 ≡ ok bob
authenticate_succeeds_example =
    authenticate_succeeds (λ p. p) 9 (codes "csp_x") office bobs_token bob refl bobs_token_is_there
      refl bob_is_there refl

delete_succeeds_example :
    ((delete_member (some ada) 2 (record { tables = office; faults = [] })).0 ≡ ok tt)
    × ((delete_member (some ada) 2 (record { tables = office; faults = [] })).1.tables
        ≡ erased 2 office)
delete_succeeds_example = delete_succeeds (some ada) 2 office bob bob_is_there refl ada_may
