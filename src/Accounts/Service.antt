-- ===== src/Accounts/Service.antt =====
-- Everything that the account services do to the database, one request after the other.
use code_scout.Common.{ℕ, List, [], ◌∷◌, Option, Result, Bytes}
use code_scout.Domain.Roles.{Role, ProjectLevel, User, CreateMemberOpts}
use code_scout.Accounts.Database.{Db, M}
use code_scout.Accounts.Database.Rules.{Outcome}
use code_scout.Accounts.Outside.{Outside}
use code_scout.Accounts.Repos.Supers.{Sound}
use code_scout.Accounts.Repos.Kept.{Accounted, Keeps}
use code_scout.Accounts.Members.Creating.{create_member}
use code_scout.Accounts.Members.Resetting.{reset_member_password}
use code_scout.Accounts.Members.Removing.{change_role, delete_member}
use code_scout.Accounts.Members.Projects.{set_project_access, remove_project_access}
use code_scout.Accounts.Members.Soundness.{change_role-Keeps, delete_member-Keeps}
use code_scout.Accounts.Members.Soundness.Creating.{
  create_member-Keeps, reset_member_password-Keeps, set_project_access-Keeps,
  remove_project_access-Keeps,
}
use code_scout.Accounts.AuthService.{
  AuthOpts, login_or_register, reset_password, change_password, logout, validate_session,
}
use code_scout.Accounts.SessionSoundness.{
  login_or_register-Keeps, reset_password-Keeps, change_password-Keeps, logout-Keeps,
  validate_session-Keeps,
}

-- A request, with the new ids, random texts and clock readings that its handling meets.
pub data Request : Type 0 where
  creates : Option User → CreateMemberOpts → ℕ → Bytes → Request
  resets : Option User → ℕ → Bytes → Request
  changes_role : Option User → ℕ → Role → Request
  deletes : Option User → ℕ → Request
  sets_access : Option User → ℕ → ℕ → ProjectLevel → Request
  removes_access : Option User → ℕ → ℕ → Request
  signs_in : ℕ → ℕ → Bytes → AuthOpts → Request
  resets_by_mail : Bytes → Bytes → Request
  changes_password : ℕ → Bytes → Option User → Bytes → Bytes → Bytes → Request
  signs_out : Bytes → Request
  validates : ℕ → ℕ → Bytes → Request

abbrev after : {E A : Type 0} → M E A → Db → Db
after m db = (m db).1

unfoldable pub serve : Outside → Request → Db → Db
serve o (creates actor opts id temp) = after (create_member o actor opts id temp)
serve o (resets actor id temp) = after (reset_member_password o actor id temp)
serve o (changes_role actor id role) = after (change_role actor id role)
serve o (deletes actor id) = after (delete_member actor id)
serve o (sets_access actor project id level) = after (set_project_access actor project id level)
serve o (removes_access actor project id) = after (remove_project_access actor project id)
serve o (signs_in now id token opts) = after (login_or_register o now id token opts)
serve o (resets_by_mail email temp) = after (reset_password o email temp)
serve o (changes_password now token user current next confirm) =
    after (change_password o now token user current next confirm)
serve o (signs_out token) = after (logout token)
serve o (validates now later token) = after (validate_session now later token)

unfoldable pub serve_all : Outside → List Request → Db → Db
serve_all o [] db = db
serve_all o (r ∷ rs) db = serve_all o rs (serve o r db)

Outcome-Sound :
    {E A : Type 0} (r : Result E A × Db)
    → Outcome (λ _. Accounted) Accounted r
    → Sound (r.1).tables.users
Outcome-Sound (Result.ok a, db) s = s
Outcome-Sound (Result.err e, db) s = s

after-Sound :
    {E A : Type 0} (m : M E A) (db : Db)
    → Keeps m
    → Sound db.tables.users
    → Sound (after m db).tables.users
after-Sound m db t s = Outcome-Sound (m db) (t.runs db s)

serve-Sound :
    (o : Outside) (r : Request) (db : Db)
    → Sound db.tables.users
    → Sound (serve o r db).tables.users
unfolding serve
serve-Sound o (creates actor opts id temp) db =
    after-Sound _ db (create_member-Keeps o actor opts id temp)
serve-Sound o (resets actor id temp) db =
    after-Sound _ db (reset_member_password-Keeps o actor id temp)
serve-Sound o (changes_role actor id role) db = after-Sound _ db (change_role-Keeps actor id role)
serve-Sound o (deletes actor id) db = after-Sound _ db (delete_member-Keeps actor id)
serve-Sound o (sets_access actor project id level) db =
    after-Sound _ db (set_project_access-Keeps actor project id level)
serve-Sound o (removes_access actor project id) db =
    after-Sound _ db (remove_project_access-Keeps actor project id)
serve-Sound o (signs_in now id token opts) db =
    after-Sound _ db (login_or_register-Keeps o now id token opts)
serve-Sound o (resets_by_mail email temp) db = after-Sound _ db (reset_password-Keeps o email temp)
serve-Sound o (changes_password now token user current next confirm) db =
    after-Sound _ db (change_password-Keeps o now token user current next confirm)
serve-Sound o (signs_out token) db = after-Sound _ db (logout-Keeps token)
serve-Sound o (validates now later token) db =
    after-Sound _ db (validate_session-Keeps now later token)

-- Once the accounts have distinct ids and a super admin among them, they have so for good: after any
-- requests to the member and sign-in services, one after the other, from whomever, whatever
-- statements fail in them and wherever a transaction breaks off.
pub serve_all-Sound :
    (o : Outside) (rs : List Request) (db : Db)
    → Sound db.tables.users
    → Sound (serve_all o rs db).tables.users
unfolding serve_all
serve_all-Sound o [] db s = s
serve_all-Sound o (r ∷ rs) db s = serve_all-Sound o rs (serve o r db) (serve-Sound o r db s)
