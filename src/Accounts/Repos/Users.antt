-- ===== src/Accounts/Repos/Users.antt =====
-- internal/adapters/db/user_repo.go. `email` and `id` are unique in the table, so a row is found by
-- either as the first of the list.
use code_scout.Common.{
  ℕ, Bool, not, ◌||◌, ◌&&◌, List, [], ◌∷◌, ◌++◌, Option, none, some, Result, ok, err, if◌then◌else◌,
  ◌==◌, ltb, any, keep, length, Bytes, equal,
}
use code_scout.Domain.Roles.{Role, super_admin, role_eq, User}
use code_scout.Accounts.Database.{
  UserSession, Tables, Error, record_not_found, not_found, broken, M, statement,
}

-- `First`
abbrev pub first {ℓ} : {A : Type ℓ} → (A → Bool) → List A → Option A
first p [] = none
first p (x ∷ xs) = if p x then some x else first p xs

abbrev pub found : {A : Type 0} → Error → Tables → Option A → Result Error (A × Tables)
found e ts none = err e
found e ts (some a) = ok (a, ts)

abbrev pub has_id : ℕ → User → Bool
has_id id u = u.id == id

abbrev pub has_email : Bytes → User → Bool
has_email email u = equal u.email email

abbrev pub is_super : User → Bool
is_super u = role_eq u.role super_admin

-- `UPDATE users SET … WHERE id = …`
unfoldable pub on_user : ℕ → (User → User) → List User → List User
on_user id f [] = []
on_user id f (u ∷ us) = let rest = on_user id f us in if has_id id u then f u ∷ rest else u ∷ rest

-- An update that fails with `e` if it met no row.
abbrev pub update_user : Error → ℕ → (User → User) → Tables → Result Error (Unit {0} × Tables)
update_user e id f ts =
    if any (has_id id) ts.users then ok (tt, record ts { users = on_user id f ts.users }) else err e

-- `Count`
unfoldable pub count_users : M Error ℕ
count_users = statement λ ts. ok (length ts.users, ts)

-- `GetByID`
unfoldable pub get_by_id : ℕ → M Error User
get_by_id id = statement λ ts. found record_not_found ts (first (has_id id) ts.users)

-- `GetByEmail`
unfoldable pub get_by_email : Bytes → M Error User
get_by_email email = statement λ ts. found record_not_found ts (first (has_email email) ts.users)

-- What `Create` does of a row: the primary key and the index on `email` are unique.
abbrev pub insert_user : User → Tables → Result Error (Unit {0} × Tables)
insert_user u ts =
    if any (has_id u.id) ts.users || any (has_email u.email) ts.users
    then err broken
    else ok (tt, record ts { users = ts.users ++ u ∷ [] })

-- `Create`; the database's choice of an id is in the row already.
unfoldable pub create_user : User → M Error (Unit {0})
create_user u = statement (insert_user u)

-- `List`, without its order, which is for display.
unfoldable pub list_users : M Error (List User)
list_users = statement λ ts. ok (ts.users, ts)

-- `CountSuperAdminsForUpdate`
unfoldable pub count_super_admins_for_update : M Error ℕ
count_super_admins_for_update = statement λ ts. ok (length (keep is_super ts.users), ts)

-- `UpdateRole`
unfoldable pub update_role : ℕ → Role → M Error (Unit {0})
update_role id role = statement (update_user not_found id λ u. record u { role = role })

-- `SetMustChangePassword`, which does not ask whether there was a row
unfoldable pub set_must_change_password : ℕ → Bool → M Error (Unit {0})
set_must_change_password id must = statement λ ts.
    ok (
      tt,
      record ts { users = on_user id (λ u. record u { must_change_password = must }) ts.users },
    )

-- `UpdatePasswordHash`
unfoldable pub update_password_hash : ℕ → Bytes → M Error (Unit {0})
update_password_hash id hash =
    statement (update_user record_not_found id λ u. record u { password_hash = hash })

abbrev pub remove_user : ℕ → Tables → Result Error (Unit {0} × Tables)
remove_user id ts =
    if any (has_id id) ts.users
    then ok (tt, record ts { users = keep (λ u. not (has_id id u)) ts.users })
    else err not_found

-- `Delete`
unfoldable pub delete_user : ℕ → M Error (Unit {0})
delete_user id = statement (remove_user id)

abbrev pub is_session_of : ℕ → UserSession → Bool
is_session_of id s = s.user_id == id

-- `DeleteSessionsByUserID`
unfoldable pub delete_sessions_by_user : ℕ → M Error (Unit {0})
delete_sessions_by_user id =
    statement
      λ ts. ok (tt, record ts { sessions = keep (λ s. not (is_session_of id s)) ts.sessions })

-- `CreateSession`; `token` is unique.
unfoldable pub create_session_row : UserSession → M Error (Unit {0})
create_session_row s = statement λ ts.
    if any (λ t. equal t.token s.token) ts.sessions
    then err broken
    else ok (tt, record ts { sessions = ts.sessions ++ s ∷ [] })

-- `GetSessionByToken`
unfoldable pub get_session_by_token : ℕ → Bytes → M Error UserSession
get_session_by_token now token = statement λ ts.
    found record_not_found ts (first (λ s. equal s.token token && ltb now s.expires_at) ts.sessions)

-- `DeleteSession`
unfoldable pub delete_session : Bytes → M Error (Unit {0})
delete_session token =
    statement
      λ ts. ok (tt, record ts { sessions = keep (λ s. not (equal s.token token)) ts.sessions })
