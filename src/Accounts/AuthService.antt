-- ===== src/Accounts/AuthService.antt =====
-- internal/services/auth_service.go: sign-in, the first account, passwords and web sessions. The
-- comparison that `login` makes for an unknown address, only to spend its time, is left out.
use code_scout.Common.{
  trim_space, is_empty, ℕ, ◌+◌, ◌*◌, Bool, true, false, not, Option, none, some, if◌then◌else◌,
  ◌==◌, ltb, length, Bytes, codes, equal,
}
use code_scout.Domain.LiveSession.{minute}
use code_scout.Domain.Roles.{super_admin, User}
use code_scout.Accounts.Database.{
  UserSession, Error, Failure, M, return, throw, ◌>>=◌, ◌>>◌, or_else, attempt, refuse_if,
}
use code_scout.Accounts.Outside.{Outside, normalize_email}
use code_scout.Accounts.Members.{failure, always}
use code_scout.Accounts.Repos.Users.{
  count_users, get_by_id, get_by_email, create_user, set_must_change_password, update_password_hash,
  delete_sessions_by_user, create_session_row, get_session_by_token, delete_session,
}

abbrev pub session_duration : ℕ
session_duration = 30 * (24 * (60 * minute))

pub record AuthOpts : Type 0 where
  pub name : Bytes
  pub email : Bytes
  pub password : Bytes
  pub confirm_password : Bytes

-- `createSession`. `token` is what `uuid.New()` returns.
unfoldable pub create_session : ℕ → Bytes → ℕ → M Failure Bytes
create_session now token user_id =
    or_else
      (create_session_row
        (record { user_id = user_id; token = token; expires_at = now + session_duration }))
      (always 500 (codes "Failed to create session"))
    >> return token

abbrev pub first_user : ℕ → Bytes → Bytes → Bytes → User
first_user id name email hash = record {
  id = id;
  name = name;
  email = email;
  role = super_admin;
  password_hash = hash;
  must_change_password = false;
}

-- `register` from the hash on.
unfoldable pub register_hashed :
    ℕ → ℕ → Bytes → Bytes → Bytes → Option Bytes → M Failure (Bytes × Bool)
register_hashed now id token name email none =
    throw (failure 500 (codes "Failed to process password"))
register_hashed now id token name email (some hash) =
    or_else (create_user (first_user id name email hash))
      (always 409 (codes "An account with that email already exists"))
    >> (create_session now token id >>= λ token. return (token, true))

-- `register`, on trimmed and normalised options.
unfoldable pub register : Outside → ℕ → ℕ → Bytes → AuthOpts → M Failure (Bytes × Bool)
register o now id token opts =
    refuse_if (is_empty opts.name) (failure 400 (codes "Name cannot be empty"))
    >> (refuse_if (not (equal opts.password opts.confirm_password))
          (failure 400 (codes "Passwords do not match"))
        >> register_hashed now id token opts.name opts.email (o.generate_hash opts.password))

-- `login`
unfoldable pub login : Outside → ℕ → Bytes → AuthOpts → M Failure (Bytes × Bool)
login o now token opts =
    or_else (get_by_email opts.email) (always 401 (codes "Invalid email or password")) >>= λ user.
    refuse_if (not (o.compare_hash user.password_hash opts.password))
      (failure 401 (codes "Invalid email or password"))
    >> (create_session now token user.id >>= λ token. return (token, false))

-- `IsFirstRun`
unfoldable pub is_first_run : M Error Bool
is_first_run = count_users >>= λ count. return (count == 0)

-- `LoginOrRegister` from the address on.
unfoldable pub enter : Outside → ℕ → ℕ → Bytes → AuthOpts → Option Bytes → M Failure (Bytes × Bool)
enter o now id token opts none = throw (failure 400 (codes "Enter a valid email address"))
enter o now id token opts (some email) =
    let clean = record opts { name = trim_space opts.name; email = email } in
    refuse_if (ltb (length opts.password) 6)
      (failure 400 (codes "Password must be at least 6 characters"))
    >> (or_else is_first_run (always 500 (codes "Invalid email or password")) >>= λ is_first.
        if is_first then register o now id token clean else login o now token clean)

-- `LoginOrRegister`; the Boolean says whether it registered.
unfoldable pub login_or_register : Outside → ℕ → ℕ → Bytes → AuthOpts → M Failure (Bytes × Bool)
login_or_register o now id token opts = enter o now id token opts (normalize_email o opts.email)

-- `ResetPassword` from the hash on.
unfoldable pub reset_hashed : ℕ → Bytes → Option Bytes → M Failure Bytes
reset_hashed id temp none = throw (failure 0 (codes "bcrypt"))
reset_hashed id temp (some hash) =
    or_else (update_password_hash id hash) (always 0 (codes "database"))
    >> (or_else (delete_sessions_by_user id) (always 0 (codes "database")) >> return temp)

-- `ResetPassword` from the address on.
unfoldable pub reset_addressed : Outside → Bytes → Option Bytes → M Failure Bytes
reset_addressed o temp none = throw (failure 0 (codes "invalid email address"))
reset_addressed o temp (some email) =
    or_else (get_by_email email) (always 0 (codes "no account found")) >>= λ user.
    reset_hashed user.id temp (o.generate_hash temp)

-- `ResetPassword`. Its errors have no status, and those of bcrypt and of the database are named by
-- where they come from; `temp` is what `GenerateRandomString` returns.
unfoldable pub reset_password : Outside → Bytes → Bytes → M Failure Bytes
reset_password o email temp = reset_addressed o temp (normalize_email o email)

-- `ChangePassword` from the hash on.
unfoldable pub change_hashed : ℕ → Bytes → ℕ → Option Bytes → M Failure Bytes
change_hashed now token id none = throw (failure 500 (codes "Failed to process password"))
change_hashed now token id (some hash) =
    or_else (update_password_hash id hash) (always 500 (codes "Failed to save the new password"))
    >> (or_else (set_must_change_password id false)
          (always 500 (codes "Failed to save the new password"))
        >> (or_else (delete_sessions_by_user id)
              (always 500 (codes "Failed to save the new password"))
            >> create_session now token id))

-- `ChangePassword`
unfoldable pub change_password :
    Outside → ℕ → Bytes → Option User → Bytes → Bytes → Bytes → M Failure Bytes
change_password o now token none current next confirm =
    throw (failure 401 (codes "Invalid email or password"))
change_password o now token (some user) current next confirm =
    refuse_if (not (o.compare_hash user.password_hash current))
      (failure 401 (codes "That is not your current password"))
    >> (refuse_if (ltb (length next) 6) (failure 400 (codes "Use at least 6 characters"))
        >> (refuse_if (not (equal next confirm)) (failure 400 (codes "Those two do not match"))
            >> (refuse_if (equal current next)
                  (failure 400 (codes "Pick something different from your current password"))
                >> change_hashed now token user.id (o.generate_hash next))))

-- `Logout`
unfoldable pub logout : Bytes → M Failure (Unit {0})
logout token = or_else (delete_session token) (always 500 (codes "Session not found or expired"))

-- `ValidateSession` on an expired session, which it deletes if it can.
unfoldable pub drop_expired : Bytes → M Failure User
drop_expired token =
    attempt (delete_session token) >>= λ _. throw (failure 401 (codes "Session has expired"))

unfoldable pub session_owner : UserSession → M Failure User
session_owner s = or_else (get_by_id s.user_id) (always 401 (codes "Session not found or expired"))

-- `ValidateSession` once the session is read; `now` is that of the second look at the clock.
unfoldable pub session_user : ℕ → Bytes → UserSession → M Failure User
session_user now token s = if ltb s.expires_at now then drop_expired token else session_owner s

-- `ValidateSession`
unfoldable pub validate_session : ℕ → ℕ → Bytes → M Failure User
validate_session now later token =
    or_else (get_session_by_token now token) (always 401 (codes "Session not found or expired"))
    >>= λ s. session_user later token s
