-- ===== src/Accounts/SessionSoundness.antt =====
-- Super admins through the operations of internal/services/auth_service.go.
use code_scout.Common.{ℕ, false, Option, none, some, ltb, Bytes}
use code_scout.Domain.Roles.{User}
use code_scout.Accounts.Database.{UserSession}
use code_scout.Accounts.Database.Rules.{
  return-Triple, throw-Triple, if-Triple, first-Triple, bind-Triple, then-Triple, unless-Triple,
  or_else-Triple, attempt-Triple,
}
use code_scout.Accounts.Outside.{Outside}
use code_scout.Accounts.Repos.Supers.{Sound}
use code_scout.Accounts.Repos.Kept.{
  Accounted, Keeps, get_by_email-Spares, get_by_id-Triple, count_users-Triple, create_user-Keeps,
  update_password_hash-Keeps, set_must_change_password-Keeps, delete_sessions_by_user-Spares,
  create_session_row-Spares, get_session_by_token-Spares, delete_session-Spares,
}
use code_scout.Accounts.AuthService.{
  AuthOpts, create_session, register_hashed, register, login, is_first_run, enter,
  login_or_register, reset_hashed, reset_addressed, reset_password, change_hashed, change_password,
  logout, drop_expired, session_owner, session_user, validate_session,
}

create_session-Keeps : (now : ℕ) (token : Bytes) (id : ℕ) → Keeps (create_session now token id)
unfolding create_session
create_session-Keeps now token id =
    then-Triple Accounted (or_else-Triple _ (create_session_row-Spares Sound _)) (return-Triple _)

register_hashed-Keeps :
    (now id : ℕ) (token name email : Bytes) (hash : Option Bytes)
    → Keeps (register_hashed now id token name email hash)
unfolding register_hashed
register_hashed-Keeps now id token name email none = throw-Triple _ (λ ts s. s)
register_hashed-Keeps now id token name email (some hash) =
    then-Triple Accounted (or_else-Triple _ (create_user-Keeps _))
      (bind-Triple _ (create_session-Keeps now token id) λ t. return-Triple _)

register-Keeps :
    (o : Outside) (now id : ℕ) (token : Bytes) (opts : AuthOpts)
    → Keeps (register o now id token opts)
unfolding register
register-Keeps o now id token opts =
    unless-Triple _ _ (λ ts s. s)
      λ named.
        unless-Triple _ _ (λ ts s. s)
          λ same.
            register_hashed-Keeps now id token opts.name opts.email (o.generate_hash opts.password)

login-Keeps :
    (o : Outside) (now : ℕ) (token : Bytes) (opts : AuthOpts) → Keeps (login o now token opts)
unfolding login
login-Keeps o now token opts =
    bind-Triple _ (or_else-Triple _ (get_by_email-Spares Sound opts.email)) λ u.
      unless-Triple _ _ (λ ts s. s)
        λ right. bind-Triple _ (create_session-Keeps now token u.id) λ t. return-Triple _

is_first_run-Keeps : Keeps is_first_run
unfolding is_first_run
is_first_run-Keeps =
    bind-Triple (λ _. Accounted) (first-Triple count_users-Triple) λ n. return-Triple _

enter-Keeps :
    (o : Outside) (now id : ℕ) (token : Bytes) (opts : AuthOpts) (email : Option Bytes)
    → Keeps (enter o now id token opts email)
unfolding enter
enter-Keeps o now id token opts none = throw-Triple _ (λ ts s. s)
enter-Keeps o now id token opts (some email) =
    unless-Triple _ _ (λ ts s. s)
      λ long. bind-Triple _ (or_else-Triple _ is_first_run-Keeps) λ is_first.
        if-Triple is_first _ _ (λ yes. register-Keeps o now id token _)
          (λ no. login-Keeps o now token _)

pub login_or_register-Keeps :
    (o : Outside) (now id : ℕ) (token : Bytes) (opts : AuthOpts)
    → Keeps (login_or_register o now id token opts)
unfolding login_or_register
login_or_register-Keeps o now id token opts = enter-Keeps o now id token opts _

reset_hashed-Keeps :
    (id : ℕ) (temp : Bytes) (hash : Option Bytes) → Keeps (reset_hashed id temp hash)
unfolding reset_hashed
reset_hashed-Keeps id temp none = throw-Triple _ (λ ts s. s)
reset_hashed-Keeps id temp (some hash) =
    then-Triple Accounted (or_else-Triple _ (update_password_hash-Keeps id hash)) (
      then-Triple Accounted (or_else-Triple _ (delete_sessions_by_user-Spares Sound id))
        (return-Triple _))

reset_addressed-Keeps :
    (o : Outside) (temp : Bytes) (email : Option Bytes) → Keeps (reset_addressed o temp email)
unfolding reset_addressed
reset_addressed-Keeps o temp none = throw-Triple _ (λ ts s. s)
reset_addressed-Keeps o temp (some email) =
    bind-Triple _ (or_else-Triple _ (get_by_email-Spares Sound email))
      λ u. reset_hashed-Keeps u.id temp (o.generate_hash temp)

pub reset_password-Keeps : (o : Outside) (email temp : Bytes) → Keeps (reset_password o email temp)
unfolding reset_password
reset_password-Keeps o email temp = reset_addressed-Keeps o temp _

change_hashed-Keeps :
    (now : ℕ) (token : Bytes) (id : ℕ) (hash : Option Bytes)
    → Keeps (change_hashed now token id hash)
unfolding change_hashed
change_hashed-Keeps now token id none = throw-Triple _ (λ ts s. s)
change_hashed-Keeps now token id (some hash) =
    then-Triple Accounted (or_else-Triple _ (update_password_hash-Keeps id hash)) (
      then-Triple Accounted (or_else-Triple _ (set_must_change_password-Keeps id false)) (
        then-Triple Accounted (or_else-Triple _ (delete_sessions_by_user-Spares Sound id))
          (create_session-Keeps now token id)))

pub change_password-Keeps :
    (o : Outside) (now : ℕ) (token : Bytes) (user : Option User) (current next confirm : Bytes)
    → Keeps (change_password o now token user current next confirm)
unfolding change_password
change_password-Keeps o now token none current next confirm = throw-Triple _ (λ ts s. s)
change_password-Keeps o now token (some u) current next confirm =
    unless-Triple _ _ (λ ts s. s)
      λ right.
        unless-Triple _ _ (λ ts s. s)
          λ long.
            unless-Triple _ _ (λ ts s. s)
              λ same.
                unless-Triple _ _ (λ ts s. s)
                  λ fresh. change_hashed-Keeps now token u.id (o.generate_hash next)

pub logout-Keeps : (token : Bytes) → Keeps (logout token)
unfolding logout
logout-Keeps token = or_else-Triple _ (delete_session-Spares Sound token)

drop_expired-Keeps : (token : Bytes) → Keeps (drop_expired token)
unfolding drop_expired
drop_expired-Keeps token =
    bind-Triple _ (attempt-Triple (delete_session-Spares Sound token))
      λ r. throw-Triple _ (λ ts s. s)

session_owner-Keeps : (s : UserSession) → Keeps (session_owner s)
unfolding session_owner
session_owner-Keeps s = first-Triple (or_else-Triple _ (get_by_id-Triple s.user_id))

session_user-Keeps : (now : ℕ) (token : Bytes) (s : UserSession) → Keeps (session_user now token s)
unfolding session_user
session_user-Keeps now token s =
    if-Triple (ltb s.expires_at now) (drop_expired token) (session_owner s)
      (λ late. drop_expired-Keeps token) λ live. session_owner-Keeps s

pub validate_session-Keeps :
    (now later : ℕ) (token : Bytes) → Keeps (validate_session now later token)
unfolding validate_session
validate_session-Keeps now later token =
    bind-Triple _ (or_else-Triple _ (get_session_by_token-Spares Sound now token))
      λ s. session_user-Keeps later token s
