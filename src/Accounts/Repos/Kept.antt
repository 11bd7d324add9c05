-- ===== src/Accounts/Repos/Kept.antt =====
-- What each statement keeps: the accounts stay sound, or no account is touched at all.
use code_scout.Common.{
  ℕ, ◌≡◌, refl, Bool, ◌||◌, List, Option, none, some, Option-cases, arith, Bool-cases, inl, inr,
  any, length, Bytes,
}
use code_scout.Domain.Roles.{Role, ProjectLevel, User}
use code_scout.Accounts.Database.{Tables, UserSession, Error, M}
use code_scout.Accounts.Database.Rules.{Triple}
use code_scout.Accounts.Database.Statements.{Settles, statement-Triple}
use code_scout.Accounts.Repos.Users.{
  first, found, has_id, has_email, on_user, update_user, count_users, get_by_id, get_by_email,
  create_user, count_super_admins_for_update, update_role, set_must_change_password,
  update_password_hash, delete_user, delete_sessions_by_user, create_session_row,
  get_session_by_token, delete_session,
}
use code_scout.Accounts.Repos.Memberships.{
  get_membership, set_membership, remove_membership, remove_all_for_user,
}
use code_scout.Accounts.Repos.Tokens.{delete_by_user}
use code_scout.Accounts.Repos.Supers.{
  supers, others, Sound, on_user-user_ids, on_user-same_role, append-Sound,
}

abbrev pub Accounted : Tables → Type 0
Accounted ts = Sound ts.users

abbrev pub Keeps : {E A : Type 0} → M E A → Type 0
Keeps m = Triple Accounted m (λ _. Accounted) Accounted

found-Settles :
    {A : Type 0} (P : Tables → Type 0) (e : Error) (ts : Tables) (o : Option A)
    → P ts
    → Settles (λ _. P) P ts (found e ts o)
found-Settles P e ts none p = p
found-Settles P e ts (some a) p = p

-- The statements that leave the accounts alone, for any predicate on these.
module _ (P : List User → Type 0) where
  abbrev pub Spares : {A : Type 0} → M Error A → Type 0
  Spares m = Triple (λ ts. P ts.users) m (λ _ ts. P ts.users) (λ ts. P ts.users)

  pub get_by_email-Spares : (email : Bytes) → Spares (get_by_email email)
  unfolding get_by_email
  get_by_email-Spares email =
      statement-Triple _ (λ ts p. p) (λ ts p. found-Settles (λ ts. P ts.users) _ ts _ p)

  pub get_membership-Spares : (user project : ℕ) → Spares (get_membership user project)
  unfolding get_membership
  get_membership-Spares user project =
      statement-Triple _ (λ ts p. p) (λ ts p. found-Settles (λ ts. P ts.users) _ ts _ p)

  pub set_membership-Spares :
      (user project : ℕ) (level : ProjectLevel) → Spares (set_membership user project level)
  unfolding set_membership
  set_membership-Spares user project level = statement-Triple _ (λ ts p. p) (λ ts p. p)

  pub remove_membership-Spares : (user project : ℕ) → Spares (remove_membership user project)
  unfolding remove_membership
  remove_membership-Spares user project = statement-Triple _ (λ ts p. p) (λ ts p. p)

  pub remove_all_for_user-Spares : (user : ℕ) → Spares (remove_all_for_user user)
  unfolding remove_all_for_user
  remove_all_for_user-Spares user = statement-Triple _ (λ ts p. p) (λ ts p. p)

  pub delete_sessions_by_user-Spares : (id : ℕ) → Spares (delete_sessions_by_user id)
  unfolding delete_sessions_by_user
  delete_sessions_by_user-Spares id = statement-Triple _ (λ ts p. p) (λ ts p. p)

  pub delete_by_user-Spares : (user : ℕ) → Spares (delete_by_user user)
  unfolding delete_by_user
  delete_by_user-Spares user = statement-Triple _ (λ ts p. p) (λ ts p. p)

  pub delete_session-Spares : (token : Bytes) → Spares (delete_session token)
  unfolding delete_session
  delete_session-Spares token = statement-Triple _ (λ ts p. p) (λ ts p. p)

  pub get_session_by_token-Spares :
      (now : ℕ) (token : Bytes) → Spares (get_session_by_token now token)
  unfolding get_session_by_token
  get_session_by_token-Spares now token =
      statement-Triple _ (λ ts p. p) (λ ts p. found-Settles (λ ts. P ts.users) _ ts _ p)

  pub create_session_row-Spares : (s : UserSession) → Spares (create_session_row s)
  unfolding create_session_row
  create_session_row-Spares s = statement-Triple _ (λ ts p. p) (λ ts p. ground arith)

pub get_by_id-Triple :
    {P : Tables → Type 0} (id : ℕ)
    → Triple P (get_by_id id) (λ t ts. P ts × (first (has_id id) ts.users ≡ some t)) P
unfolding get_by_id
get_by_id-Triple {P = P} id =
    statement-Triple _ (λ ts p. p)
      λ ts p. elim (Option-cases (first (has_id id) ts.users)) [
        | inl none_there ↦ rw none_there p
        | inr (t, there) ↦ rw there (p, there)
      ]

pub count_super_admins-Triple :
    {P : Tables → Type 0}
    → Triple P count_super_admins_for_update (λ n ts. P ts × (n ≡ supers ts.users)) P
unfolding count_super_admins_for_update
count_super_admins-Triple = statement-Triple _ (λ ts p. p) (λ ts p. (p, refl))

pub count_users-Triple :
    {P : Tables → Type 0} → Triple P count_users (λ n ts. P ts × (n ≡ length ts.users)) P
unfolding count_users
count_users-Triple = statement-Triple _ (λ ts p. p) (λ ts p. (p, refl))

-- An update of one account, or a failure that changes nothing.
update_user-Settles :
    (P Q I : List User → Type 0) (e : Error) (id : ℕ) (f : User → User) (ts : Tables)
    → (P ts.users → I ts.users)
    → (P ts.users → Q (on_user id f ts.users))
    → P ts.users
    → Settles (λ _ ts. Q ts.users) (λ ts. I ts.users) ts (update_user e id f ts)
update_user-Settles P Q I e id f ts i g p = elim (Bool-cases (any (has_id id) ts.users)) [
  | inl there ↦ rw there (g p)
  | inr gone ↦ rw gone (i p)
]

pub update_role-Triple :
    (P Q I : List User → Type 0) (id : ℕ) (role : Role)
    → ((us : List User) → P us → I us)
    → ((us : List User) → P us → Q (on_user id (λ u. record u { role = role }) us))
    → Triple (λ ts. P ts.users) (update_role id role) (λ _ ts. Q ts.users) (λ ts. I ts.users)
unfolding update_role
update_role-Triple P Q I id role i g =
    statement-Triple _ (λ ts. i ts.users)
      λ ts p. update_user-Settles P Q I _ id _ ts (i ts.users) (g ts.users) p

-- An update that leaves ids and roles alone.
on_user-Sound :
    (id : ℕ) (f : User → User) (us : List User)
    → ((u : User) → (f u).id ≡ u.id)
    → ((u : User) → (f u).role ≡ u.role)
    → Sound us
    → Sound (on_user id f us)
on_user-Sound id f us i r s =
    (rw (on_user-user_ids id f us i) s.0, rw (on_user-same_role id f us r) s.1)

pub update_password_hash-Keeps : (id : ℕ) (hash : Bytes) → Keeps (update_password_hash id hash)
unfolding update_password_hash
update_password_hash-Keeps id hash =
    statement-Triple _ (λ ts s. s)
      λ ts s.
        update_user-Settles Sound Sound Sound _ id _ ts (λ s. s)
          (on_user-Sound id _ ts.users (λ u. refl) (λ u. refl)) s

pub set_must_change_password-Keeps :
    (id : ℕ) (must : Bool) → Keeps (set_must_change_password id must)
unfolding set_must_change_password
set_must_change_password-Keeps id must =
    statement-Triple _ (λ ts s. s) λ ts s. on_user-Sound id _ ts.users (λ u. refl) (λ u. refl) s

pub create_user-Keeps : (u : User) → Keeps (create_user u)
unfolding create_user
create_user-Keeps u =
    statement-Triple _ (λ ts s. s)
      λ ts s. elim (Bool-cases (any (has_id u.id) ts.users || any (has_email u.email) ts.users)) [
        | inl taken ↦ rw taken s
        | inr unused ↦ rw unused (append-Sound ts.users u s (ground arith))
      ]

pub delete_user-Triple :
    (P Q : List User → Type 0) (id : ℕ)
    → ((us : List User) → P us → Q (others id us))
    → Triple (λ ts. P ts.users) (delete_user id) (λ _ ts. Q ts.users) (λ _. Unit {0})
unfolding delete_user
delete_user-Triple P Q id g =
    statement-Triple _ (λ ts p. tt)
      λ ts p. elim (Bool-cases (any (has_id id) ts.users)) [
        | inl there ↦ rw there (g ts.users p)
        | inr gone ↦ rw gone tt
      ]
