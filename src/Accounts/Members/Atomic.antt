-- ===== src/Accounts/Members/Atomic.antt =====
-- The tables before and after `ResetMemberPassword` of internal/services/member_service.go.
pub mod Removal
use code_scout.Common.{
  ℕ, suc, ◌≤◌, ◌<◌, ◌≡◌, refl, sym, ap, ◌∙◌, subst, Bool, true, false, not, ◌⊎◌, inl, inr, List, [],
  ◌∷◌, Option, none, some, Result, ok, err, arith, if◌then◌else◌, ◌==◌, leb, Bool-cases, any, keep,
  length, Bytes,
}
use code_scout.Domain.Roles.{super_admin, role_eq, User}
use code_scout.Domain.Access.{can_manage_account}
use code_scout.Accounts.Database.{
  Tables, Db, Error, last_super_admin, Failure, M, ◌>>=◌, ◌>>◌, statement, with_transaction,
}
use code_scout.Accounts.Database.Rules.{
  Outcome, Triple, return-Triple, throw-Triple, if-Triple, weaken-Triple, conclude-Triple,
  given-Triple, bind-Triple, then-Triple, unless-Triple, or_else-Triple,
}
use code_scout.Accounts.Database.Statements.{statement-Triple, with_transaction-Triple}
use code_scout.Accounts.Outside.{Outside}
use code_scout.Accounts.Repos.Users.{
  first, has_id, is_super, on_user, update_user, update_password_hash, set_must_change_password,
  is_session_of, delete_sessions_by_user, remove_user, delete_user,
}
use code_scout.Accounts.Repos.Memberships.{remove_all_for_user}
use code_scout.Accounts.Repos.Tokens.{is_token_of, delete_by_user}
use code_scout.Accounts.Repos.Supers.{supers, others}
use code_scout.Accounts.Repos.Kept.{get_by_id-Triple, count_super_admins-Triple}
use code_scout.Accounts.Members.{is_super_admin}
use code_scout.Accounts.Members.Resetting.{reset_account, reset_to, reset_member_password}
use code_scout.Accounts.Members.Removing.{
  guard_last_super_admin, erase_account, delete_target, delete_member,
}

-- A statement that always runs through, unless the database fails.
unfoldable pub Does : {A : Type 0} → (Tables → Tables) → M Error A → Type 0
Does {A} f m = (t : Tables) → Triple {A = A} (λ ts. ts ≡ t) m (λ _ ts. ts ≡ f t) (λ _. Unit {0})

abbrev hashed : ℕ → Bytes → Tables → Tables
hashed id hash t = record t { users = on_user id (λ u. record u { password_hash = hash }) t.users }

abbrev forced : ℕ → Tables → Tables
forced id t = record t {
  users = on_user id (λ u. record u { must_change_password = true }) t.users;
}

abbrev pub signed_out : ℕ → Tables → Tables
signed_out id t = record t { sessions = keep (λ s. not (is_session_of id s)) t.sessions }

abbrev pub tokenless : ℕ → Tables → Tables
tokenless id t = record t { tokens = keep (λ s. not (is_token_of id s)) t.tokens }

abbrev pub projectless : ℕ → Tables → Tables
projectless id t = record t { members = keep (λ m. not (m.user_id == id)) t.members }

abbrev pub userless : ℕ → Tables → Tables
userless id t = record t { users = others id t.users }

update_password_hash-Does :
    (id : ℕ) (hash : Bytes) → Does (hashed id hash) (update_password_hash id hash)
unfolding Does update_password_hash
update_password_hash-Does id hash t =
    statement-Triple _ (λ ts p. tt)
      λ ts p. elim (Bool-cases (any (has_id id) ts.users)) [
        | inl there ↦ rw there (ap (hashed id hash) p)
        | inr gone ↦ rw gone tt
      ]

set_must_change_password-Does : (id : ℕ) → Does (forced id) (set_must_change_password id true)
unfolding Does set_must_change_password
set_must_change_password-Does id t = statement-Triple _ (λ ts p. tt) (λ ts p. ap (forced id) p)

pub delete_sessions_by_user-Does : (id : ℕ) → Does (signed_out id) (delete_sessions_by_user id)
unfolding Does delete_sessions_by_user
delete_sessions_by_user-Does id t = statement-Triple _ (λ ts p. tt) (λ ts p. ap (signed_out id) p)

pub delete_by_user-Does : (id : ℕ) → Does (tokenless id) (delete_by_user id)
unfolding Does delete_by_user
delete_by_user-Does id t = statement-Triple _ (λ ts p. tt) (λ ts p. ap (tokenless id) p)

pub remove_all_for_user-Does : (id : ℕ) → Does (projectless id) (remove_all_for_user id)
unfolding Does remove_all_for_user
remove_all_for_user-Does id t = statement-Triple _ (λ ts p. tt) (λ ts p. ap (projectless id) p)

pub delete_user-Does : (id : ℕ) → Does (userless id) (delete_user id)
unfolding Does delete_user
delete_user-Does id t =
    statement-Triple _ (λ ts p. tt)
      λ ts p. elim (Bool-cases (any (has_id id) ts.users)) [
        | inl there ↦ rw there (ap (userless id) p)
        | inr gone ↦ rw gone tt
      ]

pub then-Does :
    {B : Type 0} (f g : Tables → Tables) (m : M Error (Unit {0})) (n : M Error B)
    → Does f m
    → Does g n
    → Does (λ t. g (f t)) (m >> n)
unfolding Does
then-Does f g m n d e t = then-Triple (λ ts. ts ≡ f t) (d t) (e (f t))

on_user-on_user :
    (id : ℕ) (f g : User → User) (us : List User)
    → ((u : User) → (f u).id ≡ u.id)
    → on_user id g (on_user id f us) ≡ on_user id (λ u. g (f u)) us
unfolding on_user
on_user-on_user id f g [] h = refl
on_user-on_user id f g (u ∷ us) h = ground (arith, on_user-on_user id f g us h, h u)

-- The tables after a reset: a new password that must be changed, and no web session and no token.
abbrev pub wiped : ℕ → Bytes → Tables → Tables
wiped id hash t = record t {
  users = on_user id (λ u. record u { password_hash = hash; must_change_password = true }) t.users;
  sessions = keep (λ s. not (is_session_of id s)) t.sessions;
  tokens = keep (λ s. not (is_token_of id s)) t.tokens;
}

reset_account-Triple :
    (id : ℕ) (hash : Bytes) (t : Tables)
    → Triple (λ ts. ts ≡ t) (reset_account id hash) (λ _ ts. ts ≡ wiped id hash t) (λ ts. ts ≡ t)
unfolding Does reset_account
reset_account-Triple id hash t =
    with_transaction-Triple (λ ts p. p)
      (conclude-Triple _
        (λ a ts p.
          p
          ∙ ap (λ us. record (wiped id hash t) { users = us })
              (on_user-on_user id _ _ t.users (λ u. refl)))
        (then-Does (hashed id hash) (λ t. tokenless id (signed_out id (forced id t))) _ _
          (update_password_hash-Does id hash)
          (then-Does (forced id) (λ t. tokenless id (signed_out id t)) _ _
            (set_must_change_password-Does id)
            (then-Does (signed_out id) (tokenless id) _ _ (delete_sessions_by_user-Does id)
              (delete_by_user-Does id)))
          t))

-- What a reset that succeeded was allowed by, and what it did.
abbrev pub ResetDone : Outside → Option User → ℕ → Bytes → Tables → Bytes → Tables → Type 0
ResetDone o actor id password t p ts =
    (p ≡ password)
    × ((target : User) × (hash : Bytes) × (first (has_id id) t.users ≡ some target)
        × (can_manage_account actor (some target) ≡ true)
        × (o.generate_hash password ≡ some hash)
        × (ts ≡ wiped target.id hash t))

reset_to-Triple :
    (id : ℕ) (password : Bytes) (h : Option Bytes) (t : Tables)
    → Triple
        (λ ts. ts ≡ t)
        (reset_to id password h)
        (λ p ts. (p ≡ password) × ((hash : Bytes) × (h ≡ some hash) × (ts ≡ wiped id hash t)))
        (λ ts. ts ≡ t)
reset_to-Triple id password none t = throw-Triple _ (λ ts p. p)
reset_to-Triple id password (some hash) t =
    then-Triple _ (reset_account-Triple id hash t)
      (weaken-Triple (λ ts p. (refl, (hash, refl, p))) (λ ts p. p) (return-Triple password))

ResetDone-Triple :
    (o : Outside) (actor : Option User) (id : ℕ) (password : Bytes) (t : Tables)
    → Triple
        (λ ts. ts ≡ t)
        (reset_member_password o actor id password)
        (ResetDone o actor id password t)
        (λ ts. ts ≡ t)
unfolding reset_member_password
ResetDone-Triple o actor id password t =
    bind-Triple _ (or_else-Triple _ (get_by_id-Triple id)) λ target.
      unless-Triple _ _ (λ ts s. s.0)
        λ may. or_else-Triple _ (
          weaken-Triple
            (λ ts s.
              (s.0, subst (λ us. first (has_id id) us ≡ some target) (ap (λ x. x.users) s.0) s.1))
            (λ ts s. s)
            (given-Triple λ there.
              conclude-Triple _
                (λ p ts q. (q.0, (target, q.1.0, there, ground arith, q.1.1, q.1.2)))
                (reset_to-Triple target.id password (o.generate_hash password) t)))

-- A reset that succeeds was of an account that the actor may manage. It gives back the password that
-- was drawn, stores the hash of it, which must be changed at the next sign-in, ends all web sessions
-- and deletes all tokens of the account, and changes nothing else. One that fails, at whatever
-- statement, changes nothing.
pub reset_member_password_lem :
    (o : Outside) (actor : Option User) (id : ℕ) (password : Bytes) (db : Db)
    → Outcome
        (ResetDone o actor id password db.tables)
        (λ ts. ts ≡ db.tables)
        (reset_member_password o actor id password db)
reset_member_password_lem o actor id password db =
    (ResetDone-Triple o actor id password db.tables).runs db refl
