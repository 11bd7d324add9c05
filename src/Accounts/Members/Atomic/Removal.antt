-- ===== src/Accounts/Members/Atomic/Removal.antt =====
-- The tables before and after `DeleteMember` of internal/services/member_service.go.
use code_scout.Common.{
  ℕ, ◌≤◌, ◌≡◌, refl, ap, subst, Bool, true, false, not, ◌⊎◌, inl, inr, Option, some, arith, ◌==◌,
  leb, keep,
}
use code_scout.Domain.Roles.{User}
use code_scout.Domain.Access.{can_manage_account}
use code_scout.Accounts.Database.{Tables, Db, last_super_admin}
use code_scout.Accounts.Database.Rules.{
  Outcome, Triple, if-Triple, weaken-Triple, conclude-Triple, given-Triple, bind-Triple,
  unless-Triple, or_else-Triple,
}
use code_scout.Accounts.Database.Statements.{with_transaction-Triple}
use code_scout.Accounts.Repos.Users.{first, has_id, is_super, is_session_of}
use code_scout.Accounts.Repos.Tokens.{is_token_of}
use code_scout.Accounts.Repos.Supers.{supers, others}
use code_scout.Accounts.Repos.Kept.{get_by_id-Triple, count_super_admins-Triple}
use code_scout.Accounts.Members.{is_super_admin}
use code_scout.Accounts.Members.Removing.{
  guard_last_super_admin, erase_account, delete_target, delete_member,
}
use code_scout.Accounts.Members.Atomic.{
  Does, signed_out, tokenless, projectless, userless, delete_sessions_by_user-Does,
  delete_by_user-Does, remove_all_for_user-Does, delete_user-Does, then-Does,
}

-- The tables without an account, its memberships, its web sessions and its tokens.
abbrev pub erased : ℕ → Tables → Tables
erased id t = record {
  users = others id t.users;
  members = keep (λ m. not (m.user_id == id)) t.members;
  sessions = keep (λ s. not (is_session_of id s)) t.sessions;
  tokens = keep (λ s. not (is_token_of id s)) t.tokens;
}

-- Who may remove an account: a super admin one of several super admins, and whoever manages an
-- account any other.
abbrev pub MayRemove : Option User → User → Tables → Type 0
MayRemove actor target t =
    ((is_super target ≡ true) × (is_super_admin actor ≡ true) × (2 ≤ supers t.users))
    ⊎ ((is_super target ≡ false) × (can_manage_account actor (some target) ≡ true))

abbrev pub RemovalDone : Option User → ℕ → Tables → Tables → Type 0
RemovalDone actor id t ts =
    ((target : User) × (first (has_id id) t.users ≡ some target) × MayRemove actor target t)
    × (ts ≡ erased id t)

erase_account-Does : (id : ℕ) → Does (erased id) (erase_account id)
unfolding erase_account
erase_account-Does id =
    then-Does (projectless id) (λ t. userless id (tokenless id (signed_out id t))) _ _
      (remove_all_for_user-Does id)
      (then-Does (signed_out id) (λ t. userless id (tokenless id t)) _ _
        (delete_sessions_by_user-Does id)
        (then-Does (tokenless id) (userless id) _ _ (delete_by_user-Does id) (delete_user-Does id)))

not-false : {b : Bool} → not b ≡ false → b ≡ true
not-false {b = true} h = refl
not-false {b = false} h = absurd (cc h)

enough :
    (n : ℕ) (ts t : Tables) → leb n 1 ≡ false → ts ≡ t → n ≡ supers ts.users → 2 ≤ supers t.users
enough n ts t more same count =
    subst (λ x. 2 ≤ supers x.users) same (subst (λ k. 2 ≤ k) count (ground arith))

guarded_erase-Triple :
    (id : ℕ) (t : Tables)
    → Triple
        (λ ts. ts ≡ t)
        (guard_last_super_admin (erase_account id))
        (λ _ ts. (2 ≤ supers t.users) × (ts ≡ erased id t))
        (λ ts. ts ≡ t)
unfolding guard_last_super_admin Does
guarded_erase-Triple id t =
    with_transaction-Triple (λ ts p. p)
      (bind-Triple (λ n ts. (ts ≡ t) × (n ≡ supers ts.users))
        (weaken-Triple (λ ts s. s) (λ ts s. tt) count_super_admins-Triple)
        λ n.
          unless-Triple (leb n 1) last_super_admin (λ ts s. tt)
            λ more.
              weaken-Triple (λ ts s. (s.0, enough n ts t more s.0 s.1)) (λ ts s. tt)
                (given-Triple
                  λ plenty. conclude-Triple _ (λ a ts p. (plenty, p)) (erase_account-Does id t)))

delete_target-Triple :
    (actor : Option User) (target : User) (id : ℕ) (t : Tables)
    → first (has_id id) t.users ≡ some target
    → Triple
        (λ ts. ts ≡ t)
        (delete_target actor target id)
        (λ _. RemovalDone actor id t)
        (λ ts. ts ≡ t)
unfolding delete_target Does
delete_target-Triple actor target id t there =
    if-Triple _ _ _
      (λ top.
        unless-Triple _ _ (λ ts s. s)
          λ may. or_else-Triple _ (
            conclude-Triple _ (λ a ts p. ((target, there, inl (top, not-false may, p.0)), p.1))
              (guarded_erase-Triple id t)))
      (λ low.
        unless-Triple _ _ (λ ts s. s)
          λ may. or_else-Triple _ (
            with_transaction-Triple (λ ts p. p)
              (conclude-Triple _ (λ a ts p. ((target, there, inr (low, not-false may)), p))
                (erase_account-Does id t))))

removal-Triple :
    (actor : Option User) (id : ℕ) (t : Tables)
    → Triple (λ ts. ts ≡ t) (delete_member actor id) (λ _. RemovalDone actor id t) (λ ts. ts ≡ t)
unfolding delete_member
removal-Triple actor id t = bind-Triple _ (or_else-Triple _ (get_by_id-Triple id)) λ target.
    weaken-Triple
      (λ ts s. (s.0, subst (λ us. first (has_id id) us ≡ some target) (ap (λ x. x.users) s.0) s.1))
      (λ ts s. s) (given-Triple λ there. delete_target-Triple actor target id t there)

-- A removal that succeeds was allowed to the actor, and took away the account with its memberships,
-- web sessions and tokens, and nothing else. One that fails, at whatever statement, changes nothing.
pub delete_member_lem :
    (actor : Option User) (id : ℕ) (db : Db)
    → Outcome
        (λ _. RemovalDone actor id db.tables)
        (λ ts. ts ≡ db.tables)
        (delete_member actor id db)
delete_member_lem actor id db = (removal-Triple actor id db.tables).runs db refl
