-- ===== src/Accounts/Members/Progress.antt =====
-- `ResetMemberPassword` of internal/services/member_service.go while no statement fails.
use code_scout.Common.{
  false, ℕ, ◌≡◌, refl, true, List, [], ◌∷◌, Option, some, some_inj, Result, ok, err, arith, ◌==◌,
  ==_iff, Bool-cases, inl, inr, any, Bytes,
}
use code_scout.Domain.Roles.{User}
use code_scout.Domain.Access.{can_manage_account}
use code_scout.Accounts.Database.{
  Tables, Db, Error, Failure, return, ◌>>=◌, ◌>>◌, or_else, relabel, proceed, refuse_if, statement,
  round_trip, with_transaction,
}
use code_scout.Accounts.Outside.{Outside}
use code_scout.Accounts.Repos.Memberships.{remove_all_for_user}
use code_scout.Accounts.Members.Removing.{erase_account, delete_target, delete_member}
use code_scout.Accounts.Repos.Users.{
  is_super, delete_user, first, has_id, get_by_id, update_password_hash, set_must_change_password,
  delete_sessions_by_user,
}
use code_scout.Accounts.Repos.Tokens.{delete_by_user}
use code_scout.Accounts.Members.Atomic.Removal.{erased}
use code_scout.Accounts.Members.Resetting.{reset_account, reset_member_password}

found_is_there :
    (id : ℕ) (us : List User) (u : User)
    → first (has_id id) us ≡ some u
    → (u.id ≡ id) × (any (has_id id) us ≡ true)
found_is_there id [] u h = absurd (cc h)
found_is_there id (v ∷ us) u h = elim (Bool-cases (v.id == id)) [
  | inl same ↦
      let here : v ≡ u = some_inj (rw same at h) in
      rw same (ground (arith, ==_iff v.id id, here), refl)
  | inr other ↦ rw other (found_is_there id us u (rw other at h))
]

reset_account_runs :
    (id : ℕ) (hash : Bytes) (t : Tables)
    → any (has_id id) t.users ≡ true
    → (reset_account id hash (record { tables = t; faults = [] })).0 ≡ ok tt
unfolding reset_account with_transaction round_trip statement ◌>>=◌ ◌>>◌ update_password_hash
    set_must_change_password delete_sessions_by_user delete_by_user
reset_account_runs id hash t h = rw h refl

hands_over :
    (f : Error → Failure) (password : Bytes) (r : Result Error (Unit {0}) × Db)
    → r.0 ≡ ok tt
    → (relabel f (proceed (λ _. return password) r)).0 ≡ ok password
unfolding return
hands_over f password (ok a, db) h = refl
hands_over f password (err e, db) h = absurd (cc h)

-- While the database runs every statement, a reset by someone who may manage the account, with a
-- password that can be hashed, gives the password back.
pub reset_succeeds :
    (o : Outside) (actor : Option User) (id : ℕ) (password hash : Bytes) (t : Tables)
    (target : User)
    → first (has_id id) t.users ≡ some target
    → can_manage_account actor (some target) ≡ true
    → o.generate_hash password ≡ some hash
    → (reset_member_password o actor id password (record { tables = t; faults = [] })).0
      ≡ ok password
unfolding reset_member_password get_by_id statement ◌>>=◌ ◌>>◌ or_else refuse_if return
reset_succeeds o actor id password hash t target there may hashes =
    let (same, held) = found_is_there id t.users target there in
    rw (there, may, hashes)
      (hands_over _ password (reset_account target.id hash (record { tables = t; faults = [] }))
        (reset_account_runs target.id hash t (rw same held)))

-- While the database runs every statement, whoever may manage an account that is no super admin
-- removes it: the call succeeds, and the account is gone with its memberships, web sessions and tokens,
-- and nothing else.
pub delete_succeeds :
    (actor : Option User) (id : ℕ) (t : Tables) (target : User)
    → first (has_id id) t.users ≡ some target
    → is_super target ≡ false
    → can_manage_account actor (some target) ≡ true
    → ((delete_member actor id (record { tables = t; faults = [] })).0 ≡ ok tt)
      × ((delete_member actor id (record { tables = t; faults = [] })).1.tables ≡ erased id t)
unfolding delete_member delete_target erase_account get_by_id statement ◌>>=◌ ◌>>◌ or_else refuse_if
    return with_transaction round_trip remove_all_for_user delete_sessions_by_user delete_by_user
    delete_user
delete_succeeds actor id t target there low may =
    let (same, held) = found_is_there id t.users target there in
    rw (there, low, may, held) (refl, refl)
