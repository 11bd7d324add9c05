-- ===== src/Accounts/Database.antt =====
-- The database behind internal/adapters/db, as its repositories use it: four tables, statements that
-- either run or fail as a whole, and the transactions of internal/adapters/db/transaction.go. Which
-- statements fail is decided outside: `faults` says it of the statements to come, the next one
-- first, and past its end all succeed.
pub mod Rules
pub mod Statements
use code_scout.Common.{
  ℕ, Bool, true, false, List, [], ◌∷◌, Option, Result, ok, err, if◌then◌else◌, Bytes,
}
use code_scout.Domain.Roles.{User, ProjectMember}

-- A row of the web sessions. One that `DeleteSession` marks is never read again, and so is removed.
pub record UserSession : Type 0 where
  pub user_id : ℕ
  pub token : Bytes
  pub expires_at : ℕ

-- A row of the personal access tokens; `revoked` is the soft delete.
pub record PersonalAccessToken : Type 0 where
  pub id : ℕ
  pub user_id : ℕ
  pub name : Bytes
  pub token_hash : Bytes
  pub suffix : Bytes
  pub last_used_at : Option ℕ
  pub expires_at : Option ℕ
  pub revoked : Bool

pub record Tables : Type 0 where
  pub users : List User
  pub members : List ProjectMember
  pub sessions : List UserSession
  pub tokens : List PersonalAccessToken

pub record Db : Type 0 where
  pub tables : Tables
  pub faults : List Bool

-- `domain.ErrNotFound`, `gorm.ErrRecordNotFound`, `errLastSuperAdmin`, and all other errors.
pub data Error : Type 0 where
  not_found record_not_found last_super_admin broken : Error

-- What a service returns with an error: the HTTP status and the message, or that of the form field
-- which the error is about.
pub record Failure : Type 0 where
  pub status : ℕ
  pub message : Bytes

abbrev pub M : Type 0 → Type 0 → Type 0
M E A = Db → Result E A × Db

module _ {E A : Type 0} where
  unfoldable pub return : A → M E A
  return a db = (ok a, db)

  unfoldable pub throw : E → M E A
  throw e db = (err e, db)

  abbrev pub proceed : {B : Type 0} → (A → M E B) → Result E A × Db → Result E B × Db
  proceed k (ok a, db) = k a db
  proceed k (err e, db) = (err e, db)

  infixl 5 ◌>>=◌
  unfoldable pub ◌>>=◌ : {B : Type 0} → M E A → (A → M E B) → M E B
  (m >>= k) db = proceed k (m db)

  abbrev pub relabel : {F : Type 0} → (F → E) → Result F A × Db → Result E A × Db
  relabel f (ok a, db) = (ok a, db)
  relabel f (err e, db) = (err (f e), db)

  -- `if err != nil { return f(err) }`
  unfoldable pub or_else : {F : Type 0} → M F A → (F → E) → M E A
  or_else m f db = relabel f (m db)

  -- A call whose error is looked at and not returned.
  unfoldable pub attempt : {F : Type 0} → M F A → M E (Result F A)
  attempt m db = (ok (m db).0, (m db).1)

module _ {E : Type 0} where
  infixl 5 ◌>>◌
  unfoldable pub ◌>>◌ : {B : Type 0} → M E (Unit {0}) → M E B → M E B
  unfolding ◌>>=◌
  m >> k = m >>= λ _. k

  -- `if b { return e }`
  unfoldable pub refuse_if : Bool → E → M E (Unit {0})
  refuse_if true e = throw e
  refuse_if false e = return tt

module _ {A : Type 0} where
  abbrev pub settle : Tables → List Bool → Result Error (A × Tables) → Result Error A × Db
  settle ts fs (ok (a, ts')) = (ok a, record { tables = ts'; faults = fs })
  settle ts fs (err e) = (err e, record { tables = ts; faults = fs })

  abbrev pub execute :
      (Tables → Result Error (A × Tables)) → Tables → List Bool → Result Error A × Db
  execute f ts [] = settle ts [] (f ts)
  execute f ts (false ∷ fs) = settle ts fs (f ts)
  execute f ts (true ∷ fs) = (err broken, record { tables = ts; faults = fs })

  -- One statement of SQL.
  unfoldable pub statement : (Tables → Result Error (A × Tables)) → M Error A
  statement f db = execute f db.tables db.faults

  abbrev pub restored : Tables → Result Error A × Db → Result Error A × Db
  restored ts (ok a, db) = (ok a, db)
  restored ts (err e, db) = (err e, record db { tables = ts })

-- `BEGIN` and `COMMIT`, which change no table by themselves.
unfoldable pub round_trip : M Error (Unit {0})
round_trip = statement λ ts. ok (tt, ts)

-- `WithTransaction`
unfoldable pub with_transaction : M Error (Unit {0}) → M Error (Unit {0})
with_transaction body db = restored db.tables ((round_trip >> body >> round_trip) db)
