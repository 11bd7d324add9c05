-- ===== src/Accounts/Database/Statements.antt =====
-- What single statements and transactions do to what holds of the tables.
use code_scout.Common.{Bool, true, false, List, [], ◌∷◌, Result, ok, err}
use code_scout.Accounts.Database.{
  Tables, Db, Error, M, settle, execute, statement, restored, round_trip, with_transaction,
}
use code_scout.Accounts.Database.Rules.{Outcome, Triple, then-Triple}

module _ {A : Type 0} where
  -- What a statement does when it runs.
  abbrev pub Settles :
      (A → Tables → Type 0) → (Tables → Type 0) → Tables → Result Error (A × Tables) → Type 0
  Settles Q I ts (ok (a, ts')) = Q a ts'
  Settles Q I ts (err e) = I ts

module _ {A : Type 0} (P : Tables → Type 0) (Q : A → Tables → Type 0) (I : Tables → Type 0) where
  settle-Outcome :
      (ts : Tables) (fs : List Bool) (r : Result Error (A × Tables))
      → Settles Q I ts r
      → Outcome Q I (settle ts fs r)
  settle-Outcome ts fs (ok (a, ts')) p = p
  settle-Outcome ts fs (err e) p = p

  execute-Outcome :
      (f : Tables → Result Error (A × Tables))
      → ((ts : Tables) → P ts → I ts)
      → ((ts : Tables) → P ts → Settles Q I ts (f ts))
      → (ts : Tables) (fs : List Bool) → P ts
      → Outcome Q I (execute f ts fs)
  execute-Outcome f i g ts [] p = settle-Outcome ts [] (f ts) (g ts p)
  execute-Outcome f i g ts (false ∷ fs) p = settle-Outcome ts fs (f ts) (g ts p)
  execute-Outcome f i g ts (true ∷ fs) p = i ts p

pub statement-Triple :
    {A : Type 0} {P : Tables → Type 0} {Q : A → Tables → Type 0} {I : Tables → Type 0}
    (f : Tables → Result Error (A × Tables))
    → ((ts : Tables) → P ts → I ts)
    → ((ts : Tables) → P ts → Settles Q I ts (f ts))
    → Triple P (statement f) Q I
unfolding statement
statement-Triple {P = P} {Q = Q} {I = I} f i g = record {
  runs = λ db p. execute-Outcome P Q I f i g db.tables db.faults p;
}

restored-Outcome :
    (Q : Unit {0} → Tables → Type 0) (I : Tables → Type 0) (ts : Tables)
    (r : Result Error (Unit {0}) × Db)
    → I ts
    → Outcome Q (λ _. Unit {0}) r
    → Outcome Q I (restored ts r)
restored-Outcome Q I ts (ok a, db) i p = p
restored-Outcome Q I ts (err e, db) i p = i

pub round_trip-Triple :
    {P I : Tables → Type 0} → ((ts : Tables) → P ts → I ts) → Triple P round_trip (λ _. P) I
unfolding round_trip
round_trip-Triple i = statement-Triple (λ ts. ok (tt, ts)) i (λ ts p. p)

-- A transaction keeps what held before it when it fails, whatever its body had done by then.
pub with_transaction-Triple :
    {P : Tables → Type 0} {Q : Tables → Type 0} {I : Tables → Type 0} {body : M Error (Unit {0})}
    → ((ts : Tables) → P ts → I ts)
    → Triple P body (λ _. Q) (λ _. Unit {0})
    → Triple P (with_transaction body) (λ _. Q) I
unfolding with_transaction
with_transaction-Triple {P = P} {Q = Q} {I = I} {body = body} i t = record {
  runs = λ db p.
      restored-Outcome (λ _. Q) I db.tables _ (i db.tables p)
        ((then-Triple Q (then-Triple P (round_trip-Triple (λ ts q. tt)) t)
            (round_trip-Triple (λ ts q. tt))).runs
          db p);
}
