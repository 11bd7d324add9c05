-- ===== src/Ingest/Runs.antt =====
-- The statements that internal/services/log_service.go runs one after the other: what holds of the rows
-- behind them.
use code_scout.Common.{
  ℕ, ◌≡◌, refl, subst, some_inj, Bool, true, false, List, [], ◌∷◌, Option, none, some,
}
use code_scout.Storage.{Rows, Storage, run_on, statement}
use code_scout.Ingest.Batch.{then_run, rolled_back, answered}

-- What holds of the number and the rows of a run that got through.
abbrev pub Through : (ℕ → Rows → Type 0) → Option ℕ × Storage → Type 0
Through Q (none, st) = Unit
Through Q (some n, st) = Q n st.rows

-- What holds of the rows whether it got through or not.
abbrev pub Behind : (Rows → Type 0) → Option ℕ × Storage → Type 0
Behind P o = P o.1.rows

pub statement-Through :
    (Q : ℕ → Rows → Type 0) (f : Rows → ℕ × Rows) (st : Storage)
    → Q (f st.rows).0 (f st.rows).1
    → Through Q (statement f st)
unfolding statement
statement-Through Q f st h = by_fault st.rows st.faults h
  where
    by_fault : (rs : Rows) (fs : List Bool) → Q (f rs).0 (f rs).1 → Through Q (run_on f rs fs)
    by_fault rs [] q = q
    by_fault rs (false ∷ fs) q = q
    by_fault rs (true ∷ fs) q = tt

pub then_run-Through :
    (Q R : ℕ → Rows → Type 0) (o : Option ℕ × Storage) (k : ℕ → Storage → Option ℕ × Storage)
    → Through Q o
    → ((n : ℕ) (st : Storage) → Q n st.rows → Through R (k n st))
    → Through R (then_run o k)
then_run-Through Q R (none, st) k h f = tt
then_run-Through Q R (some n, st) k h f = f n st h

-- A transaction that fails leaves the rows it began with.
pub rolled_back-Behind :
    (P : Rows → Type 0) (rs : Rows) (o : Option ℕ × Storage)
    → P rs
    → Through (λ n rs'. P rs') o
    → Behind P (rolled_back rs o)
rolled_back-Behind P rs (none, st) h k = h
rolled_back-Behind P rs (some n, st) h k = k

pub rolled_back-Through :
    (Q : ℕ → Rows → Type 0) (rs : Rows) (o : Option ℕ × Storage)
    → Through Q o
    → Through Q (rolled_back rs o)
rolled_back-Through Q rs (none, st) h = tt
rolled_back-Through Q rs (some n, st) h = h

pub Through-some :
    (Q : ℕ → Rows → Type 0) (o : Option ℕ × Storage) (n : ℕ)
    → o.0 ≡ some n
    → Through Q o
    → Q n o.1.rows
Through-some Q (none, st) n e h = cc
Through-some Q (some m, st) n e h = subst (λ k. Q k st.rows) (some_inj e) h

pub answered-rows : (o : Option ℕ × Storage) → (answered o).1.rows ≡ o.1.rows
answered-rows (none, st) = refl
answered-rows (some n, st) = refl
