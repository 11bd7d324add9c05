-- ===== src/Retention/Bounds.antt =====
-- The loops of `Cleanup` in internal/services/retention_service.go that reap orphans.
use code_scout.Common.{
  ℕ, zero, suc, ◌+◌, ◌*◌, ◌≤◌, Bool, true, false, List, [], ◌∷◌, inl, inr, arith, ltb, length,
  Bool-cases, Option-cases,
}
use code_scout.Storage.{Rows, Storage, run_on, statement, is_gone}
use code_scout.Retention.{remove_some, purge_orphaned_logs}
use code_scout.Retention.Cleanup.{orphan_batch_size, orphan_max_batches, reap, reap_logs}

length-remove_some :
    {A : Type 0} (p : A → Bool) (n : ℕ) (xs : List A)
    → length xs ≤ length (remove_some p n xs).1 + n
unfolding remove_some
length-remove_some p zero xs = omega arith
length-remove_some p (suc n) [] = omega arith
length-remove_some p (suc n) (x ∷ xs) = elim (Bool-cases (p x)) [
  | inl e ↦ rw (remove_some, e) (omega (arith, length-remove_some p n xs))
  | inr e ↦ rw (remove_some, e) (omega (arith, length-remove_some p (suc n) xs))
]

statement_takes :
    (f : Rows → ℕ × Rows) (n : ℕ) (st : Storage)
    → ((rs : Rows) → length rs.logs ≤ length (f rs).1.logs + n)
    → length st.rows.logs ≤ length (statement f st).1.rows.logs + n
unfolding statement
statement_takes f n st h = by_fault st.rows st.faults
  where
    by_fault :
        (rs : Rows) (fs : List Bool) → length rs.logs ≤ length (run_on f rs fs).1.rows.logs + n
    by_fault rs [] = h rs
    by_fault rs (false ∷ fs) = h rs
    by_fault rs (true ∷ fs) = omega arith

reap_takes :
    (f : Rows → ℕ × Rows) (n : ℕ) (st : Storage)
    → ((rs : Rows) → length rs.logs ≤ length (f rs).1.logs + orphan_batch_size)
    → length st.rows.logs ≤ length (reap f n st).rows.logs + n * orphan_batch_size
unfolding reap
reap_takes f zero st h = omega arith
reap_takes f (suc n) st h =
    let one = statement_takes f orphan_batch_size st h in
    elim (Option-cases (statement f st).0) [
      | inl e ↦ rw (reap, e) (omega (arith, one))
      | inr (k, e) ↦ elim (Bool-cases (ltb k orphan_batch_size)) [
        | inl last ↦ rw (reap, e, last) (omega (arith, one))
        | inr more ↦ rw (reap, e, more) (omega (arith, one, reap_takes f n (statement f st).1 h))
      ]
    ]

-- The loop of a run that reaps the logs of deleted projects takes at most a million logs out of the
-- table, whichever statements fail. The other phases of the run have no such bound.
pub reap_logs_takes :
    (st : Storage) → length st.rows.logs ≤ length (reap_logs st).rows.logs + 1_000_000
unfolding reap_logs purge_orphaned_logs
reap_logs_takes st =
    reap_takes (purge_orphaned_logs orphan_batch_size) orphan_max_batches st
      (λ rs. length-remove_some (λ l. is_gone rs l.project_id) orphan_batch_size rs.logs)
