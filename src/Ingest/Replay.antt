-- ===== src/Ingest/Replay.antt =====
-- An upload that is sent again, in internal/services/log_service.go.
use code_scout.Common.{
  ℕ, zero, suc, ◌≡◌, ◌≢◌, refl, sym, ◌∙◌, ap, subst, List, [], ◌∷◌, map, some, inl, inr, arith, All,
  Bool-cases,
}
use code_scout.Domain.LiveSession.{Uuid, Time}
use code_scout.Storage.{LogRow, Rows, Storage}
use code_scout.Ingest.{IncomingLog, to_row, create_rows, create_batch, add}
use code_scout.Ingest.Batch.{
  LogService, then_run, rolled_back, round_trip_of, write_batch, insert_incoming_logs,
}
use code_scout.Ingest.Runs.{
  Through, statement-Through, then_run-Through, rolled_back-Behind, rolled_back-Through,
  Through-some,
}
use code_scout.Ingest.Known.{Known, HasClient, insert_rows-All, insert-Known, rows-HasClient}

module _ (s : LogService) (project : Uuid) where
  AllKnown : List LogRow → ℕ → Rows → Type 0
  AllKnown rows n rs = All (Known rs.logs) rows

  create_batch-Known :
      (rows : List LogRow) (st : Storage)
      → All HasClient rows
      → Through (AllKnown rows) (create_batch rows st)
  unfolding create_batch create_rows AllKnown
  create_batch-Known [] st h = tt
  create_batch-Known (r ∷ rows) st h =
      statement-Through (AllKnown (r ∷ rows)) _ st (insert_rows-All (r ∷ rows) st.rows.logs h)

  add-logs :
      (Q : List LogRow → Type 0) (at : Time) (n : ℕ) (st : Storage)
      → Q st.rows.logs
      → Through (λ k rs. Q rs.logs) (add project at n st)
  unfolding add
  add-logs Q at zero st h = h
  add-logs Q at (suc n) st h = statement-Through (λ k rs. Q rs.logs) _ st h

  write-Known :
      (now : Time) (rows : List LogRow) (st : Storage)
      → All HasClient rows
      → Through (AllKnown rows) (write_batch s project now rows st)
  unfolding AllKnown
  write-Known now rows st h =
      then_run-Through (AllKnown rows) (AllKnown rows) (create_batch rows st) _
        (create_batch-Known rows st h)
        (λ n st' k. elim (Bool-cases s.has_usage) [
          | inl e ↦ rw e (
              then_run-Through (AllKnown rows) (AllKnown rows) (add project now n st') _
                (add-logs (λ ls. All (Known ls) rows) now n st' k) (λ _ st'' k'. k'))
          | inr e ↦ rw e k
        ])

  first_time :
      (now : Time) (rows : List LogRow) (st : Storage)
      → All HasClient rows
      → Through (AllKnown rows) (
          rolled_back st.rows (
            then_run
              (round_trip_of 0 st)
              (λ _ st'. then_run (write_batch s project now rows st') round_trip_of)))
  unfolding AllKnown
  first_time now rows st h = rolled_back-Through (AllKnown rows) st.rows _ (
      then_run-Through (λ n rs. Unit) (AllKnown rows) (round_trip_of 0 st) _
        (statement-Through (λ n rs. Unit) _ st tt)
        (λ _ st' _.
          then_run-Through (AllKnown rows) (AllKnown rows) (write_batch s project now rows st')
            round_trip_of (write-Known now rows st' h)
            (λ n st'' k. statement-Through (AllKnown rows) _ st'' k)))

  -- Nothing is written and nothing is counted.
  Nothing : Rows → ℕ → Rows → Type 0
  Nothing rs n rs' = (n ≡ 0) × (rs' ≡ rs)

  create_batch-Nothing :
      (rows : List LogRow) (st : Storage)
      → All (Known st.rows.logs) rows
      → Through (Nothing st.rows) (create_batch rows st)
  unfolding create_batch create_rows Nothing
  create_batch-Nothing [] st h = (refl, refl)
  create_batch-Nothing (r ∷ rows) st h =
      let same = insert-Known (r ∷ rows) st.rows.logs h in
      statement-Through (λ n rs'. (n ≡ 0) × (rs' ≡ st.rows)) _ st
        (ap (λ d. d.0) same, ap (λ d. record st.rows { logs = d.1 }) same)

  add-Nothing :
      (rs : Rows) (at : Time) (n : ℕ) (st : Storage)
      → Nothing rs n st.rows
      → Through (λ k rs'. rs' ≡ rs) (add project at n st)
  unfolding add Nothing
  add-Nothing rs at zero st (e, k) = k
  add-Nothing rs at (suc n) st (e, k) = absurd (omega (arith, e))

  write_nothing :
      (now : Time) (rows : List LogRow) (rs : Rows) (st : Storage)
      → All (Known rs.logs) rows
      → st.rows ≡ rs
      → Through (λ n rs'. rs' ≡ rs) (write_batch s project now rows st)
  unfolding Nothing
  write_nothing now rows rs st h same =
      then_run-Through (Nothing st.rows) (λ n rs'. rs' ≡ rs) (create_batch rows st) _
        (create_batch-Nothing rows st (subst (λ r. All (Known r.logs) rows) (sym same) h))
        (λ n st' (z, k). elim (Bool-cases s.has_usage) [
          | inl e ↦ rw e (
              then_run-Through (λ k rs'. rs' ≡ rs) (λ n rs'. rs' ≡ rs) (add project now n st') _
                (add-Nothing rs now n st' (z, k ∙ same)) (λ _ st'' k'. k'))
          | inr e ↦ rw e (k ∙ same)
        ])

  pub second_time :
      (now : Time) (logs : List IncomingLog) (st : Storage)
      → All (Known st.rows.logs) (map (to_row project) logs)
      → (insert_incoming_logs s project now logs st).1.rows ≡ st.rows
  unfolding insert_incoming_logs
  second_time now logs st h =
      rolled_back-Behind (λ rs. rs ≡ st.rows) st.rows _ refl
        (then_run-Through (λ n rs. rs ≡ st.rows) (λ n rs. rs ≡ st.rows) (round_trip_of 0 st) _
          (statement-Through (λ n rs. rs ≡ st.rows) _ st refl)
          (λ _ st' e.
            then_run-Through (λ n rs. rs ≡ st.rows) (λ n rs. rs ≡ st.rows)
              (write_batch s project now (map (to_row project) logs) st') round_trip_of
              (write_nothing now (map (to_row project) logs) st.rows st' h e)
              (λ n st'' k. statement-Through (λ n rs. rs ≡ st.rows) _ st'' k)))

  -- Once the logs of an upload that all have ids are stored, the table has them.
  pub stored-Known :
      (now : Time) (logs : List IncomingLog) (st : Storage) (n : ℕ)
      → All (λ l. l.id ≢ 0) logs
      → (insert_incoming_logs s project now logs st).0 ≡ some n
      → All
          (Known (insert_incoming_logs s project now logs st).1.rows.logs)
          (map (to_row project) logs)
  unfolding insert_incoming_logs AllKnown
  stored-Known now logs st n ids done =
      let rows = map (to_row project) logs in
      Through-some (AllKnown rows) _ n done
        (first_time now rows st (rows-HasClient project logs ids))
