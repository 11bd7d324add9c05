-- ===== src/Ingest/Again.antt =====
-- An upload that is sent again behind others, in internal/services/log_service.go.
use code_scout.Common.{
  ℕ, zero, suc, ◌≡◌, ◌≢◌, sym, ◌∙◌, ap, subst, Bool, List, [], ◌∷◌, map, Option, none, some, inl,
  inr, All, All-map, length, Bool-cases,
}
use code_scout.Domain.LiveSession.{Uuid, Time}
use code_scout.Storage.{LogRow, Rows, Storage}
use code_scout.Ingest.{IncomingLog, to_row, create_rows, create_batch, add}
use code_scout.Ingest.Batch.{
  LogService, round_trip_of, write_batch, insert_incoming_logs, stored, retry_after, answered,
  dump_logs,
}
use code_scout.Ingest.Runs.{
  Through, statement-Through, then_run-Through, rolled_back-Behind, answered-rows,
}
use code_scout.Ingest.Known.{Known, insert_rows-Known}
use code_scout.Ingest.Counter.{check-rows}
use code_scout.Ingest.Replay.{stored-Known, second_time}
use code_scout.Ingest.Series.{Upload, upload, uploads, Holds, started, dump_logs-cases}

AllKnown : List LogRow → Rows → Type 0
AllKnown rows rs = All (Known rs.logs) rows

create_batch-grows :
    (rows new : List LogRow) (st : Storage)
    → AllKnown rows st.rows
    → Through (λ n rs. AllKnown rows rs) (create_batch new st)
unfolding create_batch create_rows AllKnown
create_batch-grows rows [] st h = h
create_batch-grows rows (r ∷ new) st h =
    statement-Through (λ n rs. AllKnown rows rs) _ st
      (All-map _ _ (λ row k. insert_rows-Known (r ∷ new) st.rows.logs row k) rows h)

add-grows :
    (rows : List LogRow) (project : Uuid) (at : Time) (n : ℕ) (st : Storage)
    → AllKnown rows st.rows
    → Through (λ k rs. AllKnown rows rs) (add project at n st)
unfolding add AllKnown
add-grows rows project at zero st h = h
add-grows rows project at (suc n) st h = statement-Through (λ k rs. AllKnown rows rs) _ st h

-- An insertion keeps the rows that the table knows.
insert_incoming_logs-grows :
    (rows : List LogRow) (s : LogService) (project : Uuid) (now : Time) (logs : List IncomingLog)
    (st : Storage)
    → AllKnown rows st.rows
    → AllKnown rows (insert_incoming_logs s project now logs st).1.rows
unfolding insert_incoming_logs
insert_incoming_logs-grows rows s project now logs st h =
    let Q = λ (n : ℕ) (rs : Rows). AllKnown rows rs in
    let new = map (to_row project) logs in
    rolled_back-Behind (AllKnown rows) st.rows _ h (
      then_run-Through Q Q (round_trip_of 0 st) _ (statement-Through Q _ st h) (λ _ st₁ k.
        then_run-Through Q Q (write_batch s project now new st₁) round_trip_of
          (then_run-Through Q Q (create_batch new st₁) _ (create_batch-grows rows new st₁ k)
            (λ n st₂ k₂. elim (Bool-cases s.has_usage) [
              | inl e ↦ rw e (
                  then_run-Through Q Q (add project now n st₂) _
                    (add-grows rows project now n st₂ k₂) (λ _ st₃ k₃. k₃))
              | inr e ↦ rw e k₂
            ]))
          (λ n st₃ k₃. statement-Through Q _ st₃ k₃)))

upload-grows :
    (rows : List LogRow) (u : Upload) (st : Storage)
    → AllKnown rows st.rows
    → AllKnown rows (upload u st).rows
unfolding AllKnown
upload-grows rows u st h =
    let at = started u.service u.project u.at_check u.at_sessions (length u.logs) u.sessions st in
    elim (dump_logs-cases u.service u.project u.at_check u.at_sessions u.at_insert u.logs u.sessions
      st) [
        | inl (k, e) ↦
            rw (upload, e)
              (subst (AllKnown rows)
                (sym (check-rows u.service u.project u.at_check (length u.logs) st)) h)
        | inr e ↦
            rw (upload, e)
              (subst (AllKnown rows) (sym (answered-rows _)) (
                insert_incoming_logs-grows rows u.service u.project u.at_insert u.logs _
                  (subst (λ ls. All (Known ls) rows) (sym at.0) h)))
      ]

uploads-grow :
    (rows : List LogRow) (us : List Upload) (st : Storage)
    → AllKnown rows st.rows
    → AllKnown rows (uploads us st).rows
uploads-grow rows [] st h = h
uploads-grow rows (u ∷ us) st h = uploads-grow rows us (upload u st) (upload-grows rows u st h)

answered-stored : (o : Option ℕ × Storage) (n : ℕ) → (answered o).0 ≡ stored n → (o.0 ≡ some n)
answered-stored (none, st) n h = cc
answered-stored (some m, st) n h = cc

-- An upload that was stored leaves rows that the table knows.
upload-Known :
    (u : Upload) (n : ℕ) (st : Storage)
    → All (λ l. l.id ≢ 0) u.logs
    → (dump_logs u.service u.project u.at_check u.at_sessions u.at_insert u.logs u.sessions st).0
      ≡ stored n
    → AllKnown (map (to_row u.project) u.logs) (upload u st).rows
unfolding AllKnown
upload-Known u n st ids done =
    elim (dump_logs-cases u.service u.project u.at_check u.at_sessions u.at_insert u.logs u.sessions
      st) [
        | inl (k, e) ↦ let clash : retry_after k ≡ stored n = rw e at done in cc
        | inr e ↦
            rw (upload, e)
              (subst (AllKnown (map (to_row u.project) u.logs)) (sym (answered-rows _)) (
                stored-Known u.service u.project u.at_insert u.logs _ n ids
                  (answered-stored _ n (rw e at done))))
      ]

-- An upload all of whose logs the table knows changes sessions only.
known_upload :
    (u : Upload) (st : Storage)
    → AllKnown (map (to_row u.project) u.logs) st.rows
    → Holds st.rows.logs st.rows.usage (upload u st).rows
unfolding AllKnown
known_upload u st h =
    let at = started u.service u.project u.at_check u.at_sessions (length u.logs) u.sessions st in
    elim (dump_logs-cases u.service u.project u.at_check u.at_sessions u.at_insert u.logs u.sessions
      st) [
        | inl (k, e) ↦
            let same = check-rows u.service u.project u.at_check (length u.logs) st in
            rw (upload, e) (ap (λ rs. rs.logs) same, ap (λ rs. rs.usage) same)
        | inr e ↦
            rw (upload, e)
              (subst (Holds st.rows.logs st.rows.usage)
                (sym (
                  answered-rows _
                  ∙ second_time u.service u.project u.at_insert u.logs _
                      (subst (λ ls. All (Known ls) (map (to_row u.project) u.logs)) (sym at.0) h)))
                at)
      ]

-- An upload whose logs all have ids and that was stored is sent again, with any uploads, to whatever
-- projects, and nothing else in between, and whichever statements fail from then on. The second call
-- adds no log and counts none: only sessions may change.
pub replay_lem :
    (u again : Upload) (between : List Upload) (st : Storage) (n : ℕ) (faults : List Bool)
    → All (λ l. l.id ≢ 0) u.logs
    → again.project ≡ u.project
    → again.logs ≡ u.logs
    → (dump_logs u.service u.project u.at_check u.at_sessions u.at_insert u.logs u.sessions st).0
      ≡ stored n
    → let before = uploads between (record (upload u st) { faults = faults }) in
      ((upload again before).rows.logs ≡ before.rows.logs)
      × ((upload again before).rows.usage ≡ before.rows.usage)
replay_lem u again between st n faults ids project logs done =
    let before = uploads between (record (upload u st) { faults = faults }) in
    let known =
      uploads-grow (map (to_row u.project) u.logs) between _ (upload-Known u n st ids done) in
    known_upload again before (
      subst (λ p. AllKnown (map (to_row p) again.logs) before.rows) (sym project)
        (subst (λ ls. AllKnown (map (to_row u.project) ls) before.rows) (sym logs) known))
