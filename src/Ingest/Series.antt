-- ===== src/Ingest/Series.antt =====
-- Uploads one after the other, and what each does before its transaction, in
-- internal/services/log_service.go.
use code_scout.Common.{
  ℕ, ◌≡◌, refl, ap, List, [], ◌∷◌, ◌⊎◌, inl, inr, ◌==◌, length, Bool-cases, Option-cases,
}
use code_scout.Domain.LiveSession.{Uuid, Time}
use code_scout.Storage.{LogRow, UsageRow, Rows, Storage}
use code_scout.Ingest.{IncomingLog, IncomingSession, upsert_session}
use code_scout.Ingest.Batch.{
  LogService, insert_incoming_logs, check_daily_cap, upsert_each, upsert_sessions, retry_after,
  answered, dump_logs,
}
use code_scout.Retention.Members.{statement-keeps}
use code_scout.Ingest.Counter.{check-rows}

-- One call of `DumpLogs`, with its readings of the clock.
pub record Upload : Type 0 where
  pub service : LogService
  pub project : Uuid
  pub at_check : Time
  pub at_sessions : Time
  pub at_insert : Time
  pub logs : List IncomingLog
  pub sessions : List IncomingSession

abbrev pub upload : Upload → Storage → Storage
upload u st =
    (dump_logs u.service u.project u.at_check u.at_sessions u.at_insert u.logs u.sessions st).1

abbrev pub uploads : List Upload → Storage → Storage
uploads [] st = st
uploads (u ∷ us) st = uploads us (upload u st)

-- The logs and the counters are these.
abbrev pub Holds : List LogRow → List UsageRow → Rows → Type 0
Holds ls us rs = (rs.logs ≡ ls) × (rs.usage ≡ us)

upsert_each-Holds :
    (ls : List LogRow) (us : List UsageRow) (project : Uuid) (now : Time)
    (ss : List IncomingSession) (st : Storage)
    → Holds ls us st.rows
    → Holds ls us (upsert_each project now ss st).rows
unfolding upsert_each upsert_session
upsert_each-Holds ls us project now [] st h = h
upsert_each-Holds ls us project now (x ∷ ss) st h = elim (Bool-cases (x.id == 0)) [
  | inl e ↦ rw (upsert_each, e) (upsert_each-Holds ls us project now ss st h)
  | inr e ↦
      rw (upsert_each, e)
        (upsert_each-Holds ls us project now ss _
          (statement-keeps (Holds ls us) _ st (λ rs k. k) h))
]

upsert_sessions-Holds :
    (ls : List LogRow) (us : List UsageRow) (s : LogService) (project : Uuid) (now : Time)
    (ss : List IncomingSession) (st : Storage)
    → Holds ls us st.rows
    → Holds ls us (upsert_sessions s project now ss st).rows
upsert_sessions-Holds ls us s project now ss st h = elim (Bool-cases s.has_sessions) [
  | inl e ↦ rw e (upsert_each-Holds ls us project now ss st h)
  | inr e ↦ rw e h
]

-- Before the transaction an upload touches sessions only.
pub started :
    (s : LogService) (project : Uuid) (at_check at_sessions : Time) (n : ℕ)
    (ss : List IncomingSession) (st : Storage)
    → Holds st.rows.logs st.rows.usage
        (upsert_sessions s project at_sessions ss (check_daily_cap s project at_check n st).1).rows
started s project at_check at_sessions n ss st =
    let same = check-rows s project at_check n st in
    upsert_sessions-Holds _ _ s project at_sessions ss _
      (ap (λ rs. rs.logs) same, ap (λ rs. rs.usage) same)

-- An answer is a refusal by the cap, or comes from the transaction.
pub dump_logs-cases :
    (s : LogService) (project : Uuid) (at_check at_sessions at_insert : Time)
    (logs : List IncomingLog) (ss : List IncomingSession) (st : Storage)
    → let checked = check_daily_cap s project at_check (length logs) st in
      ((k : ℕ) × (dump_logs s project at_check at_sessions at_insert logs ss st
          ≡ (retry_after k, checked.1)))
      ⊎ (dump_logs s project at_check at_sessions at_insert logs ss st
          ≡ answered (
              insert_incoming_logs s project at_insert logs
                (upsert_sessions s project at_sessions ss checked.1)))
unfolding dump_logs
dump_logs-cases s project at_check at_sessions at_insert logs ss st =
    elim (Option-cases (check_daily_cap s project at_check (length logs) st).0) [
      | inl e ↦ inr (rw (dump_logs, e) refl)
      | inr (k, e) ↦ inl (k, rw (dump_logs, e) refl)
    ]
