-- ===== src/Ingest/Batch.antt =====
-- `DumpLogs` of internal/services/log_service.go, up to the publication of what was stored.
use code_scout.Common.{
  ℕ, Bool, true, false, not, ◌||◌, List, [], ◌∷◌, map, Option, none, some, if◌then◌else◌, ◌==◌,
  length,
}
use code_scout.Domain.LiveSession.{Uuid, Time}
use code_scout.Storage.{LogRow, SessionRow, Rows, Storage, statement}
use code_scout.Ingest.{
  IncomingLog, IncomingSession, to_row, create_batch, count_for_day, add, upsert_session,
  would_exceed_cap, seconds_until_next_day,
}

-- The repositories that may be nil, and `DailyLogCap`.
pub record LogService : Type 0 where
  pub has_sessions : Bool
  pub has_usage : Bool
  pub has_settings : Bool
  pub daily_log_cap : ℕ

abbrev pub then_run : Option ℕ × Storage → (ℕ → Storage → Option ℕ × Storage) → Option ℕ × Storage
then_run (none, st) k = (none, st)
then_run (some n, st) k = k n st

abbrev pub rolled_back : Rows → Option ℕ × Storage → Option ℕ × Storage
rolled_back rs (none, st) = (none, record st { rows = rs })
rolled_back rs (some n, st) = (some n, st)

-- `BEGIN` and `COMMIT`
abbrev pub round_trip_of : ℕ → Storage → Option ℕ × Storage
round_trip_of n = statement λ rs. (n, rs)

-- The function that `insertIncomingLogs` gives to the transaction.
abbrev pub write_batch : LogService → Uuid → Time → List LogRow → Storage → Option ℕ × Storage
write_batch s project now rows st = then_run (create_batch rows st) (λ n st'.
    if s.has_usage
    then then_run (add project now n st') (λ _ st''. (some n, st''))
    else (some n, st'))

-- `insertIncomingLogs`, with the number of rows that were written
unfoldable pub insert_incoming_logs :
    LogService → Uuid → Time → List IncomingLog → Storage → Option ℕ × Storage
insert_incoming_logs s project now logs st = rolled_back st.rows (
    then_run (round_trip_of 0 st)
      (λ _ st'. then_run (write_batch s project now (map (to_row project) logs) st') round_trip_of))

-- `checkDailyCap`: the seconds to wait, if the upload is refused.
unfoldable pub check_daily_cap : LogService → Uuid → Time → ℕ → Storage → Option ℕ × Storage
check_daily_cap s project now incoming st =
    if not s.has_usage || not s.has_settings
    then (none, st)
    else if s.daily_log_cap == 0
    then (none, st)
    else elim (count_for_day project now st).0 [
      | none ↦ (none, (count_for_day project now st).1)
      | some stored ↦ (
        if would_exceed_cap stored incoming s.daily_log_cap
            then some (seconds_until_next_day now)
            else none,
        (count_for_day project now st).1,
      )
    ]

abbrev pub to_session : Uuid → Time → IncomingSession → SessionRow
to_session project now s = record {
  id = s.id;
  project_id = project;
  last_seen_at = elim s.last_seen_at [ none ↦ now | some t ↦ if t == 0 then now else t ];
}

-- The loop of `upsertSessions`, whose errors are only logged.
unfoldable pub upsert_each : Uuid → Time → List IncomingSession → Storage → Storage
upsert_each project now [] st = st
upsert_each project now (s ∷ ss) st = elim (s.id == 0) [
  | true ↦ upsert_each project now ss st
  | false ↦ upsert_each project now ss (upsert_session (to_session project now s) st).1
]

-- `upsertSessions`
abbrev pub upsert_sessions : LogService → Uuid → Time → List IncomingSession → Storage → Storage
upsert_sessions s project now incoming st =
    if s.has_sessions then upsert_each project now incoming st else st

-- How `DumpLogs` ends.
pub data Answer : Type 0 where
  stored : ℕ → Answer
  failed : Answer
  retry_after : ℕ → Answer

abbrev pub answered : Option ℕ × Storage → Answer × Storage
answered (none, st) = (failed, st)
answered (some n, st) = (stored n, st)

-- `DumpLogs` after the loop over the archive
unfoldable pub dump_logs :
    LogService
    → Uuid
    → Time
    → Time
    → Time
    → List IncomingLog
    → List IncomingSession
    → Storage
    → Answer × Storage
dump_logs s project at_check at_sessions at_insert logs sessions st =
    let checked = check_daily_cap s project at_check (length logs) st in
    elim checked.0 [
      | some seconds ↦ (retry_after seconds, checked.1)
      | none ↦ answered (
          insert_incoming_logs s project at_insert logs
            (upsert_sessions s project at_sessions sessions checked.1))
    ]
