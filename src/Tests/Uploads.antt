-- ===== src/Tests/Uploads.antt =====
-- Uploads to a project with a cap of five logs a day.
use code_scout.Common.{ℕ, ◌+◌, ◌-◌, ◌*◌, ◌≤◌, ◌≡◌, refl, true, false, List, [], ◌∷◌, none, arith}
use code_scout.Storage.{Storage, day, statement, usage_day}
use code_scout.Ingest.{
  IncomingLog, IncomingSession, stored_on, count_for_day, create_batch, create_rows, insert_rows,
  add, add_usage, would_exceed_cap, seconds_until_next_day, upsert_session,
}
use code_scout.Ingest.Batch.{
  LogService, insert_incoming_logs, check_daily_cap, upsert_each, dump_logs,
}
use code_scout.Ingest.Series.{Upload, upload, uploads}
use code_scout.Ingest.Again.{replay_lem}
use code_scout.Ingest.Capped.{dump_logs-le, dump_logs_refused}

abbrev logging : LogService
logging = record { has_sessions = true; has_usage = true; has_settings = true; daily_log_cap = 5 }

abbrev empty : Storage
empty = record { rows = record { logs = []; sessions = []; usage = []; gone = [] }; faults = [] }

abbrev entry : ℕ → IncomingLog
entry id = record { id = id; session_id = 9; time_stamp = 10 * day }

abbrev two : List IncomingLog
two = entry 1 ∷ entry 2 ∷ []

abbrev launches : List IncomingSession
launches = record { id = 9; last_seen_at = none } ∷ []

abbrev sent : Upload
sent = record {
  service = logging;
  project = 7;
  at_check = 10 * day;
  at_sessions = 10 * day;
  at_insert = 10 * day;
  logs = two;
  sessions = launches;
}

-- The same archive a day later, and another one before it.
abbrev resent : Upload
resent = record sent { at_check = 11 * day; at_sessions = 11 * day; at_insert = 11 * day }

abbrev other_upload : Upload
other_upload = record sent { logs = entry 3 ∷ [] }

replay_lem_example :
    let before = uploads (other_upload ∷ []) (record (upload sent empty) { faults = false ∷ [] }) in
    ((upload resent before).rows.logs ≡ before.rows.logs)
    × ((upload resent before).rows.usage ≡ before.rows.usage)
unfolding dump_logs check_daily_cap count_for_day statement stored_on usage_day would_exceed_cap
    insert_incoming_logs create_batch create_rows insert_rows add add_usage upsert_each
    upsert_session
replay_lem_example =
    replay_lem sent resent (other_upload ∷ []) empty 2 (false ∷ [])
      ((λ e. absurd (omega (arith, e))), ((λ e. absurd (omega (arith, e))), tt)) refl refl refl

dump_logs-le_example :
    stored_on 7
      (usage_day (10 * day + 5))
      (dump_logs logging 7
        (10 * day + 5)
        (10 * day + 6)
        (10 * day + 7)
        two
        launches
        empty).1.rows.usage
    ≤ 5
unfolding count_for_day statement stored_on usage_day
dump_logs-le_example =
    dump_logs-le logging 7 (10 * day + 5) (10 * day + 6) (10 * day + 7) 0 two launches empty refl
      refl (λ e. absurd (omega (arith, e))) refl refl (omega arith)

-- The last minute of the day: the wait is a minute.
dump_logs_refused_example :
    ((dump_logs logging 7
        (11 * day - 1)
        0
        0
        (entry 1 ∷ entry 2 ∷ entry 3 ∷ entry 4 ∷ entry 5 ∷ entry 6 ∷ [])
        launches
        empty).1.rows
      ≡ empty.rows)
    × (60 ≤ 60)
    × (60 ≤ 86400)
unfolding dump_logs check_daily_cap count_for_day statement stored_on usage_day would_exceed_cap
    seconds_until_next_day
dump_logs_refused_example =
    dump_logs_refused logging 7 (11 * day - 1) 0 0 60
      (entry 1 ∷ entry 2 ∷ entry 3 ∷ entry 4 ∷ entry 5 ∷ entry 6 ∷ []) launches empty refl
