-- ===== src/Ingest.antt =====
-- internal/services/log_service.go: an upload, once its archive is read. A log without a client's id has
-- the id 0 (uuid.Nil); the rest of its contents is left out, with the columns that are computed from it.
-- The statements are those of internal/adapters/db/log_repo.go, session_repo.go and usage_repo.go.
pub mod Batch
pub mod Runs
pub mod Known
pub mod Replay
pub mod Counter
pub mod Series
pub mod Again
pub mod Capped
use code_scout.Common.{
  ℕ, zero, suc, ◌+◌, ◌-◌, ◌*◌, ◌/◌, Bool, true, false, not, ◌&&◌, ◌||◌, List, [], ◌∷◌, ◌++◌, map,
  Option, none, some, if◌then◌else◌, ◌==◌, ltb, leb, length, any,
}
use code_scout.Domain.LiveSession.{Uuid, Time, second}
use code_scout.Storage.{LogRow, SessionRow, UsageRow, Rows, Storage, day, usage_day, statement}

pub record IncomingLog : Type 0 where
  pub id : Uuid
  pub session_id : Uuid
  pub time_stamp : Time

-- Of a session of the upload, what its row keeps here.
pub record IncomingSession : Type 0 where
  pub id : Uuid
  pub last_seen_at : Option Time

abbrev pub client_id_of : Uuid → Option Uuid
client_id_of id = if id == 0 then none else some id

-- The loop of `insertIncomingLogs`.
abbrev pub to_row : Uuid → IncomingLog → LogRow
to_row project l = record {
  client_id = client_id_of l.id;
  project_id = project;
  session_id = l.session_id;
  time_stamp = l.time_stamp;
  deleted_at = none;
}

-- The unique index on project and client id, which rows that are marked as deleted are in, too.
abbrev pub is_client : Uuid → Uuid → LogRow → Bool
is_client project c row = elim row.client_id [
  | none ↦ false
  | some d ↦ d == c && row.project_id == project
]

abbrev pub conflicts : LogRow → List LogRow → Bool
conflicts row rows = elim row.client_id [
  | none ↦ false
  | some c ↦ any (is_client row.project_id c) rows
]

-- `INSERT … ON CONFLICT DO NOTHING`: how many rows were written, and the table.
unfoldable pub insert_rows : List LogRow → List LogRow → ℕ × List LogRow
insert_rows [] table = (0, table)
insert_rows (row ∷ rows) table = elim (conflicts row table) [
  | true ↦ insert_rows rows table
  | false ↦ (suc (insert_rows rows (table ++ row ∷ [])).0, (insert_rows rows (table ++ row ∷ [])).1)
]

-- `LogRepo.CreateBatch`, but for the statement that an empty batch spares
unfoldable pub create_rows : List LogRow → Rows → ℕ × Rows
create_rows rows rs = let done = insert_rows rows rs.logs in (done.0, record rs { logs = done.1 })

unfoldable pub create_batch : List LogRow → Storage → Option ℕ × Storage
create_batch [] st = (some 0, st)
create_batch (row ∷ rows) st = statement (create_rows (row ∷ rows)) st

abbrev pub counts_for : Uuid → Time → UsageRow → Bool
counts_for project at u = u.project_id == project && u.day == at

-- The count of a project's day; a missing row is zero.
unfoldable pub stored_on : Uuid → Time → List UsageRow → ℕ
stored_on project at [] = 0
stored_on project at (u ∷ us) =
    let rest = stored_on project at us in if counts_for project at u then u.log_count else rest

-- `UsageRepo.CountForDay`
unfoldable pub count_for_day : Uuid → Time → Storage → Option ℕ × Storage
count_for_day project at = statement λ rs. (stored_on project (usage_day at) rs.usage, rs)

unfoldable pub add_usage : Uuid → Time → ℕ → List UsageRow → List UsageRow
add_usage project at n [] = record { project_id = project; day = at; log_count = n } ∷ []
add_usage project at n (u ∷ us) =
    let rest = add_usage project at n us in
    if counts_for project at u then record u { log_count = u.log_count + n } ∷ us else u ∷ rest

-- `UsageRepo.Add`
unfoldable pub add : Uuid → Time → ℕ → Storage → Option ℕ × Storage
add project at zero st = (some 0, st)
add project at (suc n) st =
    statement (λ rs. (1, record rs { usage = add_usage project (usage_day at) (suc n) rs.usage }))
      st

abbrev pub upsert_row : SessionRow → List SessionRow → List SessionRow
upsert_row s [] = s ∷ []
upsert_row s (t ∷ ts) =
    let rest = upsert_row s ts in
    if t.id == s.id then (if t.project_id == s.project_id then s ∷ ts else t ∷ ts) else t ∷ rest

-- `SessionRepo.Upsert`: an id that another project has keeps its row.
unfoldable pub upsert_session : SessionRow → Storage → Option ℕ × Storage
upsert_session s = statement λ rs. (1, record rs { sessions = upsert_row s rs.sessions })

-- `WouldExceedCap` of internal/domain/usage.go
unfoldable pub would_exceed_cap : ℕ → ℕ → ℕ → Bool
would_exceed_cap stored incoming cap = if cap == 0 then false else ltb cap (stored + incoming)

-- `SecondsUntilNextDay` of internal/domain/usage.go
unfoldable pub seconds_until_next_day : Time → ℕ
seconds_until_next_day now =
    let secs = (usage_day now + day - now) / second in if ltb secs 60 then 60 else secs
