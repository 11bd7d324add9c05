-- ===== src/Storage.antt =====
-- The tables of logs, sessions and daily usage (internal/adapters/db/models.go), as far as
-- internal/services/log_service.go and retention_service.go read them, and the statements on them. A
-- time before the zero time is the zero time.
use code_scout.Common.{
  ℕ, ◌-◌, ◌*◌, ◌%◌, Bool, true, false, List, [], ◌∷◌, Option, none, some, ◌==◌, any,
}
use code_scout.Domain.LiveSession.{Uuid, Time, minute}

pub record LogRow : Type 0 where
  pub client_id : Option Uuid
  pub project_id : Uuid
  pub session_id : Uuid
  pub time_stamp : Time
  pub deleted_at : Option Time

pub record SessionRow : Type 0 where
  pub id : Uuid
  pub project_id : Uuid
  pub last_seen_at : Time

pub record UsageRow : Type 0 where
  pub project_id : Uuid
  pub day : Time
  pub log_count : ℕ

-- `gone` are the projects with a `deleted_at`.
pub record Rows : Type 0 where
  pub logs : List LogRow
  pub sessions : List SessionRow
  pub usage : List UsageRow
  pub gone : List Uuid

-- The rows, and which of the coming statements fail.
pub record Storage : Type 0 where
  pub rows : Rows
  pub faults : List Bool

abbrev pub day : ℕ
day = 24 * (60 * minute)

-- `domain.UsageDay`, where a time counts from the start of a day in UTC.
unfoldable pub usage_day : Time → Time
usage_day at = at - at % day

abbrev pub run_on : (Rows → ℕ × Rows) → Rows → List Bool → Option ℕ × Storage
run_on f rs [] = let done = f rs in (some done.0, record { rows = done.1; faults = [] })
run_on f rs (false ∷ fs) = let done = f rs in (some done.0, record { rows = done.1; faults = fs })
run_on f rs (true ∷ fs) = (none, record { rows = rs; faults = fs })

-- One statement of SQL: the number of rows it touched, or an error.
unfoldable pub statement : (Rows → ℕ × Rows) → Storage → Option ℕ × Storage
statement f st = run_on f st.rows st.faults

abbrev pub is_gone : Rows → Uuid → Bool
is_gone rs project = any (λ p. p == project) rs.gone
