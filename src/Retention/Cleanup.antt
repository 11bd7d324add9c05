-- ===== src/Retention/Cleanup.antt =====
-- `Cleanup` of internal/services/retention_service.go, with the bounds of
-- internal/domain/instance_settings.go.
use code_scout.Common.{
  ℕ, zero, suc, ◌+◌, ◌-◌, ◌*◌, Bool, true, false, not, ◌&&◌, ◌||◌, none, some, if◌then◌else◌, ltb,
  leb,
}
use code_scout.Domain.LiveSession.{Time}
use code_scout.Storage.{Rows, Storage, day, statement}
use code_scout.Retention.{
  soft_delete_before, purge_soft_deleted, purge_orphaned_logs, purge_orphaned_sessions,
  purge_sessions_before, purge_usage_before,
}

abbrev pub orphan_batch_size : ℕ
orphan_batch_size = 5000

abbrev pub orphan_max_batches : ℕ
orphan_max_batches = 200

abbrev pub usage_grace_days : ℕ
usage_grace_days = 90

-- `ValidRetentionDays`
unfoldable pub valid_retention_days : ℕ → Bool
valid_retention_days days = leb 1 days && leb days 3650

-- `ValidPurgeAfterDays`
unfoldable pub valid_purge_after_days : ℕ → Bool
valid_purge_after_days days = leb 1 days && leb days 365

-- What `Cleanup` reads of the settings, and which of its optional repositories there are.
pub record RetentionService : Type 0 where
  pub loaded : Bool
  pub retention_days : ℕ
  pub purge_after_days : ℕ
  pub has_usage : Bool
  pub has_sessions : Bool

-- What the clock says at each `time.Now()`, and what GORM writes into `deleted_at`.
pub record Moments : Type 0 where
  pub at_soft_delete : Time
  pub stamp : Time
  pub at_purge : Time
  pub at_usage : Time
  pub at_sessions : Time

-- A loop that reaps orphans, batch by batch.
unfoldable pub reap : (Rows → ℕ × Rows) → ℕ → Storage → Storage
reap f zero st = st
reap f (suc n) st = elim (statement f st).0 [
  | none ↦ (statement f st).1
  | some k ↦ elim (ltb k orphan_batch_size) [
    | true ↦ (statement f st).1
    | false ↦ reap f n (statement f st).1
  ]
]

unfoldable pub reap_logs : Storage → Storage
reap_logs = reap (purge_orphaned_logs orphan_batch_size) orphan_max_batches

-- Phase 4
unfoldable pub clean_sessions : RetentionService → Moments → Storage → Storage
clean_sessions r m st =
    if r.has_sessions
    then (statement
        (purge_sessions_before (m.at_sessions - (r.retention_days + r.purge_after_days) * day))
        (reap (purge_orphaned_sessions orphan_batch_size) orphan_max_batches st)).1
    else st

-- Phase 3
unfoldable pub clean_usage : RetentionService → Moments → Storage → Storage
clean_usage r m st =
    if r.has_usage
    then (statement (purge_usage_before (m.at_usage - (r.retention_days + usage_grace_days) * day))
        st).1
    else st

-- Phases 2 to 4
unfoldable pub clean_purge : RetentionService → Moments → Storage → Bool × Storage
clean_purge r m st =
    let done = statement (purge_soft_deleted (m.at_purge - r.purge_after_days * day)) st in
    elim done.0 [
      | none ↦ (false, done.1)
      | some n ↦ (true, clean_sessions r m (clean_usage r m done.1))
    ]

-- Phases 1 to 4
unfoldable pub clean_rows : RetentionService → Moments → Storage → Bool × Storage
clean_rows r m st =
    let done =
      statement (soft_delete_before (m.at_soft_delete - r.retention_days * day) m.stamp) st in
    elim done.0 [ none ↦ (false, done.1) | some n ↦ clean_purge r m done.1 ]

-- `Cleanup`: whether it returned without an error, and the storage behind it.
unfoldable pub cleanup : RetentionService → Moments → Storage → Bool × Storage
cleanup r m st =
    if not r.loaded
    then (true, st)
    else if not (valid_retention_days r.retention_days)
        || not (valid_purge_after_days r.purge_after_days)
    then (true, st)
    else clean_rows r m (reap_logs st)
