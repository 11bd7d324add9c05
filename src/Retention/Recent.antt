-- ===== src/Retention/Recent.antt =====
-- `Cleanup` of internal/services/retention_service.go: rows that it leaves alone.
use code_scout.Common.{
  ◌+◌, ◌-◌, ◌*◌, ◌≤◌, ◌≡◌, refl, false, not, ◌||◌, none, inl, inr, arith, Bool-cases, Option-cases,
}
use code_scout.Domain.LiveSession.{Time}
use code_scout.Storage.{LogRow, Rows, Storage, day, statement, is_gone}
use code_scout.Retention.{
  expires, soft_delete_before, purge_soft_deleted, purge_orphaned_logs, purge_orphaned_sessions,
  purge_sessions_before, purge_usage_before,
}
use code_scout.Retention.Cleanup.{
  RetentionService, Moments, orphan_batch_size, orphan_max_batches, usage_grace_days,
  valid_retention_days, valid_purge_after_days, reap_logs, clean_sessions, clean_usage, clean_purge,
  clean_rows, cleanup,
}
use code_scout.Retention.Members.{
  Has, Has-keep, Has-map, Has-remove_some, statement-keeps, reap-keeps,
}

-- What the statements of a run leave in place, if it gets that far.
pub record Kept (P : Rows → Type 0) (r : RetentionService) (m : Moments) : Type 0 where
  pub orphans : (rs : Rows) → P rs → P (purge_orphaned_logs orphan_batch_size rs).1
  pub softly :
      (rs : Rows)
      → P rs
      → P (soft_delete_before (m.at_soft_delete - r.retention_days * day) m.stamp rs).1
  pub purged :
      (rs : Rows) → P rs → P (purge_soft_deleted (m.at_purge - r.purge_after_days * day) rs).1
  pub counters :
      (rs : Rows)
      → P rs
      → P (purge_usage_before (m.at_usage - (r.retention_days + usage_grace_days) * day) rs).1
  pub lost_sessions : (rs : Rows) → P rs → P (purge_orphaned_sessions orphan_batch_size rs).1
  pub old_sessions :
      (rs : Rows)
      → P rs
      → P
          (purge_sessions_before
            (m.at_sessions - (r.retention_days + r.purge_after_days) * day)
            rs).1

module _ (P : Rows → Type 0) (r : RetentionService) (m : Moments) (k : Kept P r m) where
  clean_sessions-keeps : (st : Storage) → P st.rows → P (clean_sessions r m st).rows
  unfolding clean_sessions
  clean_sessions-keeps st h = elim (Bool-cases r.has_sessions) [
    | inl e ↦ rw e (
        statement-keeps P _ _ k.old_sessions
          (reap-keeps P _ orphan_max_batches st k.lost_sessions h))
    | inr e ↦ rw e h
  ]

  clean_usage-keeps : (st : Storage) → P st.rows → P (clean_usage r m st).rows
  unfolding clean_usage
  clean_usage-keeps st h = elim (Bool-cases r.has_usage) [
    | inl e ↦ rw e (statement-keeps P _ st k.counters h)
    | inr e ↦ rw e h
  ]

  pub clean_purge-keeps : (st : Storage) → P st.rows → P (clean_purge r m st).1.rows
  unfolding clean_purge
  clean_purge-keeps st h =
      let f = purge_soft_deleted (m.at_purge - r.purge_after_days * day) in
      let kept = statement-keeps P f st k.purged h in
      elim (Option-cases (statement f st).0) [
        | inl e ↦ rw (clean_purge, e) kept
        | inr (n, e) ↦ rw (clean_purge, e) (clean_sessions-keeps _ (clean_usage-keeps _ kept))
      ]

  clean_rows-keeps : (st : Storage) → P st.rows → P (clean_rows r m st).1.rows
  unfolding clean_rows
  clean_rows-keeps st h =
      let f = soft_delete_before (m.at_soft_delete - r.retention_days * day) m.stamp in
      let kept = statement-keeps P f st k.softly h in
      elim (Option-cases (statement f st).0) [
        | inl e ↦ rw (clean_rows, e) kept
        | inr (n, e) ↦ rw (clean_rows, e) (clean_purge-keeps _ kept)
      ]

  pub cleanup-keeps : (st : Storage) → P st.rows → P (cleanup r m st).1.rows
  unfolding cleanup reap_logs
  cleanup-keeps st h =
      let bad =
        not (valid_retention_days r.retention_days)
        || not (valid_purge_after_days r.purge_after_days) in
      elim (Bool-cases (not r.loaded)) [
        | inl e ↦ rw e h
        | inr e ↦ elim (Bool-cases bad) [
          | inl f ↦ rw (e, f) h
          | inr f ↦
              rw (e, f) (clean_rows-keeps _ (reap-keeps P _ orphan_max_batches st k.orphans h))
        ]
      ]

-- A log that is in the table, of a project that is not deleted.
record LogKept (l : LogRow) (rs : Rows) : Type 0 where
  pub has_log : Has l rs.logs
  pub stays : is_gone rs l.project_id ≡ false

not-expires : (before : Time) (l : LogRow) → before ≤ l.time_stamp → expires before l ≡ false
not-expires before l h = ground (arith, h)

log-Kept :
    (l : LogRow) (r : RetentionService) (m : Moments)
    → l.deleted_at ≡ none
    → m.at_soft_delete - r.retention_days * day ≤ l.time_stamp
    → Kept (LogKept l) r m
unfolding purge_orphaned_logs soft_delete_before purge_soft_deleted purge_usage_before
    purge_orphaned_sessions purge_sessions_before
log-Kept l r m live recent = record {
  orphans = λ rs h. record {
    has_log = Has-remove_some _ l orphan_batch_size rs.logs h.stays h.has_log;
    stays = h.stays;
  };
  softly = λ rs h. record {
    has_log = Has-map _ l rs.logs (rw (not-expires _ l recent) refl) h.has_log;
    stays = h.stays;
  };
  purged =
      λ rs h. record { has_log = Has-keep _ l rs.logs (rw live refl) h.has_log; stays = h.stays };
  counters = λ rs h. record { has_log = h.has_log; stays = h.stays };
  lost_sessions = λ rs h. record { has_log = h.has_log; stays = h.stays };
  old_sessions = λ rs h. record { has_log = h.has_log; stays = h.stays };
}

-- A log within the retention window that is not soft-deleted, of a project that is not deleted, is in
-- the table after the run as it was before, whichever statements fail.
pub cleanup_keeps_recent :
    (l : LogRow) (r : RetentionService) (m : Moments) (st : Storage)
    → Has l st.rows.logs
    → is_gone st.rows l.project_id ≡ false
    → l.deleted_at ≡ none
    → m.at_soft_delete - r.retention_days * day ≤ l.time_stamp
    → Has l (cleanup r m st).1.rows.logs
cleanup_keeps_recent l r m st h stays live recent =
    (cleanup-keeps (LogKept l) r m (log-Kept l r m live recent) st
      (record { has_log = h; stays = stays })).has_log
