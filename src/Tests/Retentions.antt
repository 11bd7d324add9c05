-- ===== src/Tests/Retentions.antt =====
-- A run of the nightly job on a small table.
use code_scout.Common.{
  ◌+◌, ◌*◌, ◌≤◌, refl, Bool, true, false, List, [], ◌∷◌, none, some, arith, length,
}
use code_scout.Storage.{LogRow, SessionRow, Storage, day, statement}
use code_scout.Retention.{
  purge_orphaned_logs, soft_delete_before, purge_soft_deleted, remove_some, purge_usage_before,
  purge_orphaned_sessions, purge_sessions_before,
}
use code_scout.Retention.Cleanup.{
  RetentionService, Moments, cleanup, reap_logs, reap, clean_rows, clean_purge, clean_usage,
  clean_sessions, valid_retention_days, valid_purge_after_days,
}
use code_scout.Retention.Members.{Has, here, there}
use code_scout.Retention.Recent.{cleanup_keeps_recent}
use code_scout.Retention.Resolved.{cleanup_resolves}
use code_scout.Retention.Bounds.{reap_logs_takes}

abbrev service : RetentionService
service = record {
  loaded = true;
  retention_days = 30;
  purge_after_days = 7;
  has_usage = true;
  has_sessions = true;
}

abbrev night : Moments
night = record {
  at_soft_delete = 100 * day;
  stamp = 100 * day;
  at_purge = 100 * day + 1;
  at_usage = 100 * day + 2;
  at_sessions = 100 * day + 3;
}

abbrev recent : LogRow
recent = record {
  client_id = some 1;
  project_id = 1;
  session_id = 5;
  time_stamp = 80 * day;
  deleted_at = none;
}

abbrev old : LogRow
old = record {
  client_id = some 2;
  project_id = 1;
  session_id = 6;
  time_stamp = 60 * day;
  deleted_at = none;
}

abbrev orphan : LogRow
orphan = record {
  client_id = some 3;
  project_id = 2;
  session_id = 7;
  time_stamp = 99 * day;
  deleted_at = none;
}

abbrev launch : SessionRow
launch = record { id = 5; project_id = 1; last_seen_at = 80 * day }

-- The third statement fails.
abbrev table : List Bool → Storage
table faults = record {
  rows = record {
    logs = orphan ∷ old ∷ recent ∷ [];
    sessions = launch ∷ [];
    usage = [];
    gone = 2 ∷ [];
  };
  faults = faults;
}

cleanup_keeps_recent_example :
    Has recent (cleanup service night (table (false ∷ true ∷ []))).1.rows.logs
cleanup_keeps_recent_example =
    cleanup_keeps_recent recent service night (table (false ∷ true ∷ []))
      (there orphan _ (there old _ (here []))) refl refl (omega arith)

cleanup_resolves_example : Has launch (cleanup service night (table [])).1.rows.sessions
unfolding cleanup clean_rows clean_purge clean_usage clean_sessions reap_logs reap statement
    valid_retention_days valid_purge_after_days purge_orphaned_logs soft_delete_before
    purge_soft_deleted remove_some purge_usage_before purge_orphaned_sessions purge_sessions_before
cleanup_resolves_example =
    cleanup_resolves service night (table []) recent launch refl refl refl refl (omega arith)
      (there _ _ (here [])) refl (here []) refl (omega arith)

reap_logs_takes_example :
    length (table []).rows.logs ≤ length (reap_logs (table [])).rows.logs + 1_000_000
reap_logs_takes_example = reap_logs_takes (table [])
