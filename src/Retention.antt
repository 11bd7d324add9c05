-- ===== src/Retention.antt =====
-- internal/services/retention_service.go, with the statements of internal/adapters/db/log_repo.go,
-- session_repo.go and usage_repo.go that it runs. Of a row, only what these read is here; a time before
-- the zero time is the zero time, and the numbers of days are not negative.
pub mod Cleanup
pub mod Members
pub mod Recent
pub mod Resolved
pub mod Bounds
use code_scout.Common.{
  ℕ, zero, suc, ◌+◌, ◌-◌, ◌*◌, ◌%◌, Bool, true, false, not, ◌&&◌, ◌||◌, List, [], ◌∷◌, map, Option,
  none, some, if◌then◌else◌, ◌==◌, ltb, leb, length, keep, any,
}
use code_scout.Domain.LiveSession.{Uuid, Time, minute}
use code_scout.Storage.{
  LogRow, SessionRow, UsageRow, Rows, Storage, day, usage_day, run_on, statement, is_gone,
}

abbrev pub not_deleted : LogRow → Bool
not_deleted l = elim l.deleted_at [ none ↦ true | some t ↦ false ]

abbrev pub expires : Time → LogRow → Bool
expires before l = not_deleted l && ltb l.time_stamp before

abbrev pub mark_deleted : Time → Time → LogRow → LogRow
mark_deleted before stamp l = if expires before l then record l { deleted_at = some stamp } else l

-- `LogRepo.SoftDeleteBefore`: GORM sets `deleted_at` of the rows that have none.
unfoldable pub soft_delete_before : Time → Time → Rows → ℕ × Rows
soft_delete_before before stamp rs = (
  length (keep (expires before) rs.logs),
  record rs { logs = map (mark_deleted before stamp) rs.logs },
)

abbrev pub purgeable : Time → LogRow → Bool
purgeable older l = elim l.deleted_at [ none ↦ false | some t ↦ ltb t older ]

-- `LogRepo.PurgeSoftDeleted`
unfoldable pub purge_soft_deleted : Time → Rows → ℕ × Rows
purge_soft_deleted older rs = (
  length (keep (purgeable older) rs.logs),
  record rs { logs = keep (λ l. not (purgeable older l)) rs.logs },
)

-- `DELETE … LIMIT`: some rows that pass the test, here the first, and what is left.
unfoldable pub remove_some {ℓ} : {A : Type ℓ} → (A → Bool) → ℕ → List A → ℕ × List A
remove_some p zero xs = (0, xs)
remove_some p (suc n) [] = (0, [])
remove_some p (suc n) (x ∷ xs) = elim (p x) [
  | true ↦ (suc (remove_some p n xs).0, (remove_some p n xs).1)
  | false ↦ ((remove_some p (suc n) xs).0, x ∷ (remove_some p (suc n) xs).1)
]

-- `LogRepo.PurgeOrphanedLogs`
unfoldable pub purge_orphaned_logs : ℕ → Rows → ℕ × Rows
purge_orphaned_logs limit rs =
    let done = remove_some (λ l. is_gone rs l.project_id) limit rs.logs in
    (done.0, record rs { logs = done.1 })

-- `SessionRepo.PurgeOrphanedSessions`
unfoldable pub purge_orphaned_sessions : ℕ → Rows → ℕ × Rows
purge_orphaned_sessions limit rs =
    let done = remove_some (λ s. is_gone rs s.project_id) limit rs.sessions in
    (done.0, record rs { sessions = done.1 })

-- `SessionRepo.PurgeSessionsBefore`
unfoldable pub purge_sessions_before : Time → Rows → ℕ × Rows
purge_sessions_before before rs = (
  length (keep (λ s. ltb s.last_seen_at before) rs.sessions),
  record rs { sessions = keep (λ s. not (ltb s.last_seen_at before)) rs.sessions },
)

-- `UsageRepo.PurgeUsageBefore`
unfoldable pub purge_usage_before : Time → Rows → ℕ × Rows
unfolding usage_day
purge_usage_before before rs = (
  length (keep (λ u. ltb u.day (usage_day before)) rs.usage),
  record rs { usage = keep (λ u. not (ltb u.day (usage_day before))) rs.usage },
)
