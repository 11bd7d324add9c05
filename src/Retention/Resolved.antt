-- ===== src/Retention/Resolved.antt =====
-- `Cleanup` of internal/services/retention_service.go: the sessions of the logs that it leaves.
use code_scout.Common.{
  zero, suc, sym, subst, ap, ◌∙◌, List, [], ◌∷◌, map, keep, All, All-map, All-keep, ℕ, ◌+◌, ◌-◌,
  ◌*◌, ◌≤◌, ◌≡◌, refl, Bool, true, false, none, some, inl, inr, arith, ltb, Bool-cases,
  Option-cases,
}
use code_scout.Domain.LiveSession.{Time}
use code_scout.Storage.{run_on, LogRow, SessionRow, Rows, Storage, day, statement, is_gone}
use code_scout.Retention.{
  expires, mark_deleted, soft_delete_before, purge_soft_deleted, purge_orphaned_logs,
  purge_orphaned_sessions, purge_sessions_before, purge_usage_before, remove_some,
}
use code_scout.Retention.Cleanup.{
  RetentionService, Moments, orphan_batch_size, valid_retention_days, valid_purge_after_days,
  reap_logs, clean_rows, cleanup,
}
use code_scout.Retention.Members.{All-Has, Has, Has-keep, Has-remove_some}
use code_scout.Retention.Recent.{Kept, clean_purge-keeps, cleanup-keeps}

-- A log that is not marked as deleted is no older than the cutoff.
abbrev WithinWindow : Time → LogRow → Type 0
WithinWindow cutoff l = l.deleted_at ≡ none → cutoff ≤ l.time_stamp

not_late :
    (cutoff : Time) (l : LogRow)
    → l.deleted_at ≡ none
    → expires cutoff l ≡ false
    → cutoff ≤ l.time_stamp
not_late cutoff l live h = in_time (rw live at h)
  where
    in_time : ltb l.time_stamp cutoff ≡ false → cutoff ≤ l.time_stamp
    in_time k = ground (arith, k)

marked-WithinWindow :
    (cutoff stamp : Time) (l : LogRow) → WithinWindow cutoff (mark_deleted cutoff stamp l)
marked-WithinWindow cutoff stamp l live = elim (Bool-cases (expires cutoff l)) [
  | inl e ↦ let clash : some stamp ≡ none = rw e at live in cc
  | inr e ↦ rw e (not_late cutoff l (rw e at live) e)
]

All-marked :
    (cutoff stamp : Time) (ls : List LogRow)
    → All (WithinWindow cutoff) (map (mark_deleted cutoff stamp) ls)
All-marked cutoff stamp [] = tt
All-marked cutoff stamp (l ∷ ls) = (marked-WithinWindow cutoff stamp l, All-marked cutoff stamp ls)

All-left :
    (P : LogRow → Type 0) (p : LogRow → Bool) (ls : List LogRow) → All P ls → All P (keep p ls)
All-left P p ls h = All-map _ P (λ l k. k.0) (keep p ls) (All-keep P p ls h)

All-remove_some :
    (P : LogRow → Type 0) (p : LogRow → Bool) (n : ℕ) (ls : List LogRow)
    → All P ls
    → All P (remove_some p n ls).1
unfolding remove_some
All-remove_some P p zero ls h = h
All-remove_some P p (suc n) [] h = tt
All-remove_some P p (suc n) (l ∷ ls) h = elim (Bool-cases (p l)) [
  | inl e ↦ rw (remove_some, e) (All-remove_some P p n ls h.1)
  | inr e ↦ rw (remove_some, e) (h.0, All-remove_some P p (suc n) ls h.1)
]

cutoff_of : RetentionService → Moments → Time
cutoff_of r m = m.at_soft_delete - r.retention_days * day

abbrev AllWithin : Time → Rows → Type 0
AllWithin cutoff rs = All (WithinWindow cutoff) rs.logs

within-Kept : (r : RetentionService) (m : Moments) → Kept (AllWithin (cutoff_of r m)) r m
unfolding cutoff_of purge_orphaned_logs soft_delete_before purge_soft_deleted purge_usage_before
    purge_orphaned_sessions purge_sessions_before
within-Kept r m = record {
  orphans = λ rs h. All-remove_some _ _ orphan_batch_size rs.logs h;
  softly = λ rs h. All-marked _ m.stamp rs.logs;
  purged = λ rs h. All-left _ _ rs.logs h;
  counters = λ rs h. h;
  lost_sessions = λ rs h. h;
  old_sessions = λ rs h. h;
}

statement_done :
    (f : Rows → ℕ × Rows) (st : Storage) (n : ℕ)
    → (statement f st).0 ≡ some n
    → (statement f st).1.rows ≡ (f st.rows).1
unfolding statement
statement_done f st n e = by_fault st.rows st.faults e
  where
    by_fault :
        (rs : Rows) (fs : List Bool)
        → (run_on f rs fs).0 ≡ some n
        → (run_on f rs fs).1.rows ≡ (f rs).1
    by_fault rs [] e = refl
    by_fault rs (false ∷ fs) e = refl
    by_fault rs (true ∷ fs) e = cc

-- A run that got through leaves no live log past the window.
clean_rows-AllWithin :
    (r : RetentionService) (m : Moments) (st : Storage)
    → (clean_rows r m st).0 ≡ true
    → AllWithin (cutoff_of r m) (clean_rows r m st).1.rows
unfolding clean_rows soft_delete_before cutoff_of
clean_rows-AllWithin r m st done =
    let f = soft_delete_before (m.at_soft_delete - r.retention_days * day) m.stamp in
    elim (Option-cases (statement f st).0) [
      | inl e ↦ let clash : false ≡ true = rw (clean_rows, e) at done in cc
      | inr (n, e) ↦
          rw (clean_rows, e)
            (clean_purge-keeps (AllWithin (cutoff_of r m)) r m (within-Kept r m) _ (
              subst (AllWithin (cutoff_of r m)) (sym (statement_done f st n e))
                (All-marked _ m.stamp st.rows.logs)))
    ]

cleanup_runs :
    (r : RetentionService) (m : Moments) (st : Storage)
    → r.loaded ≡ true
    → valid_retention_days r.retention_days ≡ true
    → valid_purge_after_days r.purge_after_days ≡ true
    → cleanup r m st ≡ clean_rows r m (reap_logs st)
unfolding cleanup
cleanup_runs r m st loaded valid valid' = simp (loaded, valid, valid')

cleanup-AllWithin :
    (r : RetentionService) (m : Moments) (st : Storage)
    → r.loaded ≡ true
    → valid_retention_days r.retention_days ≡ true
    → valid_purge_after_days r.purge_after_days ≡ true
    → (cleanup r m st).0 ≡ true
    → AllWithin (cutoff_of r m) (cleanup r m st).1.rows
cleanup-AllWithin r m st loaded valid valid' done =
    let runs = cleanup_runs r m st loaded valid valid' in
    subst (λ out. AllWithin (cutoff_of r m) out.1.rows) (sym runs)
      (clean_rows-AllWithin r m (reap_logs st) (sym (ap (λ out. out.0) runs) ∙ done))

-- A session that is in the table, of a project that is not deleted.
record SessionKept (s : SessionRow) (rs : Rows) : Type 0 where
  pub has_session : Has s rs.sessions
  pub stays : is_gone rs s.project_id ≡ false

seen_lately :
    (before : Time) (s : SessionRow) → before ≤ s.last_seen_at → ltb s.last_seen_at before ≡ false
seen_lately before s h = ground (arith, h)

session-Kept :
    (s : SessionRow) (r : RetentionService) (m : Moments)
    → m.at_sessions - (r.retention_days + r.purge_after_days) * day ≤ s.last_seen_at
    → Kept (SessionKept s) r m
unfolding purge_orphaned_logs soft_delete_before purge_soft_deleted purge_usage_before
    purge_orphaned_sessions purge_sessions_before
session-Kept s r m recent = record {
  orphans = λ rs h. record { has_session = h.has_session; stays = h.stays };
  softly = λ rs h. record { has_session = h.has_session; stays = h.stays };
  purged = λ rs h. record { has_session = h.has_session; stays = h.stays };
  counters = λ rs h. record { has_session = h.has_session; stays = h.stays };
  lost_sessions = λ rs h. record {
    has_session = Has-remove_some _ s orphan_batch_size rs.sessions h.stays h.has_session;
    stays = h.stays;
  };
  old_sessions = λ rs h. record {
    has_session = Has-keep _ s rs.sessions (rw (seen_lately _ s recent) refl) h.has_session;
    stays = h.stays;
  };
}

-- When a run with valid settings has returned without an error, within the grace period after its
-- soft-delete, each session of a project that is not deleted is left that was last seen no earlier than
-- some log that is left and not marked as deleted.
pub cleanup_resolves :
    (r : RetentionService) (m : Moments) (st : Storage) (l : LogRow) (s : SessionRow)
    → r.loaded ≡ true
    → valid_retention_days r.retention_days ≡ true
    → valid_purge_after_days r.purge_after_days ≡ true
    → (cleanup r m st).0 ≡ true
    → m.at_sessions ≤ m.at_soft_delete + r.purge_after_days * day
    → Has l (cleanup r m st).1.rows.logs
    → l.deleted_at ≡ none
    → Has s st.rows.sessions
    → is_gone st.rows s.project_id ≡ false
    → l.time_stamp ≤ s.last_seen_at
    → Has s (cleanup r m st).1.rows.sessions
unfolding cutoff_of
cleanup_resolves r m st l s loaded valid valid' done quick has_l live has_s stays later =
    let within = cleanup-AllWithin r m st loaded valid valid' done in
    let fresh : cutoff_of r m ≤ l.time_stamp =
      All-Has (WithinWindow (cutoff_of r m)) l (cleanup r m st).1.rows.logs within has_l live in
    (cleanup-keeps (SessionKept s) r m (session-Kept s r m (omega (arith, fresh, later, quick))) st
      (record { has_session = has_s; stays = stays })).has_session
