-- ===== src/Ingest/Capped.antt =====
-- The daily cap of internal/services/log_service.go and internal/domain/usage.go.
use code_scout.Common.{
  ℕ, zero, suc, ◌+◌, ◌≤◌, ◌≡◌, ◌≢◌, refl, sym, ◌∙◌, ap, subst, true, List, [], ◌∷◌, map, Option,
  none, some, inl, inr, arith, ◌==◌, length, Bool-cases, Option-cases,
}
use code_scout.Domain.LiveSession.{Uuid, Time}
use code_scout.Storage.{LogRow, Rows, Storage, usage_day}
use code_scout.Ingest.{
  IncomingLog, IncomingSession, to_row, create_rows, create_batch, stored_on, count_for_day, add,
  upsert_session,
}
use code_scout.Ingest.Batch.{
  LogService, round_trip_of, write_batch, insert_incoming_logs, check_daily_cap, upsert_each,
  upsert_sessions, retry_after, answered, dump_logs,
}
use code_scout.Retention.Members.{statement-keeps}
use code_scout.Ingest.Runs.{
  Through, statement-Through, then_run-Through, rolled_back-Behind, answered-rows,
}
use code_scout.Ingest.Counter.{
  seconds_bounded, stored_on-add_usage, insert_rows-le, count-value, check-rows, check-seconds,
  check-fits,
}

module _ (s : LogService) (project : Uuid) where
  module _ (at : Time) (total : ℕ) where
    -- The counter of the day.
    abbrev counted : Rows → ℕ
    counted rs = stored_on project at rs.usage

    Fits : Rows → Type 0
    Fits rs = counted rs + total ≤ s.daily_log_cap

    UnderCap : Rows → Type 0
    UnderCap rs = counted rs ≤ s.daily_log_cap

    upsert_each-Fits :
        (now : Time) (ss : List IncomingSession) (st : Storage)
        → Fits st.rows
        → Fits (upsert_each project now ss st).rows
    unfolding upsert_each upsert_session Fits
    upsert_each-Fits now [] st h = h
    upsert_each-Fits now (x ∷ ss) st h = elim (Bool-cases (x.id == 0)) [
      | inl e ↦ rw (upsert_each, e) (upsert_each-Fits now ss st h)
      | inr e ↦
          rw (upsert_each, e) (upsert_each-Fits now ss _ (statement-keeps Fits _ st (λ rs k. k) h))
    ]

    upsert_sessions-Fits :
        (now : Time) (ss : List IncomingSession) (st : Storage)
        → Fits st.rows
        → Fits (upsert_sessions s project now ss st).rows
    unfolding Fits
    upsert_sessions-Fits now ss st h = elim (Bool-cases s.has_sessions) [
      | inl e ↦ rw e (upsert_each-Fits now ss st h)
      | inr e ↦ rw e h
    ]

    -- A batch that is no longer than the upload.
    Written : ℕ → Rows → Type 0
    Written n rs = counted rs + n ≤ s.daily_log_cap

    create_batch-Written :
        (rows : List LogRow) (st : Storage)
        → length rows ≤ total
        → Fits st.rows
        → Through Written (create_batch rows st)
    unfolding create_batch create_rows Written Fits
    create_batch-Written [] st short h = omega (arith, h)
    create_batch-Written (r ∷ rows) st short h =
        statement-Through Written _ st
          (omega (arith, h, short, insert_rows-le (r ∷ rows) st.rows.logs))

    add-UnderCap :
        (now : Time) (n : ℕ) (st : Storage)
        → usage_day now ≡ at
        → Written n st.rows
        → Through (λ k rs. UnderCap rs) (add project now n st)
    unfolding add Written UnderCap
    add-UnderCap now zero st same h = omega (arith, h)
    add-UnderCap now (suc n) st same h =
        statement-Through (λ k rs. UnderCap rs) _ st
          (rw same (omega (arith, h, stored_on-add_usage project at (suc n) st.rows.usage)))

    write-UnderCap :
        (now : Time) (rows : List LogRow) (st : Storage)
        → length rows ≤ total
        → usage_day now ≡ at
        → s.has_usage ≡ true
        → Fits st.rows
        → Through (λ n rs. UnderCap rs) (write_batch s project now rows st)
    unfolding UnderCap
    write-UnderCap now rows st short same usage h =
        then_run-Through Written (λ n rs. UnderCap rs) (create_batch rows st) _
          (create_batch-Written rows st short h)
          (λ n st' k. rw usage (
            then_run-Through (λ _ rs. UnderCap rs) (λ _ rs. UnderCap rs) (add project now n st')
              (λ _ st''. (some n, st'')) (add-UnderCap now n st' same k) (λ _ st'' k'. k')))

    insert-UnderCap :
        (now : Time) (logs : List IncomingLog) (st : Storage)
        → length (map (to_row project) logs) ≤ total
        → usage_day now ≡ at
        → s.has_usage ≡ true
        → Fits st.rows
        → UnderCap (insert_incoming_logs s project now logs st).1.rows
    unfolding insert_incoming_logs UnderCap Fits
    insert-UnderCap now logs st short same usage h =
        rolled_back-Behind UnderCap st.rows _ (omega (arith, h)) (
          then_run-Through (λ n rs. Fits rs) (λ n rs. UnderCap rs) (round_trip_of 0 st) _
            (statement-Through (λ n rs. Fits rs) _ st h)
            (λ _ st' k.
              then_run-Through (λ n rs. UnderCap rs) (λ n rs. UnderCap rs)
                (write_batch s project now (map (to_row project) logs) st') round_trip_of
                (write-UnderCap now (map (to_row project) logs) st' short same usage k)
                (λ n st'' k'. statement-Through (λ n rs. UnderCap rs) _ st'' k')))

length-map :
    (project : Uuid) (logs : List IncomingLog) → length (map (to_row project) logs) ≡ length logs
length-map project [] = refl
length-map project (l ∷ logs) = ap suc (length-map project logs)

-- With a cap and a counter that can be read, an upload that is checked and written on one day, with no
-- statement of another upload between its check and its end, leaves the day's counter at or under the
-- cap if it was, whether it is stored, refused or fails. Uploads at the same time are not covered.
pub dump_logs-le :
    (s : LogService) (project : Uuid) (at_check at_sessions at_insert : Time) (n : ℕ)
    (logs : List IncomingLog) (sessions : List IncomingSession) (st : Storage)
    → s.has_usage ≡ true
    → s.has_settings ≡ true
    → s.daily_log_cap ≢ 0
    → (count_for_day project at_check st).0 ≡ some n
    → usage_day at_insert ≡ usage_day at_check
    → stored_on project (usage_day at_check) st.rows.usage ≤ s.daily_log_cap
    → stored_on project
        (usage_day at_check)
        (dump_logs s project at_check at_sessions at_insert logs sessions st).1.rows.usage
      ≤ s.daily_log_cap
unfolding dump_logs Fits UnderCap
dump_logs-le s project at_check at_sessions at_insert n logs sessions st usage settings capped read
      same under =
    let checked = check_daily_cap s project at_check (length logs) st in
    let unchanged = check-rows s project at_check (length logs) st in
    let at = usage_day at_check in
    elim (Option-cases checked.0) [
      | inl e ↦
          let fits =
            check-fits s project at_check (length logs) n st usage settings capped read e in
          let value = count-value project at_check st n read in
          let start = ap (λ rs. stored_on project at rs.usage) unchanged in
          let ready =
            upsert_sessions-Fits s project at (length logs) at_sessions sessions checked.1
              (omega (arith, fits, value, start)) in
          let done =
            insert-UnderCap s project at (length logs) at_insert logs _
              (omega (arith, length-map project logs)) same usage ready in
          rw (dump_logs, e)
            (subst (λ rs. stored_on project at rs.usage ≤ s.daily_log_cap) (sym (answered-rows _))
              done)
      | inr (k, e) ↦
          rw (dump_logs, e)
            (subst (λ rs. stored_on project at rs.usage ≤ s.daily_log_cap) (sym unchanged) under)
    ]

dump-refused :
    (s : LogService) (project : Uuid) (at_check at_sessions at_insert : Time) (j : ℕ)
    (logs : List IncomingLog) (sessions : List IncomingSession) (st : Storage)
    → (check_daily_cap s project at_check (length logs) st).0 ≡ some j
    → dump_logs s project at_check at_sessions at_insert logs sessions st
      ≡ (retry_after j, (check_daily_cap s project at_check (length logs) st).1)
unfolding dump_logs
dump-refused s project at_check at_sessions at_insert j logs sessions st e = rw (dump_logs, e) refl

answered-not : (o : Option ℕ × Storage) (k : ℕ) → (answered o).0 ≡ retry_after k → 1 ≤ 0
answered-not (none, st) k h = cc
answered-not (some n, st) k h = cc

retry_after_inj : {j k : ℕ} → retry_after j ≡ retry_after k → j ≡ k
retry_after_inj h = cc

-- A refused upload changes no table, and the client is told to wait between a minute and a day.
pub dump_logs_refused :
    (s : LogService) (project : Uuid) (at_check at_sessions at_insert : Time) (k : ℕ)
    (logs : List IncomingLog) (sessions : List IncomingSession) (st : Storage)
    → (dump_logs s project at_check at_sessions at_insert logs sessions st).0 ≡ retry_after k
    → ((dump_logs s project at_check at_sessions at_insert logs sessions st).1.rows ≡ st.rows)
      × (60 ≤ k)
      × (k ≤ 86400)
unfolding dump_logs
dump_logs_refused s project at_check at_sessions at_insert k logs sessions st refused =
    let checked = check_daily_cap s project at_check (length logs) st in
    elim (Option-cases checked.0) [
      | inl e ↦ absurd (omega (arith, answered-not _ k (rw (dump_logs, e) at refused)))
      | inr (j, e) ↦
          let wait : j ≡ k = retry_after_inj (rw (dump_logs, e) at refused) in
          let k_is = sym wait ∙ check-seconds s project at_check (length logs) j st e in
          let (low, high) = seconds_bounded at_check in
          (
            ap (λ o. o.1.rows)
                  (dump-refused s project at_check at_sessions at_insert j logs sessions st e)
                ∙ check-rows s project at_check (length logs) st,
            omega (arith, low, k_is),
            omega (arith, high, k_is),
          )
    ]
