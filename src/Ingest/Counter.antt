-- ===== src/Ingest/Counter.antt =====
-- The day's counter and the check of it, in internal/services/log_service.go and
-- internal/domain/usage.go.
use code_scout.Common.{
  ℕ, ◌+◌, ◌-◌, ◌/◌, ◌%◌, ◌≤◌, ◌≡◌, ◌≢◌, refl, sym, ◌∙◌, Bool, true, false, not, ◌||◌, List, [], ◌∷◌,
  ◌++◌, none, some, inl, inr, arith, if◌then◌else◌, ◌==◌, ltb, length, Bool-cases, Option-cases,
  some_inj,
}
use code_scout.Domain.LiveSession.{Uuid, Time}
use code_scout.Storage.{LogRow, UsageRow, Storage, day, usage_day, run_on, statement}
use code_scout.Ingest.{
  conflicts, insert_rows, stored_on, count_for_day, add_usage, would_exceed_cap,
  seconds_until_next_day,
}
use code_scout.Ingest.Batch.{LogService, check_daily_cap}

quotient-le : (w : ℕ) → w ≤ 86_400_000_000_000 → w / 1_000_000_000 ≤ 86400
quotient-le w h = omega (arith, h)

clamped :
    (q : ℕ)
    → q ≤ 86400
    → (60 ≤ (if ltb q 60 then 60 else q)) × ((if ltb q 60 then 60 else q) ≤ 86400)
clamped q h = elim (Bool-cases (ltb q 60)) [
  | inl e ↦ rw e (omega arith, omega arith)
  | inr e ↦ rw e (not_below q e, h)
]
  where
    not_below : (q : ℕ) → ltb q 60 ≡ false → 60 ≤ q
    not_below q e = ground (arith, e)

-- A refused client waits at least a minute and at most a day.
pub seconds_bounded :
    (now : Time) → (60 ≤ seconds_until_next_day now) × (seconds_until_next_day now ≤ 86400)
unfolding seconds_until_next_day usage_day
seconds_bounded now = clamped _ (quotient-le (now - now % day + day - now) (omega arith))

pub stored_on-add_usage :
    (project : Uuid) (at : Time) (n : ℕ) (us : List UsageRow)
    → stored_on project at (add_usage project at n us) ≡ stored_on project at us + n
unfolding stored_on add_usage
stored_on-add_usage project at n [] = ground arith
stored_on-add_usage project at n (u ∷ us) = ground (arith, stored_on-add_usage project at n us)

pub insert_rows-le : (rows table : List LogRow) → (insert_rows rows table).0 ≤ length rows
unfolding insert_rows
insert_rows-le [] table = omega arith
insert_rows-le (r ∷ rows) table = elim (Bool-cases (conflicts r table)) [
  | inl e ↦ rw (insert_rows, e) (omega (arith, insert_rows-le rows table))
  | inr e ↦ rw (insert_rows, e) (omega (arith, insert_rows-le rows (table ++ r ∷ [])))
]

-- A statement that only reads leaves the rows.
count-rows :
    (project : Uuid) (at : Time) (st : Storage) → (count_for_day project at st).1.rows ≡ st.rows
unfolding count_for_day statement
count-rows project at st = by_fault st.faults
  where
    by_fault :
        (fs : List Bool)
        → (run_on (λ rs. (stored_on project (usage_day at) rs.usage, rs)) st.rows fs).1.rows
          ≡ st.rows
    by_fault [] = refl
    by_fault (false ∷ fs) = refl
    by_fault (true ∷ fs) = refl

pub count-value :
    (project : Uuid) (at : Time) (st : Storage) (n : ℕ)
    → (count_for_day project at st).0 ≡ some n
    → stored_on project (usage_day at) st.rows.usage ≡ n
unfolding count_for_day statement
count-value project at st n e = by_fault st.faults e
  where
    by_fault :
        (fs : List Bool)
        → (run_on (λ rs. (stored_on project (usage_day at) rs.usage, rs)) st.rows fs).0 ≡ some n
        → stored_on project (usage_day at) st.rows.usage ≡ n
    by_fault [] e = some_inj e
    by_fault (false ∷ fs) e = some_inj e
    by_fault (true ∷ fs) e = cc

not_zero : (n : ℕ) → n ≢ 0 → (n == 0) ≡ false
not_zero n h = ground (arith, h)

within_cap :
    (n incoming cap : ℕ) → cap ≢ 0 → would_exceed_cap n incoming cap ≡ false → n + incoming ≤ cap
unfolding would_exceed_cap
within_cap n incoming cap h e = ground (arith, h, e)

if-true : {B : Type 0} (b : Bool) (x y : B) → b ≡ true → (if b then x else y) ≡ x
if-true b x y h = rw h refl

module _ (s : LogService) (project : Uuid) where
  pub check-rows :
      (now : Time) (incoming : ℕ) (st : Storage)
      → (check_daily_cap s project now incoming st).1.rows ≡ st.rows
  unfolding check_daily_cap
  check-rows now incoming st = elim (Bool-cases (not s.has_usage || not s.has_settings)) [
    | inl e ↦ rw e refl
    | inr e ↦ elim (Bool-cases (s.daily_log_cap == 0)) [
      | inl f ↦ rw (e, f) refl
      | inr f ↦ elim (Option-cases (count_for_day project now st).0) [
        | inl g ↦ rw (check_daily_cap, e, f, g) (count-rows project now st)
        | inr (n, g) ↦ rw (check_daily_cap, e, f, g) (count-rows project now st)
      ]
    ]
  ]

  -- The wait that a refusal names.
  pub check-seconds :
      (now : Time) (incoming k : ℕ) (st : Storage)
      → (check_daily_cap s project now incoming st).0 ≡ some k
      → k ≡ seconds_until_next_day now
  unfolding check_daily_cap
  check-seconds now incoming k st h = elim (Bool-cases (not s.has_usage || not s.has_settings)) [
    | inl a ↦ let clash : none ≡ some k = rw (check_daily_cap, a) at h in cc
    | inr a ↦ elim (Bool-cases (s.daily_log_cap == 0)) [
      | inl b ↦ let clash : none ≡ some k = rw (check_daily_cap, a, b) at h in cc
      | inr b ↦ elim (Option-cases (count_for_day project now st).0) [
        | inl c ↦ let clash : none ≡ some k = rw (check_daily_cap, a, b, c) at h in cc
        | inr (n, c) ↦
            chosen (would_exceed_cap n incoming s.daily_log_cap)
              (rw (check_daily_cap, a, b, c) at h)
      ]
    ]
  ]
    where
      chosen :
          (b : Bool)
          → (if b then some (seconds_until_next_day now) else none) ≡ some k
          → k ≡ seconds_until_next_day now
      chosen true h = sym (some_inj h)
      chosen false h = cc

  check_value :
      (now : Time) (incoming n : ℕ) (st : Storage)
      → s.has_usage ≡ true
      → s.has_settings ≡ true
      → s.daily_log_cap ≢ 0
      → (count_for_day project now st).0 ≡ some n
      → (check_daily_cap s project now incoming st).0 ≡ (
          if would_exceed_cap n incoming s.daily_log_cap
          then some (seconds_until_next_day now)
          else none)
  unfolding check_daily_cap
  check_value now incoming n st usage settings capped read =
      simp (usage, settings, not_zero s.daily_log_cap capped, read)

  -- An upload that the check lets through fits under the cap.
  pub check-fits :
      (now : Time) (incoming n : ℕ) (st : Storage)
      → s.has_usage ≡ true
      → s.has_settings ≡ true
      → s.daily_log_cap ≢ 0
      → (count_for_day project now st).0 ≡ some n
      → (check_daily_cap s project now incoming st).0 ≡ none
      → n + incoming ≤ s.daily_log_cap
  check-fits now incoming n st usage settings capped read passed =
      let value = check_value now incoming n st usage settings capped read in
      elim (Bool-cases (would_exceed_cap n incoming s.daily_log_cap)) [
        | inl e ↦
            let refused = value ∙ if-true _ (some (seconds_until_next_day now)) none e in
            let clash : some (seconds_until_next_day now) ≡ none = sym refused ∙ passed in cc
        | inr e ↦ within_cap n incoming s.daily_log_cap capped e
      ]
