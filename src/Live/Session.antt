-- ===== src/Live/Session.antt =====
-- `session`, `remember` and `since` of internal/live/hub.go. Sequence numbers are `int64` there and
-- do not wrap here: a wrap would take 2 ^ 63 events.
pub mod Replay
use code_scout.Common.{
  ℕ, suc, ◌+◌, ◌-◌, List, [], ◌∷◌, ◌++◌, Option, if◌then◌else◌, ltb, leb, length, drop, keep,
}
use code_scout.Domain.LiveSession.{LiveSession, LiveEvent}

abbrev pub max_watchers_per_session : ℕ
max_watchers_per_session = 20

abbrev pub max_sessions_per_project : ℕ
max_sessions_per_project = 20

abbrev pub event_buffer : ℕ
event_buffer = 256

abbrev pub recent_buffer : ℕ
recent_buffer = 512

-- `watchers` and `pending` are the keys of Go's maps: a watcher is the number of its event channel,
-- and a request id is the number of its reply channel, since both are made at the same time.
-- `send` and `hang_up` are the two functions of one device connection, known by its number.
pub record Session : Type 0 where
  pub meta : LiveSession
  pub seq : ℕ
  pub watchers : List ℕ
  pub recent : List LiveEvent
  pub dropped : ℕ
  pub send : Option ℕ
  pub hang_up : Option ℕ
  pub pending : List ℕ

-- `(*session).remember`
unfoldable pub remember : LiveEvent → Session → Session
remember ev s =
    let recent = s.recent ++ ev ∷ [] in
    let over = length recent - recent_buffer in
    if ltb recent_buffer (length recent)
    then record s { recent = drop over recent; dropped = s.dropped + over }
    else record s { recent = recent }

unfoldable pub remember_all : List LiveEvent → Session → Session
remember_all [] s = s
remember_all (ev ∷ evs) s = remember_all evs (remember ev s)

-- The events of the ring after `after`: the loop of `since`.
abbrev pub newer : ℕ → List LiveEvent → List LiveEvent
newer after = keep λ ev. ltb after ev.seq

-- The events that had already fallen out of the ring.
unfoldable pub missed_before : ℕ → List LiveEvent → ℕ
missed_before after [] = 0
missed_before after (oldest ∷ _) = if ltb (after + 1) oldest.seq then oldest.seq - after - 1 else 0

-- `(*session).since`
unfoldable pub since : Session → ℕ → List LiveEvent × ℕ
unfolding missed_before
since s after =
    if leb after 0 then ([], 0) else (newer after s.recent, missed_before after s.recent)
