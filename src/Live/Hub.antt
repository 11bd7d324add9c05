-- ===== src/Live/Hub.antt =====
-- `Hub` of internal/live/hub.go: its state, how a session ends, and the sweep. Each function is one
-- critical section of the hub's mutex; `now` is what `h.now()` returned in it.
pub mod Pairing
pub mod Stream
pub mod Ask
pub mod Listing
pub mod Steps
pub mod Invariant
pub mod Promises
use code_scout.Common.{
  ℕ, ◌+◌, ◌-◌, Bool, true, false, not, ◌&&◌, List, [], ◌∷◌, ◌++◌, map, Option, none, some,
  if◌then◌else◌, ltb, Bytes, codes, lookup, insert, delete, nat_eq, bytes_eq,
}
use code_scout.Domain.LiveSession.{
  Uuid, Time, minute, LiveSession, LiveSessionState, is_ended, expired, idle, LiveEvent,
  LiveEventKind,
}
use code_scout.Live.Channel.{Store, finish_all, close_all}
use code_scout.Live.Session.{Session, event_buffer}

-- `events` are the watchers' channels and `replies` those of `Ask`. `hung_up` lists the device
-- connections that the hub has closed, the first one first.
pub record Hub : Type 0 where
  pub sessions : List (Uuid × Session)
  pub by_code : List (Bytes × Uuid)
  pub events : Store LiveEvent
  pub replies : Store Bytes
  pub hung_up : List ℕ

abbrev pub no_channels {ℓ} : {A : Type ℓ} → Store A
no_channels = record {
  chan = λ _. record { owner = 0; buffer = []; closed = false };
  next = 0;
  panics = 0;
}

abbrev pub new_hub : Hub
new_hub = record {
  sessions = [];
  by_code = [];
  events = no_channels;
  replies = no_channels;
  hung_up = [];
}

pub data HubError : Type 0 where
  no_such_code no_such_session too_many_watchers too_many_sessions device_gone : HubError
  device_silent no_unused_code no_random : HubError

-- The session as `endLocked` leaves it.
abbrev pub ended_session : Time → Session → Session
ended_session now s = record s {
  meta = record s.meta { state = LiveSessionState.ended; ended_at = now; watchers = 0 };
  seq = s.seq + 1;
  watchers = [];
  pending = [];
  send = none;
  hang_up = none;
}

abbrev pub final_event : Time → Bytes → Session → LiveEvent
final_event now reason s = record {
  kind = LiveEventKind.ended_event;
  at = now;
  seq = s.seq + 1;
  log = none;
  reason = reason;
  watchers = 0;
}

abbrev pub hang_up_on : Option ℕ → List ℕ → List ℕ
hang_up_on none cs = cs
hang_up_on (some c) cs = cs ++ c ∷ []

-- `(*Hub).endLocked` on the session `s` that is stored under `id`
unfoldable pub end_locked : Time → Bytes → Uuid → Session → Hub → Hub
end_locked now reason id s h = record h {
  sessions = insert id (ended_session now s) h.sessions;
  by_code = delete s.meta.code h.by_code;
  events = finish_all event_buffer (final_event now reason s) s.watchers h.events;
  replies = close_all s.pending h.replies;
  hung_up = hang_up_on s.hang_up h.hung_up;
}

-- `(*Hub).End`
unfoldable pub end_session : Time → Uuid → Bytes → Hub → Hub
end_session now id reason h = elim (lookup id h.sessions) [
  | none ↦ h
  | some s ↦ if is_ended s.meta.state then h else end_locked now reason id s h
]

-- One round of the loop in `sweepLocked`.
unfoldable pub sweep_one : Time → Uuid → Hub → Hub
sweep_one now id h = elim (lookup id h.sessions) [
  | none ↦ h
  | some s ↦
      if expired s.meta now
      then end_locked now (codes "the code expired before a device used it") id s h
      else if idle s.meta now
      then end_locked now (codes "the device went quiet") id s h
      else if is_ended s.meta.state && ltb minute (now - s.meta.ended_at)
      then record h { sessions = delete id h.sessions }
      else h
]

unfoldable pub sweep_each : Time → List Uuid → Hub → Hub
sweep_each now [] h = h
sweep_each now (id ∷ ids) h = sweep_each now ids (sweep_one now id h)

abbrev pub ids : Hub → List Uuid
ids h = map (λ p. p.0) h.sessions

-- `(*Hub).sweepLocked`, and `Sweep`
unfoldable pub sweep_locked : Time → Hub → Hub
sweep_locked now h = sweep_each now (ids h) h

-- One round of the loop in `Close`.
unfoldable pub close_one : Time → Uuid → Hub → Hub
close_one now id h = end_session now id (codes "the server is restarting") h

unfoldable pub close_each : Time → List Uuid → Hub → Hub
close_each now [] h = h
close_each now (id ∷ rest) h = close_each now rest (close_one now id h)

-- `(*Hub).Close`
unfoldable pub close_hub : Time → Hub → Hub
close_hub now h = close_each now (ids h) h

-- `(*Hub).Touch`
unfoldable pub touch : Time → Uuid → Hub → Hub
touch now id h = elim (lookup id h.sessions) [
  | none ↦ h
  | some s ↦ record h {
    sessions = insert id (record s { meta = record s.meta { last_seen = now } }) h.sessions;
  }
]

-- `(*Hub).AttachDevice`; the functions `send` and `hangUp` are those of connection `conn`.
unfoldable pub attach_device : Uuid → ℕ → Hub → Hub
attach_device id conn h = elim (lookup id h.sessions) [
  | none ↦ h
  | some s ↦ record h {
    sessions = insert id (record s { send = some conn; hang_up = some conn }) h.sessions;
  }
]
