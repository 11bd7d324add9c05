-- ===== src/Live/Hub/Invariant.antt =====
-- What holds of the hub between critical sections.
pub mod Update
pub mod Ending
pub mod Streaming
pub mod Codes
pub mod Asking
pub mod History
use code_scout.Common.{
  ℕ, ◌+◌, ◌≤◌, ◌≡◌, Bool, true, false, List, [], Option, none, some, length, All, Distinct, Bytes,
  lookup, nat_eq, bytes_eq,
}
use code_scout.Domain.LiveSession.{Uuid, LiveSessionState, is_ended, LiveEvent}
use code_scout.Live.Channel.{Store}
use code_scout.Live.Channel.Safety.{IsOpen}
use code_scout.Live.Session.{Session, max_watchers_per_session}
use code_scout.Live.Session.Replay.{HasRing}
use code_scout.Live.Hub.{Hub}

-- A session's channels are open and its own, and its ring is complete while it lasts.
pub record SessionOk (events : Store LiveEvent) (replies : Store Bytes) (id : Uuid) (s : Session)
    : Type 0 where
  pub named : s.meta.id ≡ id
  pub watchers_open : All (IsOpen events id) s.watchers
  pub watchers_distinct : Distinct s.watchers
  pub watchers_bounded : length s.watchers ≤ max_watchers_per_session
  pub watchers_counted : s.meta.watchers ≡ length s.watchers
  pub pending_open : All (IsOpen replies id) s.pending
  pub pending_distinct : Distinct s.pending
  pub replayable : is_ended s.meta.state ≡ false → HasRing s s.seq
  pub ended_idle : is_ended s.meta.state ≡ true → (s.watchers ≡ []) × (s.pending ≡ [])

-- The session under `id` waits for a device that shows the code `c`.
abbrev pub Waits : List (Uuid × Session) → Bytes → Uuid → Type 0
Waits ss c id =
    (s : Session) × (lookup id ss ≡ some s)
    × (s.meta.state ≡ LiveSessionState.waiting)
    × (s.meta.code ≡ c)

pub record Inv (h : Hub) : Type 0 where
  pub sessions_ok :
      (id : Uuid) (s : Session) → lookup id h.sessions ≡ some s → SessionOk h.events h.replies id s
  pub codes_ok : (c : Bytes) (id : Uuid) → lookup c h.by_code ≡ some id → Waits h.sessions c id
  pub events_calm : h.events.panics ≡ 0
  pub replies_calm : h.replies.panics ≡ 0
