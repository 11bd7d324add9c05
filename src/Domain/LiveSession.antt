-- ===== src/Domain/LiveSession.antt =====
-- internal/domain/live.go: one pairing and the stream that follows it. Times are counts of
-- nanoseconds since a fixed moment, and the zero time is 0.
use code_scout.Common.{ℕ, ◌-◌, ◌*◌, Bool, true, false, ◌&&◌, [], Option, if◌then◌else◌, ltb, Bytes}

abbrev pub Uuid : Type 0
Uuid = ℕ

abbrev pub Time : Type 0
Time = ℕ

abbrev pub second : ℕ
second = 1_000_000_000

abbrev pub minute : ℕ
minute = 60 * second

abbrev pub pairing_code_ttl : ℕ
pairing_code_ttl = 5 * minute

abbrev pub live_session_idle_timeout : ℕ
live_session_idle_timeout = 45 * second

pub data LiveSessionState : Type 0 where
  waiting connected ended : LiveSessionState

abbrev pub is_waiting : LiveSessionState → Bool
is_waiting LiveSessionState.waiting = true
is_waiting _ = false

abbrev pub is_connected : LiveSessionState → Bool
is_connected LiveSessionState.connected = true
is_connected _ = false

abbrev pub is_ended : LiveSessionState → Bool
is_ended LiveSessionState.ended = true
is_ended _ = false

pub record LiveDevice : Type 0 where
  pub session_id : Bytes
  pub installation_id : Bytes
  pub device_model : Bytes
  pub os_name : Bytes
  pub os_version : Bytes
  pub app_version : Bytes
  pub build_number : Bytes
  pub user_id : Bytes

abbrev pub no_device : LiveDevice
no_device = record {
  session_id = [];
  installation_id = [];
  device_model = [];
  os_name = [];
  os_version = [];
  app_version = [];
  build_number = [];
  user_id = [];
}

pub record LiveSession : Type 0 where
  pub id : Uuid
  pub project_id : Uuid
  pub code : Bytes
  pub state : LiveSessionState
  pub created_by : Uuid
  pub device : LiveDevice
  pub created_at : Time
  pub expires_at : Time
  pub claimed_at : Time
  pub last_seen : Time
  pub ended_at : Time
  pub watchers : ℕ

-- `(*LiveSession).Expired`
unfoldable pub expired : LiveSession → Time → Bool
expired s now = is_waiting s.state && ltb s.expires_at now

-- `(*LiveSession).Idle`. A time before `LastSeen` gives a negative difference there and 0 here:
-- neither is above the timeout.
unfoldable pub idle : LiveSession → Time → Bool
idle s now = is_connected s.state && ltb live_session_idle_timeout (now - s.last_seen)

-- `(*LiveSession).ExpiresIn`
pub expires_in : LiveSession → Time → ℕ
expires_in s now = if ltb now s.expires_at then s.expires_at - now else 0

pub data LiveEventKind : Type 0 where
  log_event ended_event device_event watcher_event : LiveEventKind

-- A log on its way through: the hub never looks inside. `metadata` is its JSON text.
pub record LiveLog : Type 0 where
  pub level : Bytes
  pub message : Bytes
  pub error : Bytes
  pub timestamp : Time
  pub is_network_call : Bool
  pub request_id : Bytes
  pub call_phase : Bytes
  pub method : Bytes
  pub url : Bytes
  pub status_code : ℕ
  pub metadata : Bytes

pub record LiveEvent : Type 0 where
  pub kind : LiveEventKind
  pub at : Time
  pub seq : ℕ
  pub log : Option LiveLog
  pub reason : Bytes
  pub watchers : ℕ
