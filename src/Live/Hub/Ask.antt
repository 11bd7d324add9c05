-- ===== src/Live/Hub/Ask.antt =====
-- `Ask` and `Deliver` of internal/live/hub.go. `Ask` releases the lock twice, so it is three
-- functions: the registration, the wait, and the `defer`.
use code_scout.Common.{
  ℕ, not, List, [], ◌∷◌, ◌++◌, Option, none, some, Result, ok, err, if◌then◌else◌, ◌==◌, keep, any,
  Bytes, lookup, insert, nat_eq,
}
use code_scout.Domain.LiveSession.{Uuid, Time, is_ended}
use code_scout.Live.Channel.{Store, make, offer, receive}
use code_scout.Live.Session.{Session}
use code_scout.Live.Hub.{Hub, HubError, no_such_session, device_gone, device_silent}

-- `DeviceCommand`; `args` is its JSON text.
pub record DeviceCommand : Type 0 where
  pub op : Bytes
  pub args : Bytes

-- `deviceRequest`, with the connection that it is written to.
pub record DeviceRequest : Type 0 where
  pub conn : ℕ
  pub req : ℕ
  pub op : Bytes
  pub args : Bytes

abbrev pub set_pending : List ℕ → Session → Session
set_pending ps s = record s { pending = ps }

-- `Ask` up to its first unlock. The reply channel is made in every case, before the checks; only one
-- that is registered can be seen by others.
unfoldable pub ask_register : Uuid → DeviceCommand → Hub → Hub × Result HubError DeviceRequest
ask_register id cmd h = elim (lookup id h.sessions) [
  | none ↦ (h, err no_such_session)
  | some s ↦ if is_ended s.meta.state then (h, err no_such_session) else elim s.send [
    | none ↦ (h, err device_gone)
    | some conn ↦
        let req = h.replies.next in
        (
          record h {
            sessions = insert id (set_pending (s.pending ++ req ∷ []) s) h.sessions;
            replies = make id h.replies;
          },
          ok (record { conn = conn; req = req; op = cmd.op; args = cmd.args }),
        )
  ]
]

abbrev pub forget : ℕ → List ℕ → List ℕ
forget req = keep λ r. not (r == req)

-- The `defer` of `Ask`.
unfoldable pub ask_forget : Uuid → ℕ → Hub → Hub
ask_forget id req h = elim (lookup id h.sessions) [
  | none ↦ h
  | some s ↦ record h { sessions = insert id (set_pending (forget req s.pending) s) h.sessions }
]

-- What ends the wait of `Ask`.
pub data Wake : Type 0 where
  send_failed on_reply timed_out : Wake

-- `Ask` at its reply channel: a value, a closed channel, or a receive that still waits, `none`.
unfoldable pub on_receive :
    Option Bytes × Store Bytes → ℕ → Hub → Option (Hub × Result HubError Bytes)
on_receive (some payload, replies) req h = some (record h { replies = replies }, ok payload)
on_receive (none, replies) req h =
    if (h.replies.chan req).closed then some (h, err device_gone) else none

-- `Ask` once it wakes.
unfoldable pub ask_wake : ℕ → Wake → Hub → Option (Hub × Result HubError Bytes)
unfolding on_receive
ask_wake req send_failed h = some (h, err device_gone)
ask_wake req timed_out h = some (h, err device_silent)
ask_wake req on_reply h = on_receive (receive req h.replies) req h

-- The rest of `Ask`: the wait, then the `defer`.
unfoldable pub ask_finish : Uuid → ℕ → Wake → Hub → Option (Hub × Result HubError Bytes)
ask_finish id req wake h = elim (ask_wake req wake h) [
  | none ↦ none
  | some (h', r) ↦ some (ask_forget id req h', r)
]

-- `(*Hub).Deliver`
unfoldable pub deliver : Time → Uuid → ℕ → Bytes → Hub → Hub
deliver now id req payload h = elim (lookup id h.sessions) [
  | none ↦ h
  | some s ↦
      if is_ended s.meta.state
      then h
      else let seen = record s { meta = record s.meta { last_seen = now } } in
        if not (any (λ r. r == req) s.pending)
        then record h { sessions = insert id seen h.sessions }
        else record h {
          sessions = insert id (set_pending (forget req s.pending) seen) h.sessions;
          replies = offer 1 payload req h.replies;
        }
]
