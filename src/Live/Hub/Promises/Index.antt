-- ===== src/Live/Hub/Promises/Index.antt =====
-- The calls of internal/live/hub.go that leave the index of codes alone.
use code_scout.Common.{
  ℕ, ◌≡◌, refl, List, Option, none, some, arith, inl, inr, Option-cases, Bool-cases, Bytes, lookup,
  nat_eq, bytes_eq,
}
use code_scout.Domain.LiveSession.{Uuid, Time, LiveEventKind, LiveLog}
use code_scout.Live.Channel.{Store, receive}
use code_scout.Live.Hub.{Hub, touch, attach_device}
use code_scout.Live.Hub.Stream.{publish, announce_watchers, subscribe, unsubscribe}
use code_scout.Live.Hub.Ask.{
  DeviceCommand, ask_register, ask_forget, Wake, send_failed, on_reply, timed_out, on_receive,
  ask_wake, deliver,
}
use code_scout.Live.Hub.Invariant.History.{resumed}

pub publish-by_code :
    (now : Time) (id : Uuid) (kind : LiveEventKind) (logs : List LiveLog) (h : Hub)
    → (publish now id kind logs h).by_code ≡ h.by_code
unfolding publish
publish-by_code now id kind logs h = elim (Option-cases (lookup id h.sessions)) [
  | inl e ↦ rw (e, publish) refl
  | inr (s, e) ↦ rw (e, publish) (ground arith)
]

pub announce-by_code :
    (now : Time) (id : Uuid) (count : ℕ) (h : Hub)
    → (announce_watchers now id count h).by_code ≡ h.by_code
unfolding announce_watchers
announce-by_code now id count h = elim (Option-cases (lookup id h.sessions)) [
  | inl e ↦ rw (e, announce_watchers) refl
  | inr (s, e) ↦ rw (e, announce_watchers) refl
]

pub attach-by_code :
    (id : Uuid) (conn : ℕ) (h : Hub) → (attach_device id conn h).by_code ≡ h.by_code
unfolding attach_device
attach-by_code id conn h = elim (Option-cases (lookup id h.sessions)) [
  | inl e ↦ rw (e, attach_device) refl
  | inr (s, e) ↦ rw (e, attach_device) refl
]

pub touch-by_code : (now : Time) (id : Uuid) (h : Hub) → (touch now id h).by_code ≡ h.by_code
unfolding touch
touch-by_code now id h = elim (Option-cases (lookup id h.sessions)) [
  | inl e ↦ rw (e, touch) refl
  | inr (s, e) ↦ rw (e, touch) refl
]

pub subscribe-by_code :
    (id : Uuid) (after : ℕ) (h : Hub) → (subscribe id after h).0.by_code ≡ h.by_code
unfolding subscribe
subscribe-by_code id after h = elim (Option-cases (lookup id h.sessions)) [
  | inl e ↦ rw (e, subscribe) refl
  | inr (s, e) ↦ rw (e, subscribe) (ground arith)
]

pub unsubscribe-by_code : (id : Uuid) (w : ℕ) (h : Hub) → (unsubscribe id w h).0.by_code ≡ h.by_code
unfolding unsubscribe
unsubscribe-by_code id w h = elim (Option-cases (lookup id h.sessions)) [
  | inl e ↦ rw (e, unsubscribe) refl
  | inr (s, e) ↦ rw (e, unsubscribe) (ground arith)
]

pub ask_register-by_code :
    (id : Uuid) (cmd : DeviceCommand) (h : Hub) → (ask_register id cmd h).0.by_code ≡ h.by_code
unfolding ask_register
ask_register-by_code id cmd h = elim (Option-cases (lookup id h.sessions)) [
  | inl e ↦ rw (e, ask_register) refl
  | inr (s, e) ↦ elim (Option-cases s.send) [
    | inl gone ↦ rw (e, ask_register) (ground (arith, gone))
    | inr (conn, there) ↦ rw (e, ask_register) (ground (arith, there))
  ]
]

pub ask_forget-by_code : (id : Uuid) (req : ℕ) (h : Hub) → (ask_forget id req h).by_code ≡ h.by_code
unfolding ask_forget
ask_forget-by_code id req h = elim (Option-cases (lookup id h.sessions)) [
  | inl e ↦ rw (e, ask_forget) refl
  | inr (s, e) ↦ rw (e, ask_forget) refl
]

pub deliver-by_code :
    (now : Time) (id : Uuid) (req : ℕ) (payload : Bytes) (h : Hub)
    → (deliver now id req payload h).by_code ≡ h.by_code
unfolding deliver
deliver-by_code now id req payload h = elim (Option-cases (lookup id h.sessions)) [
  | inl e ↦ rw (e, deliver) refl
  | inr (s, e) ↦ rw (e, deliver) (ground arith)
]

pub on_receive-by_code :
    (p : Option Bytes × Store Bytes) (req : ℕ) (h : Hub)
    → (resumed h (on_receive p req h)).by_code ≡ h.by_code
unfolding on_receive
on_receive-by_code (some payload, replies) req h = refl
on_receive-by_code (none, replies) req h = elim (Bool-cases (h.replies.chan req).closed) [
  | inl shut ↦ rw shut refl
  | inr waits ↦ rw waits refl
]

pub ask_wake-by_code :
    (req : ℕ) (wake : Wake) (h : Hub) → (resumed h (ask_wake req wake h)).by_code ≡ h.by_code
unfolding ask_wake
ask_wake-by_code req send_failed h = refl
ask_wake-by_code req timed_out h = refl
ask_wake-by_code req on_reply h = on_receive-by_code (receive req h.replies) req h
