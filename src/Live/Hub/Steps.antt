-- ===== src/Live/Hub/Steps.antt =====
-- Histories of the hub: every critical section, in any order that the callers bring about.
use code_scout.Common.{ℕ, List, [], ◌∷◌, Option, none, some, Bytes}
use code_scout.Domain.LiveSession.{Uuid, Time, LiveDevice, LiveEventKind, LiveLog}
use code_scout.Live.Channel.{receive}
use code_scout.Live.Hub.{Hub, end_session, sweep_locked, close_hub, touch, attach_device}
use code_scout.Live.Hub.Pairing.{mint, claim}
use code_scout.Live.Hub.Stream.{publish, announce_watchers, subscribe, unsubscribe}
use code_scout.Live.Hub.Ask.{DeviceCommand, ask_register, ask_forget, Wake, ask_wake, deliver}

pub data Call : Type 0 where
  mints : Time → Uuid → (ℕ → ℕ → Option ℕ) → Uuid → Uuid → Call
  claims : Time → Uuid → Bytes → LiveDevice → Call
  publishes : Time → Uuid → LiveEventKind → List LiveLog → Call
  attaches : Uuid → ℕ → Call
  asks : Uuid → DeviceCommand → Call
  wakes : ℕ → Wake → Call
  forgets : Uuid → ℕ → Call
  delivers : Time → Uuid → ℕ → Bytes → Call
  touches : Time → Uuid → Call
  subscribes : Uuid → ℕ → Call
  unsubscribes : Uuid → ℕ → Call
  announces : Time → Uuid → ℕ → Call
  receives : ℕ → Call
  ends : Time → Uuid → Bytes → Call
  sweeps : Time → Call
  closes : Time → Call

unfoldable pub step : Call → Hub → Hub
step (mints now id rands project by) h = (mint now id rands project by h).0
step (claims now project code device) h = (claim now project code device h).0
step (publishes now id kind logs) h = publish now id kind logs h
step (attaches id conn) h = attach_device id conn h
step (asks id cmd) h = (ask_register id cmd h).0
step (wakes req wake) h = elim (ask_wake req wake h) [ none ↦ h | some (h', _) ↦ h' ]
step (forgets id req) h = ask_forget id req h
step (delivers now id req payload) h = deliver now id req payload h
step (touches now id) h = touch now id h
step (subscribes id after) h = (subscribe id after h).0
step (unsubscribes id w) h = (unsubscribe id w h).0
step (announces now id count) h = announce_watchers now id count h
step (receives w) h = record h { events = (receive w h.events).1 }
step (ends now id reason) h = end_session now id reason h
step (sweeps now) h = sweep_locked now h
step (closes now) h = close_hub now h

unfoldable pub run : List Call → Hub → Hub
run [] h = h
run (c ∷ cs) h = run cs (step c h)
