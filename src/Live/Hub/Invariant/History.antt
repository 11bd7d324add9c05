-- ===== src/Live/Hub/Invariant/History.antt =====
-- Histories of the hub of internal/live/hub.go and its invariant.
use code_scout.Common.{
  ℕ, ◌≡◌, refl, List, [], ◌∷◌, Option, none, some, Result, Bool-cases, inl, inr, Bytes, lookup,
  nat_eq, bytes_eq,
}
use code_scout.Live.Channel.{Store, receive}
use code_scout.Live.Channel.Safety.{Keeps, receive-Keeps}
use code_scout.Live.Hub.{Hub, HubError, new_hub}
use code_scout.Live.Hub.Ask.{Wake, send_failed, on_reply, timed_out, on_receive, ask_wake}
use code_scout.Live.Hub.Steps.{
  Call, mints, claims, publishes, attaches, asks, wakes, forgets, delivers, touches, subscribes,
  unsubscribes, announces, receives, ends, sweeps, closes, step, run,
}
use code_scout.Live.Hub.Invariant.{Inv}
use code_scout.Live.Hub.Invariant.Update.{events-Inv}
use code_scout.Live.Hub.Invariant.Ending.{end_session-Inv, sweep_locked-Inv, close_hub-Inv}
use code_scout.Live.Hub.Invariant.Streaming.{
  publish-Inv, announce_watchers-Inv, subscribe-Inv, unsubscribe-Inv,
}
use code_scout.Live.Hub.Invariant.Codes.{mint-Inv, claim-Inv}
use code_scout.Live.Hub.Invariant.Asking.{
  touch-Inv, attach_device-Inv, ask_register-Inv, ask_forget-Inv, deliver-Inv, replies-Inv,
}

-- `uuid.New()` returns an id that no session has.
abbrev pub IsFresh : Call → Hub → Type 0
IsFresh (mints now id rands project by) h = lookup id h.sessions ≡ none
IsFresh _ h = Unit

abbrev pub AllFresh : List Call → Hub → Type 0
AllFresh [] h = Unit
AllFresh (c ∷ cs) h = IsFresh c h × AllFresh cs (step c h)

pub new_hub-Inv : Inv new_hub
unfolding lookup
new_hub-Inv = record {
  sessions_ok = λ id s f. absurd (cc f);
  codes_ok = λ c id f. absurd (cc f);
  events_calm = refl;
  replies_calm = refl;
}

abbrev pub resumed : Hub → Option (Hub × Result HubError Bytes) → Hub
resumed h r = elim r [ none ↦ h | some (h', _) ↦ h' ]

on_receive-Inv :
    (p : Option Bytes × Store Bytes) (req : ℕ) (h : Hub)
    → Keeps h.replies p.1
    → Inv h
    → Inv (resumed h (on_receive p req h))
unfolding on_receive
on_receive-Inv (some payload, replies) req h k v = replies-Inv h replies k v
on_receive-Inv (none, replies) req h k v = elim (Bool-cases (h.replies.chan req).closed) [
  | inl shut ↦ rw shut v
  | inr waits ↦ rw waits v
]

ask_wake-Inv : (req : ℕ) (wake : Wake) (h : Hub) → Inv h → Inv (resumed h (ask_wake req wake h))
unfolding ask_wake
ask_wake-Inv req send_failed h v = v
ask_wake-Inv req timed_out h v = v
ask_wake-Inv req on_reply h v =
    on_receive-Inv (receive req h.replies) req h (receive-Keeps req h.replies) v

-- Every critical section keeps the invariant.
pub step-Inv : (c : Call) (h : Hub) → IsFresh c h → Inv h → Inv (step c h)
unfolding step
step-Inv (mints now id rands project by) h f v = mint-Inv now id rands project by h f v
step-Inv (claims now project code device) h f v = claim-Inv now project code device h v
step-Inv (publishes now id kind logs) h f v = publish-Inv now id kind logs h v
step-Inv (attaches id conn) h f v = attach_device-Inv id conn h v
step-Inv (asks id cmd) h f v = ask_register-Inv id cmd h v
step-Inv (wakes req wake) h f v = ask_wake-Inv req wake h v
step-Inv (forgets id req) h f v = ask_forget-Inv id req h v
step-Inv (delivers now id req payload) h f v = deliver-Inv now id req payload h v
step-Inv (touches now id) h f v = touch-Inv now id h v
step-Inv (subscribes id after) h f v = subscribe-Inv id after h v
step-Inv (unsubscribes id w) h f v = unsubscribe-Inv id w h v
step-Inv (announces now id count) h f v = announce_watchers-Inv now id count h v
step-Inv (receives w) h f v = events-Inv h _ (receive-Keeps w h.events) v
step-Inv (ends now id reason) h f v = end_session-Inv now id reason h v
step-Inv (sweeps now) h f v = sweep_locked-Inv now h v
step-Inv (closes now) h f v = close_hub-Inv now h v

run-Inv : (cs : List Call) (h : Hub) → AllFresh cs h → Inv h → Inv (run cs h)
unfolding run
run-Inv [] h f v = v
run-Inv (c ∷ cs) h f v = run-Inv cs (step c h) f.1 (step-Inv c h f.0 v)

-- After every history of the hub's critical sections, in any order, in which each new session id is
-- unused: no send or close hit a closed channel, each session has open channels of its own, at most
-- 20 watchers, a complete replay ring until it ends, and neither watchers nor pending questions
-- afterwards; and each code in the index names a session that waits and shows this code.
pub run-new_hub-Inv : (cs : List Call) → AllFresh cs new_hub → Inv (run cs new_hub)
run-new_hub-Inv cs f = run-Inv cs new_hub f new_hub-Inv
