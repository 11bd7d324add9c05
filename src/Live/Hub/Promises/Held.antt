-- ===== src/Live/Hub/Promises/Held.antt =====
-- Calls of internal/live/hub.go on one session that leave a connection alone.
use code_scout.Common.{
  length, ◌+◌, ℕ, ◌≡◌, ◌≢◌, refl, sym, ◌∙◌, ap, List, Option, none, some, inl, inr, Option-cases,
  Bool-cases, Bytes, any, leb, ◌==◌, lookup, insert, nat_eq, bytes_eq, some_inj,
}
use code_scout.Domain.LiveSession.{Uuid, Time, LiveEventKind, LiveLog, is_ended}
use code_scout.Live.Channel.{Store, receive}
use code_scout.Live.Session.{Session, max_watchers_per_session}
use code_scout.Live.Hub.{Hub, touch, attach_device}
use code_scout.Live.Hub.Stream.{
  publish_events, published, publish, announce_watchers, subscribe, unsubscribe,
}
use code_scout.Live.Hub.Ask.{
  DeviceCommand, ask_register, ask_forget, Wake, send_failed, on_reply, timed_out, on_receive,
  ask_wake, deliver,
}
use code_scout.Live.Hub.Invariant.History.{resumed}
use code_scout.Live.Hub.Promises.Quiet.{Quiet, Lies, put, remembered}

module _ (conn : ℕ) where
  -- Storing a session that is no riskier under an id keeps the connection alone.
  pub stored-Quiet :
      (id : Uuid) (s : Session) (h h' : Hub)
      → Quiet conn h
      → Lies conn s
      → h'.sessions ≡ insert id s h.sessions
      → h'.hung_up ≡ h.hung_up
      → Quiet conn h'
  stored-Quiet id s h h' q lies sessions hung = record {
    not_yet = rw hung q.not_yet;
    only_ended = λ k t e. put conn h id k s t q lies (rw sessions at e);
  }

  pub publish-Quiet :
      (now : Time) (id : Uuid) (kind : LiveEventKind) (logs : List LiveLog) (h : Hub)
      → Quiet conn h
      → Quiet conn (publish now id kind logs h)
  unfolding publish
  publish-Quiet now id kind logs h q = elim (Option-cases (lookup id h.sessions)) [
    | inl e ↦ rw (e, publish) q
    | inr (s, e) ↦ elim (Bool-cases (is_ended s.meta.state)) [
      | inl over ↦ rw (e, publish, over) q
      | inr live ↦
          let evs = publish_events kind now s.seq logs in
          let (up, meta) =
            remembered evs
              (record s { meta = record s.meta { last_seen = now }; seq = s.seq + length evs }) in
          rw (e, publish, live)
            (stored-Quiet id (published now evs s) h _ q
              (λ k. ap (λ m. is_ended m.state) meta ∙ q.only_ended id s e (sym up ∙ k)) refl refl)
    ]
  ]

  pub announce-Quiet :
      (now : Time) (id : Uuid) (count : ℕ) (h : Hub)
      → Quiet conn h
      → Quiet conn (announce_watchers now id count h)
  unfolding announce_watchers
  announce-Quiet now id count h q = elim (Option-cases (lookup id h.sessions)) [
    | inl e ↦ rw (e, announce_watchers) q
    | inr (s, e) ↦
        rw (e, announce_watchers) (record { not_yet = q.not_yet; only_ended = q.only_ended })
  ]

  pub attach-Quiet :
      (id : Uuid) (c : ℕ) (h : Hub) → c ≢ conn → Quiet conn h → Quiet conn (attach_device id c h)
  unfolding attach_device
  attach-Quiet id c h n q = elim (Option-cases (lookup id h.sessions)) [
    | inl e ↦ rw (e, attach_device) q
    | inr (s, e) ↦
        rw (e, attach_device)
          (stored-Quiet id _ h _ q (λ same. absurd (n (some_inj same))) refl refl)
  ]

  pub touch-Quiet : (now : Time) (id : Uuid) (h : Hub) → Quiet conn h → Quiet conn (touch now id h)
  unfolding touch
  touch-Quiet now id h q = elim (Option-cases (lookup id h.sessions)) [
    | inl e ↦ rw (e, touch) q
    | inr (s, e) ↦ rw (e, touch) (stored-Quiet id _ h _ q (q.only_ended id s e) refl refl)
  ]

  pub subscribe-Quiet :
      (id : Uuid) (after : ℕ) (h : Hub) → Quiet conn h → Quiet conn (subscribe id after h).0
  unfolding subscribe
  subscribe-Quiet id after h q = elim (Option-cases (lookup id h.sessions)) [
    | inl e ↦ rw (e, subscribe) q
    | inr (s, e) ↦ elim (Bool-cases (is_ended s.meta.state)) [
      | inl over ↦ rw (e, subscribe, over) q
      | inr live ↦ elim (Bool-cases (leb max_watchers_per_session (length s.watchers))) [
        | inl full ↦ rw (e, subscribe, live, full) q
        | inr room ↦
            rw (e, subscribe, live, room) (stored-Quiet id _ h _ q (q.only_ended id s e) refl refl)
      ]
    ]
  ]

  pub unsubscribe-Quiet :
      (id : Uuid) (w : ℕ) (h : Hub) → Quiet conn h → Quiet conn (unsubscribe id w h).0
  unfolding unsubscribe
  unsubscribe-Quiet id w h q = elim (Option-cases (lookup id h.sessions)) [
    | inl e ↦ rw (e, unsubscribe) q
    | inr (s, e) ↦ elim (Bool-cases (any (λ v. v == w) s.watchers)) [
      | inl there ↦
          rw (e, unsubscribe, there) (stored-Quiet id _ h _ q (q.only_ended id s e) refl refl)
      | inr gone ↦ rw (e, unsubscribe, gone) q
    ]
  ]

  pub ask_register-Quiet :
      (id : Uuid) (cmd : DeviceCommand) (h : Hub)
      → Quiet conn h
      → Quiet conn (ask_register id cmd h).0
  unfolding ask_register
  ask_register-Quiet id cmd h q = elim (Option-cases (lookup id h.sessions)) [
    | inl e ↦ rw (e, ask_register) q
    | inr (s, e) ↦ elim (Bool-cases (is_ended s.meta.state)) [
      | inl over ↦ rw (e, ask_register, over) q
      | inr live ↦ elim (Option-cases s.send) [
        | inl gone ↦ rw (e, ask_register, live, gone) q
        | inr (c, there) ↦
            rw (e, ask_register, live, there)
              (stored-Quiet id _ h _ q (q.only_ended id s e) refl refl)
      ]
    ]
  ]

  pub ask_forget-Quiet :
      (id : Uuid) (req : ℕ) (h : Hub) → Quiet conn h → Quiet conn (ask_forget id req h)
  unfolding ask_forget
  ask_forget-Quiet id req h q = elim (Option-cases (lookup id h.sessions)) [
    | inl e ↦ rw (e, ask_forget) q
    | inr (s, e) ↦ rw (e, ask_forget) (stored-Quiet id _ h _ q (q.only_ended id s e) refl refl)
  ]

  pub deliver-Quiet :
      (now : Time) (id : Uuid) (req : ℕ) (payload : Bytes) (h : Hub)
      → Quiet conn h
      → Quiet conn (deliver now id req payload h)
  unfolding deliver
  deliver-Quiet now id req payload h q = elim (Option-cases (lookup id h.sessions)) [
    | inl e ↦ rw (e, deliver) q
    | inr (s, e) ↦ elim (Bool-cases (is_ended s.meta.state)) [
      | inl over ↦ rw (e, deliver, over) q
      | inr live ↦ elim (Bool-cases (any (λ r. r == req) s.pending)) [
        | inl awaited ↦
            rw (e, deliver, live, awaited) (stored-Quiet id _ h _ q (q.only_ended id s e) refl refl)
        | inr stray ↦
            rw (e, deliver, live, stray) (stored-Quiet id _ h _ q (q.only_ended id s e) refl refl)
      ]
    ]
  ]

  pub on_receive-Quiet :
      (p : Option Bytes × Store Bytes) (req : ℕ) (h : Hub)
      → Quiet conn h
      → Quiet conn (resumed h (on_receive p req h))
  unfolding on_receive
  on_receive-Quiet (some payload, replies) req h q = record {
    not_yet = q.not_yet;
    only_ended = q.only_ended;
  }
  on_receive-Quiet (none, replies) req h q = elim (Bool-cases (h.replies.chan req).closed) [
    | inl shut ↦ rw shut q
    | inr waits ↦ rw waits q
  ]

  pub ask_wake-Quiet :
      (req : ℕ) (wake : Wake) (h : Hub)
      → Quiet conn h
      → Quiet conn (resumed h (ask_wake req wake h))
  unfolding ask_wake
  ask_wake-Quiet req send_failed h q = q
  ask_wake-Quiet req timed_out h q = q
  ask_wake-Quiet req on_reply h q = on_receive-Quiet (receive req h.replies) req h q
