-- ===== src/Live/Hub/Promises/Streaming.antt =====
-- Catching up and fan-out, in internal/live/hub.go.
use code_scout.Common.{
  ℕ, suc, ◌+◌, ◌-◌, ◌≤◌, ◌<◌, ◌≡◌, refl, subst, ◌∙◌, false, List, [], ◌∷◌, ◌++◌, some, arith, All,
  any, ◌==◌, true, All-any, All-map, length, lookup, insert, nat_eq, ok, Result-cases, Result,
  Option-cases, inl, inr, length-append, ap,
}
use code_scout.Domain.LiveSession.{Uuid, Time, is_ended, LiveEvent, LiveEventKind, LiveLog}
use code_scout.Live.Channel.{make}
use code_scout.Live.Channel.Delivery.{fan_out_room}
use code_scout.Live.Session.{Session, event_buffer, since}
use code_scout.Live.Session.Replay.{Numbered, since_accounts}
use code_scout.Live.Hub.{Hub}
use code_scout.Live.Hub.Stream.{
  publish_events, publish, watcher_event, announce_watchers, Subscription, set_watchers, subscribe,
  watcher_count, watch,
}
use code_scout.Live.Hub.Invariant.{Inv}
use code_scout.Live.Hub.Invariant.Streaming.{
  publish_events-Numbered, subscribe-Inv, announce_watchers-Inv,
}
use code_scout.Live.Hub.Invariant.Update.{lookup_self}

-- The subscription that `Watch` returns for a session that it found.
subscribe_ok :
    (id : Uuid) (after : ℕ) (h : Hub) (s : Session) (sub : Subscription)
    → lookup id h.sessions ≡ some s
    → (subscribe id after h).1 ≡ ok sub
    → (is_ended s.meta.state ≡ false)
      × (sub.backlog ≡ (since s after).0)
      × (sub.missed ≡ (since s after).1)
      × (sub.watcher ≡ h.events.next)
      × ((subscribe id after h).0.events ≡ make id h.events)
      × ((subscribe id after h).0.sessions
          ≡ insert id (set_watchers (s.watchers ++ h.events.next ∷ []) s) h.sessions)
unfolding subscribe
subscribe_ok id after h s sub e r = ground (arith, e)

each_reached :
    (now : Time) (id : Uuid) (kind : LiveEventKind) (logs : List LiveLog) (h : Hub) (s : Session)
    → Inv h
    → lookup id h.sessions ≡ some s
    → is_ended s.meta.state ≡ false
    → let evs = publish_events kind now s.seq logs in
      let h' = publish now id kind logs h in
      All
        (λ w.
          length (h.events.chan w).buffer + length evs ≤ event_buffer
          → (h'.events.chan w).buffer ≡ (h.events.chan w).buffer ++ evs)
        s.watchers
unfolding publish
each_reached now id kind logs h s v e live =
    let o = v.sessions_ok id s e in
    rw (e, publish, live)
      (fan_out_room event_buffer (publish_events kind now s.seq logs) s.watchers h.events
        o.watchers_distinct (All-map _ _ (λ w p. p.opened) s.watchers o.watchers_open))

-- One call of `Publish` puts all its events, in order, at the end of the buffer of every watcher of
-- the session that has room for them, whatever the other watchers' buffers hold.
pub publish_reaches :
    (now : Time) (id : Uuid) (kind : LiveEventKind) (logs : List LiveLog) (h : Hub) (s : Session)
    (w : ℕ)
    → Inv h
    → lookup id h.sessions ≡ some s
    → is_ended s.meta.state ≡ false
    → any (λ v. v == w) s.watchers ≡ true
    → length (h.events.chan w).buffer + length (publish_events kind now s.seq logs) ≤ event_buffer
    → ((publish now id kind logs h).events.chan w).buffer
      ≡ (h.events.chan w).buffer ++ publish_events kind now s.seq logs
publish_reaches now id kind logs h s w v e live watching room =
    All-any _ w s.watchers watching (each_reached now id kind logs h s v e live) room

Numbered-join :
    (n : ℕ) (xs ys : List LiveEvent)
    → Numbered n xs
    → Numbered (n + length xs) ys
    → Numbered n (xs ++ ys)
Numbered-join n [] ys h k = subst (λ m. Numbered m ys) (omega arith) k
Numbered-join n (x ∷ xs) ys h k =
    (h.0, Numbered-join (suc n) xs ys h.1 (subst (λ m. Numbered m ys) (omega arith) k))

All-last {ℓ} : {A : Type 0} (P : A → Type ℓ) (xs : List A) (x : A) → All P (xs ++ x ∷ []) → P x
All-last P [] x h = h.0
All-last P (y ∷ xs) x h = All-last P xs x h.1

ok_inj : {E A : Type 0} {a b : A} → Path (Result E A) (ok a) (ok b) → a ≡ b
ok_inj h = cc

watcher_count_found :
    (id : Uuid) (h : Hub) (s : Session)
    → lookup id h.sessions ≡ some s
    → watcher_count id h ≡ s.meta.watchers
watcher_count_found id h s e = rw (watcher_count, e) refl

-- A successful `Watch` is its subscription and then the announcement of the new number.
watch_ok :
    (at : Time) (id : Uuid) (after : ℕ) (h : Hub) (s : Session) (sub : Subscription)
    → Inv h
    → lookup id h.sessions ≡ some s
    → (watch at id after h).1 ≡ ok sub
    → ((subscribe id after h).1 ≡ ok sub)
      × ((watch at id after h).0
          ≡ announce_watchers at id (length s.watchers + 1) (subscribe id after h).0)
unfolding watch
watch_ok at id after h s sub v e r = elim (Result-cases (subscribe id after h).1) [
  | inr (f, failed) ↦ absurd (cc (rw (watch, failed) at r))
  | inl (sub', done) ↦
      let same : sub' ≡ sub = ok_inj (rw (watch, done) at r) in
      let (_, _, _, _, _, sessions) = subscribe_ok id after h s sub' e done in
      let s₁ = set_watchers (s.watchers ++ h.events.next ∷ []) s in
      let found : lookup id (subscribe id after h).0.sessions ≡ some s₁ =
        rw sessions (lookup_self h id s₁ v) in
      let counted =
        watcher_count_found id (subscribe id after h).0 s₁ found
        ∙ length-append s.watchers (h.events.next ∷ []) in
      (rw done (ap ok same), rw (watch, done) (rw counted refl))
]

announced_sessions :
    (at : Time) (id : Uuid) (count : ℕ) (h : Hub)
    → (announce_watchers at id count h).sessions ≡ h.sessions
unfolding announce_watchers
announced_sessions at id count h = elim (Option-cases (lookup id h.sessions)) [
  | inl e ↦ rw (e, announce_watchers) refl
  | inr (s, e) ↦ rw (e, announce_watchers) refl
]

-- The announcement of their number is the last event that the watchers with room are sent.
announced :
    (at : Time) (id : Uuid) (count : ℕ) (h : Hub) (s : Session)
    → Inv h
    → lookup id h.sessions ≡ some s
    → All
        (λ w.
          length (h.events.chan w).buffer + 1 ≤ event_buffer
          → ((announce_watchers at id count h).events.chan w).buffer
            ≡ (h.events.chan w).buffer ++ watcher_event at count ∷ [])
        s.watchers
unfolding announce_watchers
announced at id count h s v e =
    let o = v.sessions_ok id s e in
    rw (e, announce_watchers)
      (fan_out_room event_buffer (watcher_event at count ∷ []) s.watchers h.events
        o.watchers_distinct (All-map _ _ (λ w p. p.opened) s.watchers o.watchers_open))

-- A watcher that saw the events up to `after` and comes back by `Watch` is told how many are lost for
-- good. With no other call between the two sections of `Watch` and the `Publish` of at most 255 events
-- behind it, its channel holds the announcement of the new number of watchers and then the events of
-- this `Publish`. The backlog and these events are all the others in order: there is no hole between
-- the two and no event comes twice.
pub watch_no_hole :
    (at now : Time) (id : Uuid) (after : ℕ) (kind : LiveEventKind) (logs : List LiveLog) (h : Hub)
    (s : Session) (sub : Subscription)
    → Inv h
    → lookup id h.sessions ≡ some s
    → 0 < after
    → after ≤ s.seq
    → length (publish_events kind now s.seq logs) + 1 ≤ event_buffer
    → (watch at id after h).1 ≡ ok sub
    → let evs = publish_events kind now s.seq logs in
      ((((publish now id kind logs (watch at id after h).0).events.chan sub.watcher).buffer)
        ≡ watcher_event at (length s.watchers + 1) ∷ evs)
      × Numbered (after + sub.missed) (sub.backlog ++ evs)
      × (sub.missed + length sub.backlog ≡ s.seq - after)
watch_no_hole at now id after kind logs h s sub v e seen upto fits watching =
    let (r, runs) = watch_ok at id after h s sub v e watching in
    let (live, backlog, missed, w_eq, events, sessions) = subscribe_ok id after h s sub e r in
    let h₁ = (subscribe id after h).0 in
    let h₂ = announce_watchers at id (length s.watchers + 1) h₁ in
    let w = h.events.next in
    let s₁ = set_watchers (s.watchers ++ w ∷ []) s in
    let v₁ = subscribe-Inv id after h v in
    let v₂ = announce_watchers-Inv at id (length s.watchers + 1) h₁ v₁ in
    let found : lookup id h₁.sessions ≡ some s₁ = rw sessions (lookup_self h id s₁ v) in
    let found₂ : lookup id h₂.sessions ≡ some s₁ =
      rw (announced_sessions at id (length s.watchers + 1) h₁) found in
    let (numbered, count) =
      since_accounts s s.seq after ((v.sessions_ok id s e).replayable live) seen upto in
    let empty : (h₁.events.chan w).buffer ≡ [] = rw events (ground arith) in
    let first : (h₂.events.chan w).buffer ≡ watcher_event at (length s.watchers + 1) ∷ [] =
      All-last _ s.watchers w (announced at id (length s.watchers + 1) h₁ s₁ v₁ found)
        (rw empty (omega arith))
      ∙ rw empty in
    let evs = publish_events kind now s.seq logs in
    let sent : ((publish now id kind logs h₂).events.chan sub.watcher).buffer
        ≡ watcher_event at (length s.watchers + 1) ∷ evs =
      rw w_eq (
        All-last _ s.watchers w (each_reached now id kind logs h₂ s₁ v₂ found₂ live)
          (rw first (omega (arith, fits)))
        ∙ rw first) in
    (
      rw runs sent,
      rw (backlog, missed)
          (Numbered-join _ (since s after).0 evs numbered (
            subst (λ m. Numbered m evs) (omega (arith, count, upto))
              (publish_events-Numbered kind now s.seq logs))),
      rw (backlog, missed) count,
    )

-- The event that tells watchers their number carries sequence number 0, so whatever a watcher had
-- seen before, one with room in its buffer is sent an event from which a reconnection, whatever the
-- session holds by then, is given no backlog and told of no gap.
pub announcement_forgets :
    (now : Time) (id : Uuid) (count : ℕ) (h : Hub) (s s' : Session) (w : ℕ)
    → Inv h
    → lookup id h.sessions ≡ some s
    → any (λ v. v == w) s.watchers ≡ true
    → length (h.events.chan w).buffer + 1 ≤ event_buffer
    → (ev : LiveEvent) × (((announce_watchers now id count h).events.chan w).buffer
        ≡ (h.events.chan w).buffer ++ ev ∷ [])
      × ((since s' ev.seq).0 ≡ [])
      × ((since s' ev.seq).1 ≡ 0)
unfolding announce_watchers since
announcement_forgets now id count h s s' w v e watching room =
    let o = v.sessions_ok id s e in
    let reached =
      fan_out_room event_buffer (watcher_event now count ∷ []) s.watchers h.events
        o.watchers_distinct (All-map _ _ (λ w p. p.opened) s.watchers o.watchers_open) in
    rw (e, announce_watchers)
      (watcher_event now count, All-any _ w s.watchers watching reached room, refl, refl)
