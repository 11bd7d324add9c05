-- ===== src/Live/Hub/Invariant/Streaming.antt =====
-- Publishing, watching and cancelling keep the invariant.
use code_scout.Common.{
  ℕ, suc, ◌+◌, ◌≤◌, ◌<◌, ◌≡◌, ◌≢◌, refl, sym, ◌∙◌, ap, true, false, not, List, [], ◌∷◌, ◌++◌, some,
  Option-cases, arith, inl, inr, Bool-cases, All, All-map, All-append, All-keep, All-any, any,
  Distinct, Distinct-keep, Distinct-concat, length, length-append, length-keep-le, leb, lookup,
  nat_eq, ◌==◌,
}
use code_scout.Domain.LiveSession.{Uuid, Time, is_ended, LiveEvent, LiveEventKind, LiveLog}
use code_scout.Live.Channel.{make, close, fan_out}
use code_scout.Live.Channel.Safety.{
  IsOpen, IsOpen-make, make-IsOpen, fan_out-Keeps, Keeps-IsOpen, close-ClosesOnly, close-IsOpen,
}
use code_scout.Live.Session.{
  Session, event_buffer, max_watchers_per_session, remember, remember_all,
}
use code_scout.Live.Session.Replay.{Numbered, remember_all-IsRing}
use code_scout.Live.Hub.{Hub}
use code_scout.Live.Hub.Stream.{
  number_logs, publish_events, published, publish, watcher_event, announce_watchers, set_watchers,
  subscribe, remove, unsubscribe,
}
use code_scout.Live.Hub.Invariant.{SessionOk, Inv}
use code_scout.Live.Hub.Invariant.Update.{
  Spares-refl, events-Inv, Keeps-Spares, ClosesOnly-Spares, make-Spares, CodesLeft-same, put-Inv,
}

-- All that `remember` leaves alone.
pub record SameFacts (s t : Session) : Type 0 where
  pub meta_same : t.meta ≡ s.meta
  pub seq_same : t.seq ≡ s.seq
  pub watchers_same : t.watchers ≡ s.watchers
  pub pending_same : t.pending ≡ s.pending

pub remember_all-SameFacts : (evs : List LiveEvent) (s : Session) → SameFacts s (remember_all evs s)
unfolding remember_all remember
remember_all-SameFacts [] s = record {
  meta_same = refl;
  seq_same = refl;
  watchers_same = refl;
  pending_same = refl;
}
remember_all-SameFacts (ev ∷ evs) s =
    let k = remember_all-SameFacts evs (remember ev s) in
    record {
      meta_same = k.meta_same ∙ ground arith;
      seq_same = k.seq_same ∙ ground arith;
      watchers_same = k.watchers_same ∙ ground arith;
      pending_same = k.pending_same ∙ ground arith;
    }

number_logs-Numbered :
    (kind : LiveEventKind) (now : Time) (n : ℕ) (logs : List LiveLog)
    → Numbered n (number_logs kind now n logs)
unfolding number_logs
number_logs-Numbered kind now n [] = tt
number_logs-Numbered kind now n (l ∷ ls) = (refl, number_logs-Numbered kind now (suc n) ls)

-- The events of one `Publish` carry the numbers behind the session's last one.
pub publish_events-Numbered :
    (kind : LiveEventKind) (now : Time) (n : ℕ) (logs : List LiveLog)
    → Numbered n (publish_events kind now n logs)
unfolding publish_events
publish_events-Numbered kind now n [] = (refl, tt)
publish_events-Numbered kind now n (l ∷ ls) = number_logs-Numbered kind now n (l ∷ ls)

module _ (h : Hub) (id : Uuid) (s : Session) (e : lookup id h.sessions ≡ some s) (v : Inv h) where
  publish_live :
      (now : Time) (kind : LiveEventKind) (logs : List LiveLog)
      → is_ended s.meta.state ≡ false
      → SessionOk
          (fan_out event_buffer (publish_events kind now s.seq logs) s.watchers h.events)
          h.replies
          id
          (published now (publish_events kind now s.seq logs) s)
  publish_live now kind logs live =
      let o = v.sessions_ok id s e in
      let evs = publish_events kind now s.seq logs in
      let s₁ = record s { meta = record s.meta { last_seen = now }; seq = s.seq + length evs } in
      let k = remember_all-SameFacts evs s₁ in
      let open_after = fan_out-Keeps event_buffer evs id s.watchers h.events o.watchers_open in
      let ring =
        remember_all-IsRing evs s₁ s.seq (o.replayable live)
          (publish_events-Numbered kind now s.seq logs) in
      record {
        named = ap (λ m. m.id) k.meta_same ∙ o.named;
        watchers_open =
            rw k.watchers_same
              (All-map _ _ (λ w p. Keeps-IsOpen open_after p) s.watchers o.watchers_open);
        watchers_distinct = rw k.watchers_same o.watchers_distinct;
        watchers_bounded = rw k.watchers_same o.watchers_bounded;
        watchers_counted =
            ap (λ m. m.watchers) k.meta_same ∙ o.watchers_counted ∙ ap length (sym k.watchers_same);
        pending_open = rw k.pending_same o.pending_open;
        pending_distinct = rw k.pending_same o.pending_distinct;
        replayable = λ _. rw k.seq_same ring;
        ended_idle = λ over. absurd (ground (arith, k.meta_same, over, live));
      }

  -- A session with another set of open watchers.
  rewatched :
      (events' : _) (ws : List ℕ)
      → is_ended s.meta.state ≡ false
      → All (IsOpen events' id) ws
      → Distinct ws
      → length ws ≤ max_watchers_per_session
      → SessionOk events' h.replies id (set_watchers ws s)
  rewatched events' ws live opened distinct bounded =
      let o = v.sessions_ok id s e in
      record {
        named = o.named;
        watchers_open = opened;
        watchers_distinct = distinct;
        watchers_bounded = bounded;
        watchers_counted = refl;
        pending_open = o.pending_open;
        pending_distinct = o.pending_distinct;
        replayable = o.replayable;
        ended_idle = λ over. absurd (ground (arith, over, live));
      }

  subscribe_live :
      is_ended s.meta.state ≡ false
      → length s.watchers < max_watchers_per_session
      → SessionOk
          (make id h.events)
          h.replies
          id
          (set_watchers (s.watchers ++ h.events.next ∷ []) s)
  subscribe_live live room =
      let o = v.sessions_ok id s e in
      let w = h.events.next in
      rewatched (make id h.events) (s.watchers ++ w ∷ []) live
        (All-append _ s.watchers (w ∷ [])
          (All-map _ _ (λ u p. IsOpen-make id h.events p) s.watchers o.watchers_open)
          (make-IsOpen id h.events, tt))
        (Distinct-concat s.watchers w o.watchers_distinct
          (All-map _ _ (λ u p. newest u p) s.watchers o.watchers_open))
        (omega (arith, room, length-append s.watchers (w ∷ [])))
    where
      newest : (u : ℕ) → IsOpen h.events id u → h.events.next ≢ u
      newest u p = omega (arith, p.made)

  unsubscribe_live :
      (w : ℕ)
      → is_ended s.meta.state ≡ false
      → IsOpen h.events id w
      → SessionOk (close w h.events) h.replies id (set_watchers (remove w s.watchers) s)
  unsubscribe_live w live own =
      let o = v.sessions_ok id s e in
      let left = All-keep (IsOpen h.events id) (λ u. not (u == w)) s.watchers o.watchers_open in
      rewatched (close w h.events) (remove w s.watchers) live
        (All-map _ _ (λ u p. close-IsOpen w u id h.events (ground (arith, p.1)) own p.0)
          (remove w s.watchers) left)
        (Distinct-keep _ s.watchers o.watchers_distinct)
        (omega (arith, o.watchers_bounded, length-keep-le {0} (λ u. not (u == w)) s.watchers))

watched-live :
    (s : Session) (w : ℕ)
    → any (λ u. u == w) s.watchers ≡ true
    → (is_ended s.meta.state ≡ true → (s.watchers ≡ []) × (s.pending ≡ []))
    → is_ended s.meta.state ≡ false
watched-live s w present idle = elim (Bool-cases (is_ended s.meta.state)) [
  | inl over ↦ absurd (ground (arith, ap (any (λ u. u == w)) (idle over).0))
  | inr live ↦ live
]

pub publish-Inv :
    (now : Time) (id : Uuid) (kind : LiveEventKind) (logs : List LiveLog) (h : Hub)
    → Inv h
    → Inv (publish now id kind logs h)
unfolding publish
publish-Inv now id kind logs h v = elim (Option-cases (lookup id h.sessions)) [
  | inl e ↦ rw (e, publish) v
  | inr (s, e) ↦
      rw (e, publish)
        (elim (Bool-cases (is_ended s.meta.state)) [
          | inl over ↦ rw over v
          | inr live ↦
              let evs = publish_events kind now s.seq logs in
              let k =
                remember_all-SameFacts evs (record s {
                  meta = record s.meta { last_seen = now };
                  seq = s.seq + length evs;
                }) in
              rw live (
                put-Inv h id (published now evs s) v _ _ _ _
                  (publish_live h id s e v now kind logs live)
                  (Keeps-Spares id (
                    fan_out-Keeps event_buffer evs id s.watchers h.events
                      (v.sessions_ok id s e).watchers_open))
                  (Spares-refl id h.replies)
                  (CodesLeft-same h id s (published now evs s) v e (ap (λ m. m.state) k.meta_same)
                    (ap (λ m. m.code) k.meta_same)))
        ])
]

pub announce_watchers-Inv :
    (now : Time) (id : Uuid) (count : ℕ) (h : Hub) → Inv h → Inv (announce_watchers now id count h)
unfolding announce_watchers
announce_watchers-Inv now id count h v = elim (Option-cases (lookup id h.sessions)) [
  | inl e ↦ rw (e, announce_watchers) v
  | inr (s, e) ↦
      rw (e, announce_watchers)
        (events-Inv h _
          (fan_out-Keeps event_buffer (watcher_event now count ∷ []) id s.watchers h.events
            (v.sessions_ok id s e).watchers_open)
          v)
]

pub subscribe-Inv : (id : Uuid) (after : ℕ) (h : Hub) → Inv h → Inv (subscribe id after h).0
unfolding subscribe
subscribe-Inv id after h v = elim (Option-cases (lookup id h.sessions)) [
  | inl e ↦ rw (e, subscribe) v
  | inr (s, e) ↦
      rw (e, subscribe)
        (elim (Bool-cases (is_ended s.meta.state)) [
          | inl over ↦ rw over v
          | inr live ↦
              rw live (elim (Bool-cases (leb max_watchers_per_session (length s.watchers))) [
                | inl full ↦ rw full v
                | inr room ↦ rw room (
                    put-Inv h id (set_watchers (s.watchers ++ h.events.next ∷ []) s) v _ _ _ _
                      (subscribe_live h id s e v live (ground arith)) (make-Spares id id h.events)
                      (Spares-refl id h.replies)
                      (CodesLeft-same h id s (set_watchers (s.watchers ++ h.events.next ∷ []) s) v e
                        refl refl))
              ])
        ])
]

pub unsubscribe-Inv : (id : Uuid) (w : ℕ) (h : Hub) → Inv h → Inv (unsubscribe id w h).0
unfolding unsubscribe
unsubscribe-Inv id w h v = elim (Option-cases (lookup id h.sessions)) [
  | inl e ↦ rw (e, unsubscribe) v
  | inr (s, e) ↦
      rw (e, unsubscribe)
        (elim (Bool-cases (any (λ u. u == w) s.watchers)) [
          | inr absent ↦ rw absent v
          | inl present ↦
              let o = v.sessions_ok id s e in
              let own = All-any (IsOpen h.events id) w s.watchers present o.watchers_open in
              rw present (
                put-Inv h id (set_watchers (remove w s.watchers) s) v _ _ _ _
                  (unsubscribe_live h id s e v w (watched-live s w present o.ended_idle) own)
                  (ClosesOnly-Spares id (close-ClosesOnly w id h.events own))
                  (Spares-refl id h.replies)
                  (CodesLeft-same h id s (set_watchers (remove w s.watchers) s) v e refl refl))
        ])
]
