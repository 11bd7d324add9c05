-- ===== src/Live/Hub/Invariant/Ending.antt =====
-- Ending sessions, one or many, keeps the invariant.
use code_scout.Common.{
  ◌≡◌, refl, ap, true, List, [], ◌∷◌, some, Option-cases, arith, inl, inr, Bool-cases, Bytes,
  lookup, delete, lookup-delete, nat_eq, ltb, ◌-◌, ◌&&◌,
}
use code_scout.Domain.LiveSession.{Uuid, Time, minute, LiveSessionState, is_ended, expired, idle}
use code_scout.Live.Channel.Safety.{finish_all-ClosesOnly, close_all-ClosesOnly}
use code_scout.Live.Session.{Session, event_buffer}
use code_scout.Live.Hub.{
  Hub, ended_session, final_event, end_locked, end_session, sweep_one, sweep_each, sweep_locked,
  close_one, close_each, close_hub,
}
use code_scout.Live.Hub.Invariant.{Inv}
use code_scout.Live.Hub.Invariant.Update.{ClosesOnly-Spares, CodesLeft-delete, put-Inv}

pub end_locked-Inv :
    (now : Time) (reason : Bytes) (id : Uuid) (s : Session) (h : Hub)
    → lookup id h.sessions ≡ some s
    → Inv h
    → Inv (end_locked now reason id s h)
unfolding end_locked
end_locked-Inv now reason id s h e v =
    let o = v.sessions_ok id s e in
    put-Inv h id (ended_session now s) v _ _ _ _
      (record {
        named = o.named;
        watchers_open = tt;
        watchers_distinct = tt;
        watchers_bounded = omega arith;
        watchers_counted = refl;
        pending_open = tt;
        pending_distinct = tt;
        replayable = λ live. absurd (cc live);
        ended_idle = λ _. (refl, refl);
      })
      (ClosesOnly-Spares id (
        finish_all-ClosesOnly event_buffer (final_event now reason s) id s.watchers h.events
          o.watchers_distinct o.watchers_open))
      (ClosesOnly-Spares id
        (close_all-ClosesOnly id s.pending h.replies o.pending_distinct o.pending_open))
      (CodesLeft-delete h id s (ended_session now s) v e)

pub end_session-Inv :
    (now : Time) (id : Uuid) (reason : Bytes) (h : Hub) → Inv h → Inv (end_session now id reason h)
unfolding end_session
end_session-Inv now id reason h v = elim (Option-cases (lookup id h.sessions)) [
  | inl e ↦ rw (e, end_session) v
  | inr (s, e) ↦
      rw (e, end_session)
        (elim (Bool-cases (is_ended s.meta.state)) [
          | inl over ↦ rw over v
          | inr live ↦ rw live (end_locked-Inv now reason id s h e v)
        ])
]

-- Forgetting an ended session keeps the invariant: no code names it.
forget-Inv :
    (id : Uuid) (s : Session) (h : Hub)
    → lookup id h.sessions ≡ some s
    → is_ended s.meta.state ≡ true
    → Inv h
    → Inv (record h { sessions = delete id h.sessions })
forget-Inv id s h e over v = record {
  sessions_ok = λ k t f. v.sessions_ok k t (still k t f);
  codes_ok = λ c k f.
      let (t, found, waits, coded) = v.codes_ok c k f in (t, kept k t found waits, waits, coded);
  events_calm = v.events_calm;
  replies_calm = v.replies_calm;
}
  where
    still :
        (k : Uuid) (t : Session)
        → lookup k (delete id h.sessions) ≡ some t
        → lookup k h.sessions ≡ some t
    still k t f = ground (arith, lookup-delete id k h.sessions)

    kept :
        (k : Uuid) (t : Session)
        → lookup k h.sessions ≡ some t
        → t.meta.state ≡ LiveSessionState.waiting
        → lookup k (delete id h.sessions) ≡ some t
    kept k t found waits =
        ground (arith, lookup-delete id k h.sessions, ap (λ j. lookup j h.sessions))

pub sweep_one-Inv : (now : Time) (id : Uuid) (h : Hub) → Inv h → Inv (sweep_one now id h)
unfolding sweep_one
sweep_one-Inv now id h v = elim (Option-cases (lookup id h.sessions)) [
  | inl e ↦ rw (e, sweep_one) v
  | inr (s, e) ↦
      rw (e, sweep_one)
        (elim (Bool-cases (expired s.meta now)) [
          | inl late ↦ rw late (end_locked-Inv now _ id s h e v)
          | inr timely ↦ rw timely (elim (Bool-cases (idle s.meta now)) [
            | inl quiet ↦ rw quiet (end_locked-Inv now _ id s h e v)
            | inr heard ↦
                rw heard
                  (elim (Bool-cases (is_ended s.meta.state && ltb minute (now - s.meta.ended_at))) [
                    | inl old ↦ rw old (forget-Inv id s h e (ground arith) v)
                    | inr kept ↦ rw kept v
                  ])
          ])
        ])
]

sweep_each-Inv : (now : Time) (ids : List Uuid) (h : Hub) → Inv h → Inv (sweep_each now ids h)
unfolding sweep_each
sweep_each-Inv now [] h v = v
sweep_each-Inv now (id ∷ ids) h v = sweep_each-Inv now ids _ (sweep_one-Inv now id h v)

pub sweep_locked-Inv : (now : Time) (h : Hub) → Inv h → Inv (sweep_locked now h)
unfolding sweep_locked
sweep_locked-Inv now h v = sweep_each-Inv now _ h v

close_each-Inv : (now : Time) (ids : List Uuid) (h : Hub) → Inv h → Inv (close_each now ids h)
unfolding close_each close_one
close_each-Inv now [] h v = v
close_each-Inv now (id ∷ ids) h v = close_each-Inv now ids _ (end_session-Inv now id _ h v)

pub close_hub-Inv : (now : Time) (h : Hub) → Inv h → Inv (close_hub now h)
unfolding close_hub
close_hub-Inv now h v = close_each-Inv now _ h v
