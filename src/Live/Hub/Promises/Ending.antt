-- ===== src/Live/Hub/Promises/Ending.antt =====
-- The end of a session, in internal/live/hub.go.
use code_scout.Common.{◌≡◌, refl, true, false, some, All, All-map, Bytes, lookup, nat_eq}
use code_scout.Domain.LiveSession.{Uuid, Time, is_ended}
use code_scout.Live.Channel.Delivery.{with_last, finish_all_each, close_all_each}
use code_scout.Live.Session.{Session, event_buffer}
use code_scout.Live.Hub.{Hub, ended_session, final_event, hang_up_on, end_locked, end_session}
use code_scout.Live.Hub.Invariant.{Inv}
use code_scout.Live.Hub.Invariant.Update.{lookup_self}

end_live :
    (now : Time) (id : Uuid) (reason : Bytes) (h : Hub) (s : Session)
    → lookup id h.sessions ≡ some s
    → is_ended s.meta.state ≡ false
    → end_session now id reason h ≡ end_locked now reason id s h
unfolding end_session
end_live now id reason h s e live = rw (e, end_session, live)

end_over :
    (now : Time) (id : Uuid) (reason : Bytes) (h : Hub) (s : Session)
    → lookup id h.sessions ≡ some s
    → is_ended s.meta.state ≡ true
    → end_session now id reason h ≡ h
unfolding end_session
end_over now id reason h s e over = rw (e, end_session, over)

-- Ending a session that lasts stores it as ended, with nobody watching and no question open. Every
-- watcher's channel has the final event with the reason behind what it held, if there was room, and
-- is closed; every open question's reply channel is closed; the attached device is hung up on, once.
-- Ending it again, for any reason and at any time, changes nothing.
pub end_informs_everyone :
    (now later : Time) (id : Uuid) (reason reason' : Bytes) (h : Hub) (s : Session)
    → Inv h
    → lookup id h.sessions ≡ some s
    → is_ended s.meta.state ≡ false
    → let h' = end_session now id reason h in
      (lookup id h'.sessions ≡ some (ended_session now s))
      × All
          (λ w.
            ((h'.events.chan w).closed ≡ true)
            × ((h'.events.chan w).buffer
                ≡ with_last event_buffer (final_event now reason s) (h.events.chan w).buffer))
          s.watchers
      × All (λ r. (h'.replies.chan r).closed ≡ true) s.pending
      × (h'.hung_up ≡ hang_up_on s.hang_up h.hung_up)
      × (end_session later id reason' h' ≡ h')
unfolding end_locked
end_informs_everyone now later id reason reason' h s v e live =
    let o = v.sessions_ok id s e in
    let found = lookup_self h id (ended_session now s) v in
    rw (end_live now id reason h s e live) (
      found,
      finish_all_each event_buffer (final_event now reason s) s.watchers h.events
          o.watchers_distinct (All-map _ _ (λ w p. p.opened) s.watchers o.watchers_open),
      close_all_each s.pending h.replies o.pending_distinct,
      refl,
      end_over later id reason' _ (ended_session now s) found refl,
    )
