-- ===== src/Tests/Streaming.antt =====
-- Catching up and publishing on a concrete session with one watcher and two events.
use code_scout.Common.{
  any, true, ◌==◌, ◌+◌, ◌-◌, ◌≤◌, ◌≡◌, refl, [], ◌∷◌, ◌++◌, ok, some, false, inl, length, arith,
  lookup, insert, delete, equal, nat_eq, bytes_eq,
}
use code_scout.Domain.Pairing.{new_pairing_code, draw_letters, drawn_letter, write_letter, letter}
use code_scout.Domain.LiveSession.{is_ended, LiveEvent, LiveEventKind}
use code_scout.Live.Channel.{offer, offer_each, fan_out}
use code_scout.Live.Session.{event_buffer, remember, remember_all, since, missed_before}
use code_scout.Live.Session.Replay.{Numbered, HasRing, since_accounts}
use code_scout.Live.Hub.{new_hub, sweep_each, sweep_locked}
use code_scout.Live.Hub.Pairing.{try_code, draw_code, mint_swept, mint}
use code_scout.Live.Hub.Stream.{
  watch, watcher_event, announce_watchers, stream_event, number_logs, publish_events, publish,
  announce_watchers, Subscription, subscribe,
}
use code_scout.Live.Hub.Steps.{step, run}
use code_scout.Live.Hub.Invariant.History.{run-new_hub-Inv}
use code_scout.Live.Hub.Promises.Streaming.{publish_reaches, watch_no_hole, announcement_forgets}
use code_scout.Tests.Scenes.{log_line, watched, watched_session, watched_fresh, watched_at_7}

-- What a watcher that saw the first event is given.
abbrev returning : Subscription
returning = record {
  backlog = stream_event LiveEventKind.log_event 4 2 (some log_line) ∷ [];
  missed = 0;
  session_id = 7;
  watcher = 1;
  cancelled = false;
}

returns : (watch 8 7 1 (run watched new_hub)).1 ≡ ok returning
unfolding lookup insert delete equal run step mint mint_swept draw_code try_code sweep_locked
    sweep_each new_pairing_code draw_letters drawn_letter write_letter letter subscribe since
    missed_before publish publish_events number_logs remember_all remember offer offer_each fan_out
    watch announce_watchers
returns = refl

two_seen : 1 ≤ watched_session.seq
unfolding publish_events number_logs remember_all remember
two_seen = omega arith

one_fits :
    length (publish_events LiveEventKind.log_event 9 watched_session.seq (log_line ∷ [])) + 1
    ≤ event_buffer
unfolding publish_events number_logs
one_fits = omega arith

live_still : is_ended watched_session.meta.state ≡ false
unfolding publish_events number_logs remember_all remember
live_still = refl

watch_no_hole_example :
    let evs = publish_events LiveEventKind.log_event 9 watched_session.seq (log_line ∷ []) in
    (((publish 9 7 LiveEventKind.log_event
          (log_line ∷ [])
          (watch 8 7 1 (run watched new_hub)).0).events.chan
        1).buffer
      ≡ watcher_event 8 (length watched_session.watchers + 1) ∷ evs)
    × Numbered (1 + 0) (returning.backlog ++ evs)
    × (0 + length returning.backlog ≡ watched_session.seq - 1)
watch_no_hole_example =
    watch_no_hole 8 9 7 1 LiveEventKind.log_event (log_line ∷ []) (run watched new_hub)
      watched_session returning (run-new_hub-Inv watched watched_fresh) watched_at_7 (omega arith)
      two_seen one_fits returns

watching_0 : any (λ v. v == 0) watched_session.watchers ≡ true
unfolding publish_events number_logs remember_all remember
watching_0 = refl

still_room :
    length ((run watched new_hub).events.chan 0).buffer
      + length (publish_events LiveEventKind.log_event 8 watched_session.seq (log_line ∷ []))
    ≤ event_buffer
unfolding lookup insert delete equal run step mint mint_swept draw_code try_code sweep_locked
    sweep_each new_pairing_code draw_letters drawn_letter write_letter letter subscribe since
    missed_before publish publish_events number_logs remember_all remember offer offer_each fan_out
still_room = omega arith

publish_reaches_example :
    ((publish 8 7 LiveEventKind.log_event (log_line ∷ []) (run watched new_hub)).events.chan
      0).buffer
    ≡ ((run watched new_hub).events.chan 0).buffer
      ++ publish_events LiveEventKind.log_event 8 watched_session.seq (log_line ∷ [])
publish_reaches_example =
    publish_reaches 8 7 LiveEventKind.log_event (log_line ∷ []) (run watched new_hub)
      watched_session 0 (run-new_hub-Inv watched watched_fresh) watched_at_7 live_still watching_0
      still_room

room_for_one : length ((run watched new_hub).events.chan 0).buffer + 1 ≤ event_buffer
unfolding lookup insert delete equal run step mint mint_swept draw_code try_code sweep_locked
    sweep_each new_pairing_code draw_letters drawn_letter write_letter letter subscribe since
    missed_before publish publish_events number_logs remember_all remember offer offer_each fan_out
room_for_one = omega arith

announcement_forgets_example :
    (ev : LiveEvent) × (((announce_watchers 8 7 1 (run watched new_hub)).events.chan 0).buffer
      ≡ ((run watched new_hub).events.chan 0).buffer ++ ev ∷ [])
    × ((since watched_session ev.seq).0 ≡ [])
    × ((since watched_session ev.seq).1 ≡ 0)
announcement_forgets_example =
    announcement_forgets 8 7 1 (run watched new_hub) watched_session watched_session 0
      (run-new_hub-Inv watched watched_fresh) watched_at_7 watching_0 room_for_one

ring_of_two : HasRing watched_session 2
unfolding remember_all remember publish_events number_logs
ring_of_two = record {
  numbered = (refl, (refl, tt));
  complete = refl;
  bounded = omega arith;
  filled = inl refl;
}

since_accounts_example :
    Numbered (1 + (since watched_session 1).1) (since watched_session 1).0
    × ((since watched_session 1).1 + length (since watched_session 1).0 ≡ 2 - 1)
since_accounts_example = since_accounts watched_session 2 1 ring_of_two (omega arith) (omega arith)
