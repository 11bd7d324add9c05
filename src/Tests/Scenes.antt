-- ===== src/Tests/Scenes.antt =====
-- A session of project 3 that is minted, claimed, attached and watched, as the other tests use it.
use code_scout.Common.{
  ℕ, ◌≡◌, false, refl, List, [], ◌∷◌, Option, some, codes, lookup, insert, delete, equal, nat_eq,
  bytes_eq,
}
use code_scout.Domain.Pairing.{
  new_pairing_code, draw_letters, drawn_letter, write_letter, letter, to_upper,
  normalise_pairing_code,
}
use code_scout.Domain.LiveSession.{LiveDevice, expired, idle, no_device, LiveEventKind, LiveLog}
use code_scout.Live.Session.{Session, remember, remember_all, since, missed_before}
use code_scout.Live.Hub.{
  new_hub, ended_session, end_locked, end_session, sweep_one, sweep_each, sweep_locked,
  attach_device,
}
use code_scout.Live.Hub.Pairing.{
  try_code, draw_code, minted, mint_swept, mint, claimed, claim_found, claim_swept, claim,
}
use code_scout.Live.Hub.Stream.{
  number_logs, publish_events, published, publish, set_watchers, subscribe,
}
use code_scout.Live.Hub.Ask.{DeviceCommand, set_pending, ask_register}
use code_scout.Live.Hub.Steps.{
  Call, mints, claims, publishes, attaches, asks, subscribes, ends, step, run,
}
use code_scout.Live.Hub.Invariant.History.{AllFresh}

-- The draws of a round: the letters in the order of the alphabet.
abbrev pub drawn : ℕ → ℕ → Option ℕ
drawn k i = some i

abbrev pub phone : LiveDevice
phone = record no_device { device_model = codes "Pixel 7" }

abbrev pub log_line : LiveLog
log_line = record {
  level = codes "info";
  message = codes "hello";
  error = [];
  timestamp = 5;
  is_network_call = false;
  request_id = [];
  call_phase = [];
  method = [];
  url = [];
  status_code = 0;
  metadata = [];
}

abbrev pub ping : DeviceCommand
ping = record { op = codes "ping"; args = [] }

abbrev pub opened : List Call
opened = mints 1 7 drawn 3 9 ∷ []

abbrev pub joined : List Call
joined = mints 1 7 drawn 3 9 ∷ claims 2 3 (codes "234-679") phone ∷ attaches 7 5 ∷ []

abbrev pub watched : List Call
watched =
    mints 1 7 drawn 3 9
    ∷ subscribes 7 0
    ∷ publishes 4 7 LiveEventKind.log_event (log_line ∷ log_line ∷ [])
    ∷ []

abbrev pub asked : List Call
asked = mints 1 7 drawn 3 9 ∷ attaches 7 5 ∷ subscribes 7 0 ∷ asks 7 ping ∷ []

abbrev pub reminted : List Call
reminted = mints 1 7 drawn 3 9 ∷ claims 2 3 (codes "234-679") phone ∷ mints 3 8 drawn 3 9 ∷ []

abbrev pub over : List Call
over = mints 1 7 drawn 3 9 ∷ ends 6 7 (codes "done") ∷ []

abbrev pub opened_session : Session
opened_session = minted 1 7 3 9 (codes "234679")

abbrev pub joined_session : Session
joined_session = record (claimed 2 phone opened_session) { send = some 5; hang_up = some 5 }

abbrev pub watched_session : Session
watched_session =
    published 4 (publish_events LiveEventKind.log_event 4 0 (log_line ∷ log_line ∷ []))
      (set_watchers (0 ∷ []) opened_session)

abbrev pub asked_session : Session
asked_session =
    set_pending (0 ∷ [])
      (set_watchers (0 ∷ []) (record opened_session { send = some 5; hang_up = some 5 }))

abbrev pub reminted_session : Session
reminted_session = claimed 2 phone opened_session

abbrev pub over_session : Session
over_session = ended_session 6 opened_session

pub opened_fresh : AllFresh opened new_hub
unfolding lookup insert equal step mint mint_swept draw_code try_code sweep_locked sweep_each
    new_pairing_code draw_letters drawn_letter write_letter letter
opened_fresh = (refl, tt)

pub opened_at_7 : lookup 7 (run opened new_hub).sessions ≡ some opened_session
unfolding lookup insert delete equal run step mint mint_swept draw_code try_code sweep_locked
    sweep_each new_pairing_code draw_letters drawn_letter write_letter letter
opened_at_7 = refl

pub joined_fresh : AllFresh joined new_hub
unfolding lookup insert equal step mint mint_swept draw_code try_code sweep_locked sweep_each
    new_pairing_code draw_letters drawn_letter write_letter letter
joined_fresh = (refl, (tt, (tt, tt)))

pub joined_at_7 : lookup 7 (run joined new_hub).sessions ≡ some joined_session
unfolding lookup insert delete equal run step mint mint_swept draw_code try_code sweep_locked
    sweep_each new_pairing_code draw_letters drawn_letter write_letter letter sweep_one expired idle
    claim claim_swept claim_found attach_device normalise_pairing_code to_upper
joined_at_7 = refl

pub watched_fresh : AllFresh watched new_hub
unfolding lookup insert equal step mint mint_swept draw_code try_code sweep_locked sweep_each
    new_pairing_code draw_letters drawn_letter write_letter letter
watched_fresh = (refl, (tt, (tt, tt)))

pub watched_at_7 : lookup 7 (run watched new_hub).sessions ≡ some watched_session
unfolding lookup insert delete equal run step mint mint_swept draw_code try_code sweep_locked
    sweep_each new_pairing_code draw_letters drawn_letter write_letter letter subscribe since
    missed_before publish publish_events number_logs remember_all remember
watched_at_7 = refl

pub asked_fresh : AllFresh asked new_hub
unfolding lookup insert equal step mint mint_swept draw_code try_code sweep_locked sweep_each
    new_pairing_code draw_letters drawn_letter write_letter letter
asked_fresh = (refl, (tt, (tt, (tt, tt))))

pub asked_at_7 : lookup 7 (run asked new_hub).sessions ≡ some asked_session
unfolding lookup insert delete equal run step mint mint_swept draw_code try_code sweep_locked
    sweep_each new_pairing_code draw_letters drawn_letter write_letter letter subscribe since
    attach_device ask_register
asked_at_7 = refl

pub over_fresh : AllFresh over new_hub
unfolding lookup insert equal step mint mint_swept draw_code try_code sweep_locked sweep_each
    new_pairing_code draw_letters drawn_letter write_letter letter
over_fresh = (refl, (tt, tt))

pub over_at_7 : lookup 7 (run over new_hub).sessions ≡ some over_session
unfolding lookup insert delete equal run step mint mint_swept draw_code try_code sweep_locked
    sweep_each new_pairing_code draw_letters drawn_letter write_letter letter end_session end_locked
over_at_7 = refl

pub reminted_at_7 : lookup 7 (run reminted new_hub).sessions ≡ some reminted_session
unfolding lookup insert delete equal run step mint mint_swept draw_code try_code sweep_locked
    sweep_each new_pairing_code draw_letters drawn_letter write_letter letter sweep_one expired idle
    claim claim_swept claim_found normalise_pairing_code to_upper
reminted_at_7 = refl

pub reminted_names_8 : lookup (codes "234679") (run reminted new_hub).by_code ≡ some 8
unfolding lookup insert delete equal run step mint mint_swept draw_code try_code sweep_locked
    sweep_each new_pairing_code draw_letters drawn_letter write_letter letter sweep_one expired idle
    claim claim_swept claim_found normalise_pairing_code to_upper
reminted_names_8 = refl
