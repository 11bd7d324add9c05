-- ===== src/Tests/Hubs.antt =====
-- Pairing, asking, ending and listing on concrete hubs.
use mathlib.Core.List.{Perm}
use code_scout.Common.{
  false, ◌≢◌, Bool-cases, inl, inr, some_inj, ap, ◌∙◌, ◌≤◌, ◌≡◌, refl, true, none, [], ◌∷◌, map,
  some, ok, err, All, keep, any, codes, lookup, insert, delete, equal, nat_eq, bytes_eq, ◌==◌,
}
use code_scout.Domain.Pairing.{
  new_pairing_code, draw_letters, drawn_letter, write_letter, letter, to_upper,
  normalise_pairing_code,
}
use code_scout.Domain.LiveSession.{Uuid, LiveSessionState, expired, idle}
use code_scout.Live.Channel.Delivery.{with_last}
use code_scout.Live.Session.{Session, event_buffer, max_sessions_per_project}
use code_scout.Live.Hub.{
  end_locked, Hub, new_hub, no_such_code, ended_session, final_event, hang_up_on, end_session,
  sweep_one, sweep_each, sweep_locked, attach_device,
}
use code_scout.Live.Hub.Pairing.{
  try_code, draw_code, mint_swept, mint, live_count, is_live_in, claimed, claim_found, claim_swept,
  claim,
}
use code_scout.Live.Hub.Ask.{DeviceRequest, ask_register, on_reply, ask_wake, deliver}
use code_scout.Live.Hub.Stream.{subscribe}
use code_scout.Live.Hub.Listing.{list}
use code_scout.Live.Hub.Steps.{step, run, sweeps, ends, closes}
use code_scout.Live.Hub.Invariant.{Inv}
use code_scout.Live.Hub.Invariant.History.{run-new_hub-Inv}
use code_scout.Live.Hub.Promises.Codes.{claim_once, mint_ok, end_withdraws_code}
use code_scout.Live.Hub.Promises.Ending.{end_informs_everyone}
use code_scout.Live.Hub.Promises.Unheard.{late_attach_is_kept}
use code_scout.Live.Hub.Promises.Answers.{answer_reaches_asker}
use code_scout.Live.Hub.Promises.Order.{NewestFirst, list_shows}
use code_scout.Tests.Scenes.{
  drawn, phone, opened, opened_session, opened_fresh, joined, joined_fresh, asked, asked_session,
  asked_fresh, asked_at_7, over, over_session, over_at_7, reminted, reminted_session, reminted_at_7,
  reminted_names_8,
}

run-new_hub-Inv_example : Inv (run joined new_hub)
run-new_hub-Inv_example = run-new_hub-Inv joined joined_fresh

first_claim :
    (claim 2 3 (codes "234-679") phone (run opened new_hub)).1
    ≡ ok (claimed 2 phone opened_session).meta
unfolding lookup insert delete equal run step mint mint_swept draw_code try_code sweep_locked
    sweep_each new_pairing_code draw_letters drawn_letter write_letter letter sweep_one expired idle
    claim claim_swept claim_found normalise_pairing_code to_upper
first_claim = refl

same_letters : normalise_pairing_code (codes "23 46 79") ≡ normalise_pairing_code (codes "234-679")
unfolding normalise_pairing_code to_upper
same_letters = refl

claim_once_example :
    ((claimed 2 phone opened_session).meta.project_id ≡ 3)
    × (LiveSessionState.connected ≡ LiveSessionState.connected)
    × (phone ≡ phone)
    × ((claim 9 4 (codes "23 46 79") phone (
          run
            (sweeps 8 ∷ ends 8 7 (codes "done") ∷ [])
            (claim 2 3 (codes "234-679") phone (run opened new_hub)).0)).1
        ≡ err no_such_code)
claim_once_example =
    claim_once 2 9 3 4 (codes "234-679") (codes "23 46 79") phone phone (run opened new_hub)
      (claimed 2 phone opened_session).meta (sweeps 8 ∷ ends 8 7 (codes "done") ∷ [])
      (run-new_hub-Inv opened opened_fresh) first_claim (tt, (tt, tt)) same_letters

first_mint : (mint 1 7 drawn 3 9 new_hub).1 ≡ ok opened_session.meta
unfolding lookup insert delete equal run step mint mint_swept draw_code try_code sweep_locked
    sweep_each new_pairing_code draw_letters drawn_letter write_letter letter
first_mint = refl

mint_ok_example :
    (opened_session.meta ≡ opened_session.meta)
    × (lookup (codes "234679") (sweep_locked 1 new_hub).by_code ≡ none)
    × (lookup (codes "234679") (mint 1 7 drawn 3 9 new_hub).0.by_code ≡ some 7)
    × (live_count 3 (mint 1 7 drawn 3 9 new_hub).0.sessions ≤ max_sessions_per_project)
mint_ok_example = mint_ok 1 7 drawn 3 9 new_hub opened_session.meta first_mint

letters_kept : normalise_pairing_code (codes "234679") ≡ codes "234679"
unfolding normalise_pairing_code to_upper
letters_kept = refl

end_withdraws_code_example :
    (claim 9 3 (codes "234679") phone (end_session 6 7 (codes "done") (run reminted new_hub))).1
    ≡ err no_such_code
end_withdraws_code_example =
    end_withdraws_code 6 9 7 8 3 (codes "done") (codes "234679") phone (run reminted new_hub)
      reminted_session reminted_at_7 refl reminted_names_8 letters_kept

end_informs_everyone_example :
    let h = run asked new_hub in
    let h' = end_session 6 7 (codes "done") h in
    (lookup 7 h'.sessions ≡ some (ended_session 6 asked_session))
    × All
        (λ w.
          ((h'.events.chan w).closed ≡ true)
          × ((h'.events.chan w).buffer
              ≡ with_last event_buffer
                  (final_event 6 (codes "done") asked_session)
                  (h.events.chan w).buffer))
        (0 ∷ [])
    × All (λ r. (h'.replies.chan r).closed ≡ true) (0 ∷ [])
    × (h'.hung_up ≡ hang_up_on (some 5) h.hung_up)
    × (end_session 9 7 (codes "again") h' ≡ h')
end_informs_everyone_example =
    end_informs_everyone 6 9 7 (codes "done") (codes "again") (run asked new_hub) asked_session
      (run-new_hub-Inv asked asked_fresh) asked_at_7 refl

-- The only session, which has ended.
over_sessions : (run over new_hub).sessions ≡ (7, over_session) ∷ []
unfolding lookup insert delete equal run step mint mint_swept draw_code try_code sweep_locked
    sweep_each new_pairing_code draw_letters drawn_letter write_letter letter end_session end_locked
over_sessions = refl

idle_5 : (k : Uuid) (t : Session) → lookup k ((7, over_session) ∷ []) ≡ some t → t.hang_up ≢ some 5
unfolding lookup
idle_5 k t e = elim (Bool-cases (7 == k)) [
  | inl same ↦
      let found : some over_session ≡ some t = rw same at e in
      λ up. cc (ap (λ x. x.hang_up) (some_inj found) ∙ up)
  | inr other ↦ let clash : none ≡ some t = rw other at e in cc
]

nobody_5 : any (λ c. c == 5) (run over new_hub).hung_up ≡ false
unfolding lookup insert delete equal run step mint mint_swept draw_code try_code sweep_locked
    sweep_each new_pairing_code draw_letters drawn_letter write_letter letter end_session end_locked
nobody_5 = refl

late_attach_is_kept_example :
    any
      (λ c. c == 5)
      (run
        (ends 9 7 (codes "done") ∷ sweeps 9 ∷ closes 9 ∷ [])
        (attach_device 7 5 (run over new_hub))).hung_up
    ≡ false
late_attach_is_kept_example =
    late_attach_is_kept 7 5 (run over new_hub) over_session
      (ends 9 7 (codes "done") ∷ sweeps 9 ∷ closes 9 ∷ []) over_at_7 refl nobody_5
      (λ k t e. idle_5 k t (rw over_sessions at e)) (tt, (tt, (tt, tt)))

no_answer_yet : ((run asked new_hub).replies.chan 0).buffer ≡ []
unfolding lookup insert delete equal run step mint mint_swept draw_code try_code sweep_locked
    sweep_each new_pairing_code draw_letters drawn_letter write_letter letter subscribe
    attach_device ask_register
no_answer_yet = refl

answer_reaches_asker_example :
    let h₁ = deliver 8 7 0 (codes "pong") (run asked new_hub) in
    ((h₂ : Hub) × (ask_wake 0 on_reply h₁ ≡ some (h₂, ok (codes "pong"))))
    × ((deliver 9 7 0 (codes "late") h₁).replies ≡ h₁.replies)
answer_reaches_asker_example =
    answer_reaches_asker 8 9 7 0 (codes "pong") (codes "late") (run asked new_hub) asked_session
      (run-new_hub-Inv asked asked_fresh) asked_at_7 refl refl no_answer_yet

abbrev pinged : DeviceRequest
pinged = record { conn = 5; req = 0; op = codes "ping"; args = [] }

list_shows_example :
    NewestFirst (list 3 3 (run reminted new_hub)).1
    × Perm (list 3 3 (run reminted new_hub)).1 (
        map
          (λ p. (p.1).meta)
          (keep (is_live_in 3) (sweep_locked 3 (run reminted new_hub)).sessions))
list_shows_example = list_shows 3 3 (run reminted new_hub)
