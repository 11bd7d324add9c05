-- ===== src/Live/Hub/Promises/Unheard.antt =====
-- Histories of internal/live/hub.go that leave a connection alone.
use code_scout.Common.{
  All, ℕ, ◌≡◌, ◌≢◌, refl, sym, ◌∙◌, true, false, List, [], ◌∷◌, Option, some, inl, inr,
  Option-cases, Bool-cases, Bytes, any, leb, ◌==◌, lookup, nat_eq, bytes_eq, Result-cases,
}
use code_scout.Domain.Pairing.{normalise_pairing_code}
use code_scout.Domain.LiveSession.{Uuid, Time, LiveDevice, LiveSessionState, is_ended, is_waiting}
use code_scout.Live.Session.{Session, max_sessions_per_project}
use code_scout.Live.Hub.{Hub, sweep_locked, close_hub, attach_device, ids}
use code_scout.Live.Hub.Pairing.{
  live_count, draw_code, mint_swept, mint, claimed, claim_found, claim_swept, claim,
}
use code_scout.Live.Hub.Steps.{
  Call, mints, claims, publishes, attaches, asks, wakes, forgets, delivers, touches, subscribes,
  unsubscribes, announces, receives, ends, sweeps, closes, step, run,
}
use code_scout.Live.Hub.Promises.Quiet.{
  Quiet, end_session-Quiet, sweep_each-Quiet, close_each-Quiet,
}
use code_scout.Live.Hub.Promises.Held.{
  stored-Quiet, publish-Quiet, announce-Quiet, attach-Quiet, touch-Quiet, subscribe-Quiet,
  unsubscribe-Quiet, ask_register-Quiet, ask_forget-Quiet, deliver-Quiet, ask_wake-Quiet,
}

module _ (conn : ℕ) where
  mint_swept-Quiet :
      (now : Time) (id : Uuid) (rands : ℕ → ℕ → Option ℕ) (project by : Uuid) (h : Hub)
      → Quiet conn h
      → Quiet conn (mint_swept now id rands project by h).0
  unfolding mint_swept
  mint_swept-Quiet now id rands project by h q =
      elim (Bool-cases (leb max_sessions_per_project (live_count project h.sessions))) [
        | inl full ↦ rw full q
        | inr room ↦ elim (Result-cases (draw_code 8 0 rands h.by_code)) [
          | inr (e, failed) ↦ rw (room, failed) q
          | inl (code, drawn) ↦
              rw (room, drawn) (stored-Quiet conn id _ h _ q (λ same. absurd (cc same)) refl refl)
        ]
      ]

  waits-live : (st : LiveSessionState) → is_waiting st ≡ true → is_ended st ≡ false
  waits-live LiveSessionState.waiting h = refl
  waits-live LiveSessionState.connected h = refl
  waits-live LiveSessionState.ended h = cc

  claim_found-Quiet :
      (now : Time) (project : Uuid) (device : LiveDevice) (id : Uuid) (h : Hub)
      → Quiet conn h
      → Quiet conn (claim_found now project device id (lookup id h.sessions) h).0
  unfolding claim_found
  claim_found-Quiet now project device id h q = elim (Option-cases (lookup id h.sessions)) [
    | inl e ↦ rw e q
    | inr (s, e) ↦ elim (Bool-cases (is_waiting s.meta.state)) [
      | inr busy ↦ rw (e, busy) q
      | inl waits ↦ elim (Bool-cases (s.meta.project_id == project)) [
        | inr foreign ↦ rw (e, waits, foreign) q
        | inl own ↦
            rw (e, waits, own)
              (stored-Quiet conn id (claimed now device s) h _ q
                (λ same.
                  let clash : true ≡ false =
                    sym (q.only_ended id s e same) ∙ waits-live s.meta.state waits in
                  cc)
                refl refl)
      ]
    ]
  ]

  claim_swept-Quiet :
      (now : Time) (project : Uuid) (code : Bytes) (device : LiveDevice) (h : Hub)
      → Quiet conn h
      → Quiet conn (claim_swept now project code device h).0
  unfolding claim_swept
  claim_swept-Quiet now project code device h q =
      elim (Option-cases (lookup (normalise_pairing_code code) h.by_code)) [
        | inl e ↦ rw (e, claim_swept) q
        | inr (id, e) ↦ rw (e, claim_swept) (claim_found-Quiet now project device id h q)
      ]

  -- The call attaches no device by the connection.
  abbrev pub AttachesOther : Call → Type 0
  AttachesOther (attaches id c) = c ≢ conn
  AttachesOther _ = Unit

  step-Quiet : (c : Call) (h : Hub) → AttachesOther c → Quiet conn h → Quiet conn (step c h)
  unfolding step mint claim sweep_locked close_hub
  step-Quiet (mints now id rands project by) h f q =
      mint_swept-Quiet now id rands project by _ (sweep_each-Quiet conn now (ids h) h q)
  step-Quiet (claims now project code device) h f q =
      claim_swept-Quiet now project code device _ (sweep_each-Quiet conn now (ids h) h q)
  step-Quiet (publishes now id kind logs) h f q = publish-Quiet conn now id kind logs h q
  step-Quiet (attaches id c) h f q = attach-Quiet conn id c h f q
  step-Quiet (asks id cmd) h f q = ask_register-Quiet conn id cmd h q
  step-Quiet (wakes req wake) h f q = ask_wake-Quiet conn req wake h q
  step-Quiet (forgets id req) h f q = ask_forget-Quiet conn id req h q
  step-Quiet (delivers now id req payload) h f q = deliver-Quiet conn now id req payload h q
  step-Quiet (touches now id) h f q = touch-Quiet conn now id h q
  step-Quiet (subscribes id after) h f q = subscribe-Quiet conn id after h q
  step-Quiet (unsubscribes id w) h f q = unsubscribe-Quiet conn id w h q
  step-Quiet (announces now id count) h f q = announce-Quiet conn now id count h q
  step-Quiet (receives w) h f q = record { not_yet = q.not_yet; only_ended = q.only_ended }
  step-Quiet (ends now id reason) h f q = end_session-Quiet conn now id reason h q
  step-Quiet (sweeps now) h f q = sweep_each-Quiet conn now (ids h) h q
  step-Quiet (closes now) h f q = close_each-Quiet conn now (ids h) h q

  pub run-Quiet :
      (cs : List Call) (h : Hub) → All AttachesOther cs → Quiet conn h → Quiet conn (run cs h)
  unfolding run
  run-Quiet [] h f q = q
  run-Quiet (c ∷ cs) h f q = run-Quiet cs (step c h) f.1 (step-Quiet c h f.0 q)

-- A device attaches, by a connection that no session has and nobody has hung up on, to a session that
-- has ended by then. Whatever calls of the hub come behind it, in any order, none of them ever hangs up
-- on the connection, unless it is attached to a session again: not the end of the session, not a
-- sweep, not the close of the hub.
pub late_attach_is_kept :
    (id : Uuid) (conn : ℕ) (h : Hub) (s : Session) (cs : List Call)
    → lookup id h.sessions ≡ some s
    → is_ended s.meta.state ≡ true
    → any (λ c. c == conn) h.hung_up ≡ false
    → ((k : Uuid) (t : Session) → lookup k h.sessions ≡ some t → t.hang_up ≢ some conn)
    → All (AttachesOther conn) cs
    → any (λ c. c == conn) (run cs (attach_device id conn h)).hung_up ≡ false
unfolding attach_device
late_attach_is_kept id conn h s cs e over not_yet new others =
    let before : Quiet conn h = record {
      not_yet = not_yet;
      only_ended = λ k t f same. absurd (new k t f same);
    } in
    let attached : Quiet conn (attach_device id conn h) =
      rw (e, attach_device) (stored-Quiet conn id _ h _ before (λ same. over) refl refl) in
    (run-Quiet conn cs (attach_device id conn h) others attached).not_yet
