-- ===== src/Live/Hub/Promises/Absence.antt =====
-- A code that the index of internal/live/hub.go does not have, and the calls that leave it so.
use code_scout.Common.{
  ℕ, ◌≡◌, ◌≢◌, refl, ◌∙◌, List, [], ◌∷◌, Option, none, some, arith, inl, inr, Option-cases,
  Bool-cases, Bytes, equal, equal_iff, lookup, lookup-insert, lookup-delete, nat_eq, bytes_eq, ok,
  Result-cases, leb,
}
use code_scout.Domain.Pairing.{normalise_pairing_code}
use code_scout.Domain.LiveSession.{Uuid, Time, LiveDevice, LiveSession}
use code_scout.Live.Session.{Session, max_sessions_per_project}
use code_scout.Live.Hub.{
  Hub, end_locked, end_session, sweep_one, sweep_each, sweep_locked, close_one, close_each,
  close_hub, ids,
}
use code_scout.Live.Hub.Pairing.{
  live_count, draw_code, mint_swept, mint, claim_found, claim_swept, claim,
}
use code_scout.Live.Hub.Steps.{
  Call, mints, claims, publishes, attaches, asks, wakes, forgets, delivers, touches, subscribes,
  unsubscribes, announces, receives, ends, sweeps, closes, step, run,
}
use code_scout.Live.Hub.Promises.Index.{
  publish-by_code, announce-by_code, attach-by_code, touch-by_code, subscribe-by_code,
  unsubscribe-by_code, ask_register-by_code, ask_forget-by_code, deliver-by_code, ask_wake-by_code,
}

-- A sweep issues no code.
sweep_one-code :
    (now : Time) (id : Uuid) (c : Bytes) (h : Hub)
    → lookup c h.by_code ≡ none
    → lookup c (sweep_one now id h).by_code ≡ none
unfolding sweep_one end_locked
sweep_one-code now id c h absent = elim (Option-cases (lookup id h.sessions)) [
  | inl e ↦ rw (e, sweep_one) absent
  | inr (s, e) ↦ rw (e, sweep_one) (ground (arith, lookup-delete s.meta.code c h.by_code))
]

pub sweep_each-code :
    (now : Time) (ids : List Uuid) (c : Bytes) (h : Hub)
    → lookup c h.by_code ≡ none
    → lookup c (sweep_each now ids h).by_code ≡ none
unfolding sweep_each
sweep_each-code now [] c h absent = absent
sweep_each-code now (id ∷ ids) c h absent =
    sweep_each-code now ids c _ (sweep_one-code now id c h absent)

-- Ends and closes issue no code.
end_session-code :
    (now : Time) (id : Uuid) (reason c : Bytes) (h : Hub)
    → lookup c h.by_code ≡ none
    → lookup c (end_session now id reason h).by_code ≡ none
unfolding end_session end_locked
end_session-code now id reason c h absent = elim (Option-cases (lookup id h.sessions)) [
  | inl e ↦ rw (e, end_session) absent
  | inr (s, e) ↦ rw (e, end_session) (ground (arith, lookup-delete s.meta.code c h.by_code))
]

close_each-code :
    (now : Time) (ids : List Uuid) (c : Bytes) (h : Hub)
    → lookup c h.by_code ≡ none
    → lookup c (close_each now ids h).by_code ≡ none
unfolding close_each close_one
close_each-code now [] c h absent = absent
close_each-code now (id ∷ ids) c h absent =
    close_each-code now ids c _ (end_session-code now id _ c h absent)

claim_found-code :
    (now : Time) (project : Uuid) (device : LiveDevice) (id : Uuid) (r : Option Session) (c : Bytes)
    (h : Hub)
    → lookup c h.by_code ≡ none
    → lookup c (claim_found now project device id r h).0.by_code ≡ none
unfolding claim_found
claim_found-code now project device id none c h absent = absent
claim_found-code now project device id (some s) c h absent =
    ground (arith, lookup-delete s.meta.code c h.by_code)

claim_swept-code :
    (now : Time) (project : Uuid) (code : Bytes) (device : LiveDevice) (c : Bytes) (h : Hub)
    → lookup c h.by_code ≡ none
    → lookup c (claim_swept now project code device h).0.by_code ≡ none
unfolding claim_swept
claim_swept-code now project code device c h absent =
    elim (Option-cases (lookup (normalise_pairing_code code) h.by_code)) [
      | inl e ↦ rw (e, claim_swept) absent
      | inr (id, e) ↦
          rw (e, claim_swept)
            (claim_found-code now project device id (lookup id h.sessions) c h absent)
    ]

mint_swept-code :
    (now : Time) (id : Uuid) (rands : ℕ → ℕ → Option ℕ) (project by : Uuid) (c : Bytes) (h : Hub)
    → ((m : LiveSession) → (mint_swept now id rands project by h).1 ≡ ok m → m.code ≢ c)
    → lookup c h.by_code ≡ none
    → lookup c (mint_swept now id rands project by h).0.by_code ≡ none
unfolding mint_swept
mint_swept-code now id rands project by c h unminted absent =
    elim (Bool-cases (leb max_sessions_per_project (live_count project h.sessions))) [
      | inl full ↦ rw full absent
      | inr room ↦ elim (Result-cases (draw_code 8 0 rands h.by_code)) [
        | inr (e, failed) ↦ rw (room, failed) absent
        | inl (code, drawn) ↦
            let other : code ≢ c = (rw (room, drawn) at unminted) _ refl in
            rw (room, drawn)
              (lookup-insert code c id h.by_code ∙ elim (Bool-cases (equal code c)) [
                | inl same ↦ absurd (other ((equal_iff code c).0 same))
                | inr differs ↦ rw differs absent
              ])
      ]
    ]

-- No call of the history mints the code.
abbrev pub Spares : Bytes → Call → Hub → Type 0
Spares c (mints now id rands project by) h =
    (m : LiveSession) → (mint now id rands project by h).1 ≡ ok m → m.code ≢ c
Spares c _ h = Unit

abbrev pub NeverMinted : Bytes → List Call → Hub → Type 0
NeverMinted c [] h = Unit
NeverMinted c (k ∷ ks) h = Spares c k h × NeverMinted c ks (step k h)

kept :
    (c : Bytes) {old new : List (Bytes × Uuid)}
    → new ≡ old
    → lookup c old ≡ none
    → lookup c new ≡ none
kept c same absent = rw same absent

step-code :
    (c : Bytes) (k : Call) (h : Hub)
    → Spares c k h
    → lookup c h.by_code ≡ none
    → lookup c (step k h).by_code ≡ none
unfolding step mint claim sweep_locked close_hub
step-code c (mints now id rands project by) h f a =
    mint_swept-code now id rands project by c _ f (sweep_each-code now (ids h) c h a)
step-code c (claims now project code device) h f a =
    claim_swept-code now project code device c _ (sweep_each-code now (ids h) c h a)
step-code c (publishes now id kind logs) h f a = kept c (publish-by_code now id kind logs h) a
step-code c (attaches id conn) h f a = kept c (attach-by_code id conn h) a
step-code c (asks id cmd) h f a = kept c (ask_register-by_code id cmd h) a
step-code c (wakes req wake) h f a = kept c (ask_wake-by_code req wake h) a
step-code c (forgets id req) h f a = kept c (ask_forget-by_code id req h) a
step-code c (delivers now id req payload) h f a = kept c (deliver-by_code now id req payload h) a
step-code c (touches now id) h f a = kept c (touch-by_code now id h) a
step-code c (subscribes id after) h f a = kept c (subscribe-by_code id after h) a
step-code c (unsubscribes id w) h f a = kept c (unsubscribe-by_code id w h) a
step-code c (announces now id count) h f a = kept c (announce-by_code now id count h) a
step-code c (receives w) h f a = a
step-code c (ends now id reason) h f a = end_session-code now id reason c h a
step-code c (sweeps now) h f a = sweep_each-code now (ids h) c h a
step-code c (closes now) h f a = close_each-code now (ids h) c h a

pub run-code :
    (c : Bytes) (ks : List Call) (h : Hub)
    → NeverMinted c ks h
    → lookup c h.by_code ≡ none
    → lookup c (run ks h).by_code ≡ none
unfolding run
run-code c [] h f a = a
run-code c (k ∷ ks) h f a = run-code c ks (step k h) f.1 (step-code c k h f.0 a)
