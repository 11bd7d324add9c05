-- ===== src/Live/Hub/Promises/Codes.antt =====
-- Pairing codes from the mint to the claim, in internal/live/hub.go.
use code_scout.Common.{
  ℕ, suc, ◌+◌, ◌≤◌, ◌<◌, ◌≡◌, refl, sym, ◌∙◌, ap, false, List, [], ◌∷◌, Option, none, some, zero,
  Option-cases, arith, inl, inr, Bool-cases, leb, Bytes, lookup, insert, delete, lookup-insert,
  lookup-delete, nat_eq, bytes_eq, Result, ok, err, equal_refl, some_inj, Result-cases,
}
use code_scout.Domain.Pairing.{normalise_pairing_code}
use code_scout.Domain.LiveSession.{Uuid, Time, LiveSession, LiveSessionState, LiveDevice, is_ended}
use code_scout.Live.Session.{Session, max_sessions_per_project}
use code_scout.Live.Hub.{Hub, HubError, no_such_code, end_locked, end_session, sweep_locked, ids}
use code_scout.Live.Hub.Pairing.{
  live_count, draw_code, try_code, minted, mint_swept, mint, claimed, claim_found, claim_swept,
  claim,
}
use code_scout.Live.Hub.Steps.{Call, run}
use code_scout.Live.Hub.Promises.Absence.{sweep_each-code, NeverMinted, run-code}
use code_scout.Live.Hub.Invariant.{Inv}
use code_scout.Live.Hub.Invariant.Ending.{sweep_locked-Inv}

claim_unknown :
    (now : Time) (project : Uuid) (code : Bytes) (device : LiveDevice) (h : Hub)
    → lookup (normalise_pairing_code code) h.by_code ≡ none
    → (claim now project code device h).1 ≡ err no_such_code
unfolding claim claim_swept sweep_locked
claim_unknown now project code device h absent =
    rw (sweep_each-code now (ids h) (normalise_pairing_code code) h absent, claim_swept)

claim_found_ok :
    (now : Time) (project : Uuid) (device : LiveDevice) (id : Uuid) (r : Option Session) (h : Hub)
    (m : LiveSession)
    → (claim_found now project device id r h).1 ≡ ok m
    → (s : Session) × (r ≡ some s)
      × (s.meta.project_id ≡ project)
      × (m ≡ (claimed now device s).meta)
      × ((claim_found now project device id r h).0.by_code ≡ delete s.meta.code h.by_code)
unfolding claim_found
claim_found_ok now project device id none h m r = absurd (cc r)
claim_found_ok now project device id (some s) h m r =
    (s, refl, ground arith, ground arith, ground arith)

claim_swept_ok :
    (now : Time) (project : Uuid) (code : Bytes) (device : LiveDevice) (h : Hub) (m : LiveSession)
    → Inv h
    → (claim_swept now project code device h).1 ≡ ok m
    → (m.project_id ≡ project)
      × (m.state ≡ LiveSessionState.connected)
      × (m.device ≡ device)
      × (lookup (normalise_pairing_code code) (claim_swept now project code device h).0.by_code
          ≡ none)
unfolding claim_swept
claim_swept_ok now project code device h m v r =
    elim (Option-cases (lookup (normalise_pairing_code code) h.by_code)) [
      | inl e ↦ absurd (cc (rw (e, claim_swept) at r))
      | inr (id, e) ↦
          let r' = rw (e, claim_swept) at r in
          let (s, found, owned, meta, codes) =
            claim_found_ok now project device id (lookup id h.sessions) h m r' in
          let (t, found', waits, coded) = v.codes_ok (normalise_pairing_code code) id e in
          let t_eq : t ≡ s = some_inj (sym found' ∙ found) in
          let coded' : s.meta.code ≡ normalise_pairing_code code =
            ap (λ x. x.meta.code) (sym t_eq) ∙ coded in
          (
            ap (λ x. x.project_id) meta ∙ owned,
            ap (λ x. x.state) meta,
            ap (λ x. x.device) meta,
            rw (e, claim_swept)
                (rw codes (
                  lookup-delete s.meta.code (normalise_pairing_code code) h.by_code
                  ∙ rw (coded', equal_refl))),
          )
    ]

-- A claim that succeeds pairs the device with a session of its own project, and takes the code out
-- of circulation: whatever calls come behind it, in any order, as long as none of them mints the code
-- again, a second claim of it, however it is typed and for whatever project, is refused.
pub claim_once :
    (now later : Time) (project project' : Uuid) (code code' : Bytes) (device device' : LiveDevice)
    (h : Hub) (m : LiveSession) (cs : List Call)
    → Inv h
    → (claim now project code device h).1 ≡ ok m
    → NeverMinted (normalise_pairing_code code) cs (claim now project code device h).0
    → normalise_pairing_code code' ≡ normalise_pairing_code code
    → (m.project_id ≡ project)
      × (m.state ≡ LiveSessionState.connected)
      × (m.device ≡ device)
      × ((claim later project' code' device' (run cs (claim now project code device h).0)).1
          ≡ err no_such_code)
unfolding claim
claim_once now later project project' code code' device device' h m cs v r unminted same =
    let (owned, state, dev, gone) =
      claim_swept_ok now project code device (sweep_locked now h) m (sweep_locked-Inv now h v) r in
    let still = run-code (normalise_pairing_code code) cs _ unminted gone in
    (
      owned,
      state,
      dev,
      claim_unknown later project' code' device' (run cs (claim now project code device h).0)
          (rw same still),
    )

try_code_free :
    (r : Option Bytes) (by_code : List (Bytes × Uuid)) (again : Result HubError Bytes) (c : Bytes)
    → (again ≡ ok c → lookup c by_code ≡ none)
    → try_code r by_code again ≡ ok c
    → lookup c by_code ≡ none
unfolding try_code
try_code_free none by_code again c ih e = absurd (cc e)
try_code_free (some d) by_code again c ih e = elim (Option-cases (lookup d by_code)) [
  | inl free ↦ let same : d ≡ c = ground (arith, free) in rw (← same) free
  | inr (id, taken) ↦ ih (ground (arith, taken))
]

draw_code_free :
    (left attempt : ℕ) (rands : ℕ → ℕ → Option ℕ) (by_code : List (Bytes × Uuid)) (c : Bytes)
    → draw_code left attempt rands by_code ≡ ok c
    → lookup c by_code ≡ none
unfolding draw_code
draw_code_free zero attempt rands by_code c e = try_code_free _ by_code _ c (λ f. absurd (cc f)) e
draw_code_free (suc left) attempt rands by_code c e =
    try_code_free _ by_code _ c (draw_code_free left (attempt + 1) rands by_code c) e

live_count-insert :
    (project id : Uuid) (s : Session) (ss : List (Uuid × Session))
    → live_count project (insert id s ss) ≤ suc (live_count project ss)
unfolding insert
live_count-insert project id s [] = ground arith
live_count-insert project id s ((k, t) ∷ ss) = ground (arith, live_count-insert project id s ss)

mint_swept_ok :
    (now : Time) (id : Uuid) (rands : ℕ → ℕ → Option ℕ) (project by : Uuid) (h : Hub)
    (m : LiveSession)
    → (mint_swept now id rands project by h).1 ≡ ok m
    → (m ≡ (minted now id project by m.code).meta)
      × (lookup m.code h.by_code ≡ none)
      × (lookup m.code (mint_swept now id rands project by h).0.by_code ≡ some id)
      × (live_count project (mint_swept now id rands project by h).0.sessions
          ≤ max_sessions_per_project)
unfolding mint_swept
mint_swept_ok now id rands project by h m r =
    elim (Bool-cases (leb max_sessions_per_project (live_count project h.sessions))) [
      | inl full ↦ absurd (ground arith)
      | inr room ↦ elim (Result-cases (draw_code 8 0 rands h.by_code)) [
        | inr (e, failed) ↦ absurd (ground (arith, failed))
        | inl (code, drawn) ↦
            let meta : m ≡ (minted now id project by code).meta = ground (arith, drawn) in
            let coded : m.code ≡ code = ap (λ x. x.code) meta in
            let s = minted now id project by code in
            let room_left : live_count project h.sessions < max_sessions_per_project =
              ground arith in
            (
              meta ∙ ap (λ c. (minted now id project by c).meta) (sym coded),
              rw coded (draw_code_free 8 0 rands h.by_code code drawn),
              rw coded (rw (room, drawn) (lookup-insert code code id h.by_code ∙ rw equal_refl)),
              rw (room, drawn)
                  (omega (arith, live_count-insert project id s h.sessions, room_left)),
            )
      ]
    ]

-- A mint that succeeds returns a waiting session of the project, five minutes from its end, under a
-- code that no session in the index had; the index names the new session under this code, and the
-- project has at most 20 sessions that have not ended.
pub mint_ok :
    (now : Time) (id : Uuid) (rands : ℕ → ℕ → Option ℕ) (project by : Uuid) (h : Hub)
    (m : LiveSession)
    → (mint now id rands project by h).1 ≡ ok m
    → (m ≡ (minted now id project by m.code).meta)
      × (lookup m.code (sweep_locked now h).by_code ≡ none)
      × (lookup m.code (mint now id rands project by h).0.by_code ≡ some id)
      × (live_count project (mint now id rands project by h).0.sessions ≤ max_sessions_per_project)
unfolding mint
mint_ok now id rands project by h m r =
    mint_swept_ok now id rands project by (sweep_locked now h) m r

-- Ending a session withdraws the code that it was minted with, whichever session the index names
-- under it: where another session waits under this code by then, no device can claim that one.
pub end_withdraws_code :
    (now later : Time) (id other project : Uuid) (reason code : Bytes) (device : LiveDevice)
    (h : Hub) (s : Session)
    → lookup id h.sessions ≡ some s
    → is_ended s.meta.state ≡ false
    → lookup s.meta.code h.by_code ≡ some other
    → normalise_pairing_code code ≡ s.meta.code
    → (claim later project code device (end_session now id reason h)).1 ≡ err no_such_code
unfolding end_session end_locked
end_withdraws_code now later id other project reason code device h s e live index typed =
    claim_unknown later project code device (end_session now id reason h) (
      rw (typed, e, end_session, live)
        (lookup-delete s.meta.code s.meta.code h.by_code ∙ rw equal_refl))
