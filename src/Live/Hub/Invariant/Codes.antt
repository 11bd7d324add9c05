-- ===== src/Live/Hub/Invariant/Codes.antt =====
-- Minting and claiming keep the invariant.
use code_scout.Common.{
  ℕ, ◌≡◌, refl, sym, ◌∙◌, ap, true, false, List, [], ◌∷◌, Option, none, some, Option-cases, arith,
  inl, inr, Bool-cases, Result-cases, Bytes, lookup, insert, lookup-insert, lookup-delete, nat_eq,
  bytes_eq, if◌then◌else◌, ◌==◌, leb, equal, equal_iff,
}
use code_scout.Domain.Pairing.{normalise_pairing_code}
use code_scout.Domain.LiveSession.{Uuid, Time, LiveSessionState, is_waiting, is_ended, LiveDevice}
use code_scout.Live.Session.{Session, max_sessions_per_project}
use code_scout.Live.Hub.{Hub, end_locked, ended_session, sweep_one, sweep_each, sweep_locked, ids}
use code_scout.Live.Hub.Pairing.{
  live_count, draw_code, minted, mint_swept, mint, claimed, claim_found, claim_swept, claim,
}
use code_scout.Live.Hub.Invariant.{Inv}
use code_scout.Live.Hub.Invariant.Update.{Spares-refl, CodesLeft, CodesLeft-delete, put-Inv}
use code_scout.Live.Hub.Invariant.Ending.{sweep_locked-Inv}

-- No code names a session that is not there.
CodesLeft-insert :
    (h : Hub) (id : Uuid) (s' : Session) (code : Bytes)
    → Inv h
    → lookup id h.sessions ≡ none
    → s'.meta.state ≡ LiveSessionState.waiting
    → s'.meta.code ≡ code
    → CodesLeft h (insert code id h.by_code) id s'
CodesLeft-insert h id s' code v absent st cd c k f = elim (Bool-cases (equal code c)) [
  | inl same ↦
      let k_id : id ≡ k = ground (arith, law) in
      (λ n. absurd (n (sym k_id)), λ _. (st, cd ∙ (equal_iff code c).0 same))
  | inr other ↦
      let old : lookup c h.by_code ≡ some k = ground (arith, law) in
      (λ _. old, λ at_id. absurd (nowhere old at_id))
]
  where
    law :
        lookup c (insert code id h.by_code) ≡ (if equal code c then some id else lookup c h.by_code)
    law = lookup-insert code c id h.by_code

    nowhere : lookup c h.by_code ≡ some k → k ≡ id → ⊥
    nowhere old at_id =
        let (t, found, waiting, coded) = v.codes_ok c k old in
        cc (sym found ∙ ap (λ j. lookup j h.sessions) at_id ∙ absent)

mint_swept-Inv :
    (now : Time) (id : Uuid) (rands : ℕ → ℕ → Option ℕ) (project by : Uuid) (h : Hub)
    → lookup id h.sessions ≡ none
    → Inv h
    → Inv (mint_swept now id rands project by h).0
unfolding mint_swept
mint_swept-Inv now id rands project by h absent v =
    elim (Bool-cases (leb max_sessions_per_project (live_count project h.sessions))) [
      | inl full ↦ rw full v
      | inr room ↦ rw room (elim (Result-cases (draw_code 8 0 rands h.by_code)) [
        | inr (e, failed) ↦ rw failed v
        | inl (code, drawn) ↦
            let s = minted now id project by code in
            rw drawn (
              put-Inv h id s v _ _ _ _
                (record {
                  named = refl;
                  watchers_open = tt;
                  watchers_distinct = tt;
                  watchers_bounded = omega arith;
                  watchers_counted = refl;
                  pending_open = tt;
                  pending_distinct = tt;
                  replayable = λ _. record {
                    numbered = tt;
                    complete = refl;
                    bounded = omega arith;
                    filled = inl refl;
                  };
                  ended_idle = λ over. absurd (cc over);
                })
                (Spares-refl id h.events) (Spares-refl id h.replies)
                (CodesLeft-insert h id s code v absent refl refl))
      ])
    ]

-- A sweep makes no session.
sweep_one-absent :
    (now : Time) (id k : Uuid) (h : Hub)
    → lookup k h.sessions ≡ none
    → lookup k (sweep_one now id h).sessions ≡ none
unfolding sweep_one end_locked
sweep_one-absent now id k h absent = elim (Option-cases (lookup id h.sessions)) [
  | inl e ↦ rw (e, sweep_one) absent
  | inr (s, e) ↦
      rw (e, sweep_one)
        (ground (
          arith,
          lookup-insert id k (ended_session now s) h.sessions,
          lookup-delete id k h.sessions,
          ap (λ j. lookup j h.sessions) {x = id} {y = k},
        ))
]

sweep_each-absent :
    (now : Time) (ids : List Uuid) (k : Uuid) (h : Hub)
    → lookup k h.sessions ≡ none
    → lookup k (sweep_each now ids h).sessions ≡ none
unfolding sweep_each
sweep_each-absent now [] k h absent = absent
sweep_each-absent now (id ∷ ids) k h absent =
    sweep_each-absent now ids k _ (sweep_one-absent now id k h absent)

pub mint-Inv :
    (now : Time) (id : Uuid) (rands : ℕ → ℕ → Option ℕ) (project by : Uuid) (h : Hub)
    → lookup id h.sessions ≡ none
    → Inv h
    → Inv (mint now id rands project by h).0
unfolding mint sweep_locked
mint-Inv now id rands project by h absent v =
    mint_swept-Inv now id rands project by (sweep_locked now h)
      (sweep_each-absent now (ids h) id h absent) (sweep_locked-Inv now h v)

claim_found-Inv :
    (now : Time) (project : Uuid) (device : LiveDevice) (id : Uuid) (r : Option Session) (h : Hub)
    → lookup id h.sessions ≡ r
    → Inv h
    → Inv (claim_found now project device id r h).0
unfolding claim_found
claim_found-Inv now project device id none h e v = v
claim_found-Inv now project device id (some s) h e v = elim (Bool-cases (is_waiting s.meta.state)) [
  | inr taken ↦ rw taken v
  | inl free ↦ rw free (elim (Bool-cases (s.meta.project_id == project)) [
    | inr foreign ↦ rw foreign v
    | inl own ↦
        let o = v.sessions_ok id s e in
        rw own (
          put-Inv h id (claimed now device s) v _ _ _ _
            (record {
              named = o.named;
              watchers_open = o.watchers_open;
              watchers_distinct = o.watchers_distinct;
              watchers_bounded = o.watchers_bounded;
              watchers_counted = o.watchers_counted;
              pending_open = o.pending_open;
              pending_distinct = o.pending_distinct;
              replayable = λ _. o.replayable (waiting_lives s.meta.state free);
              ended_idle = λ over. absurd (cc over);
            })
            (Spares-refl id h.events) (Spares-refl id h.replies)
            (CodesLeft-delete h id s (claimed now device s) v e))
  ])
]
  where
    waiting_lives : (st : LiveSessionState) → is_waiting st ≡ true → is_ended st ≡ false
    waiting_lives st free = ground arith

claim_swept-Inv :
    (now : Time) (project : Uuid) (code : Bytes) (device : LiveDevice) (h : Hub)
    → Inv h
    → Inv (claim_swept now project code device h).0
unfolding claim_swept
claim_swept-Inv now project code device h v =
    elim (Option-cases (lookup (normalise_pairing_code code) h.by_code)) [
      | inl e ↦ rw (e, claim_swept) v
      | inr (id, e) ↦
          rw (e, claim_swept)
            (claim_found-Inv now project device id (lookup id h.sessions) h refl v)
    ]

pub claim-Inv :
    (now : Time) (project : Uuid) (code : Bytes) (device : LiveDevice) (h : Hub)
    → Inv h
    → Inv (claim now project code device h).0
unfolding claim
claim-Inv now project code device h v =
    claim_swept-Inv now project code device _ (sweep_locked-Inv now h v)
