-- ===== src/Live/Hub/Promises/Quiet.antt =====
-- A connection that only ended sessions of internal/live/hub.go hold, and the calls behind it.
use code_scout.Common.{
  ℕ, ◌≡◌, ◌≢◌, refl, sym, ◌∙◌, ap, subst, true, false, ◌&&◌, List, [], ◌∷◌, ◌++◌, Option, none,
  some, arith, inl, inr, Option-cases, Bool-cases, Bytes, any, ltb, ◌==◌, ◌-◌, lookup, insert,
  delete, lookup-insert, lookup-delete, nat_eq, bytes_eq, some_inj,
}
use code_scout.Domain.LiveSession.{Uuid, Time, LiveEvent, minute, is_ended, expired, idle}
use code_scout.Live.Session.{Session, remember, remember_all}
use code_scout.Live.Hub.{
  Hub, hang_up_on, end_locked, end_session, sweep_one, sweep_each, close_one, close_each, ids,
}

pub remembered :
    (evs : List LiveEvent) (s : Session)
    → ((remember_all evs s).hang_up ≡ s.hang_up) × ((remember_all evs s).meta ≡ s.meta)
unfolding remember_all remember
remembered [] s = (refl, refl)
remembered (ev ∷ evs) s =
    let (up, meta) = remembered evs (remember ev s) in (up ∙ ground arith, meta ∙ ground arith)

any-concat :
    (c d : ℕ) (cs : List ℕ)
    → any (λ x. x == c) cs ≡ false
    → d ≢ c
    → any (λ x. x == c) (cs ++ d ∷ []) ≡ false
any-concat c d [] h n = ground (arith, n)
any-concat c d (x ∷ cs) h n = ground (arith, h, n, any-concat c d cs)

module _ (conn : ℕ) where
  -- Nobody has hung up on the connection, and whichever session has it has ended.
  pub record Quiet (h : Hub) : Type 0 where
    pub not_yet : any (λ c. c == conn) h.hung_up ≡ false
    pub only_ended :
        (id : Uuid) (s : Session)
        → lookup id h.sessions ≡ some s
        → s.hang_up ≡ some conn
        → is_ended s.meta.state ≡ true

  abbrev pub Lies : Session → Type 0
  Lies s = s.hang_up ≡ some conn → is_ended s.meta.state ≡ true

  pub put :
      (h : Hub) (id k : Uuid) (s t : Session)
      → Quiet h
      → Lies s
      → lookup k (insert id s h.sessions) ≡ some t
      → Lies t
  put h id k s t q lies e = elim (Bool-cases (id == k)) [
    | inl same ↦
        let found : some s ≡ some t = rw (lookup-insert id k s h.sessions, same) at e in
        subst Lies (some_inj found) lies
    | inr other ↦ q.only_ended k t (rw (lookup-insert id k s h.sessions, other) at e)
  ]

  hang_up_on-quiet :
      (o : Option ℕ) (cs : List ℕ)
      → o ≢ some conn
      → any (λ c. c == conn) cs ≡ false
      → any (λ c. c == conn) (hang_up_on o cs) ≡ false
  hang_up_on-quiet none cs n h = h
  hang_up_on-quiet (some c) cs n h = any-concat conn c cs h (λ e. n (ap some e))

  end_locked-Quiet :
      (now : Time) (reason : Bytes) (id : Uuid) (s : Session) (h : Hub)
      → lookup id h.sessions ≡ some s
      → is_ended s.meta.state ≡ false
      → Quiet h
      → Quiet (end_locked now reason id s h)
  unfolding end_locked
  end_locked-Quiet now reason id s h e live q = record {
    not_yet =
        hang_up_on-quiet s.hang_up h.hung_up
          (λ same. let clash : true ≡ false = sym (q.only_ended id s e same) ∙ live in cc)
          q.not_yet;
    only_ended = λ k t f. put h id k _ t q (λ same. refl) f;
  }

  pub end_session-Quiet :
      (now : Time) (id : Uuid) (reason : Bytes) (h : Hub)
      → Quiet h
      → Quiet (end_session now id reason h)
  unfolding end_session
  end_session-Quiet now id reason h q = elim (Option-cases (lookup id h.sessions)) [
    | inl e ↦ rw (e, end_session) q
    | inr (s, e) ↦ elim (Bool-cases (is_ended s.meta.state)) [
      | inl over ↦ rw (e, end_session, over) q
      | inr live ↦ rw (e, end_session, live) (end_locked-Quiet now reason id s h e live q)
    ]
  ]

  forget-Quiet :
      (id : Uuid) (h : Hub) → Quiet h → Quiet (record h { sessions = delete id h.sessions })
  forget-Quiet id h q = record {
    not_yet = q.not_yet;
    only_ended = λ k t f. q.only_ended k t (ground (arith, lookup-delete id k h.sessions));
  }

  expired-live :
      (s : Session) (now : Time) → expired s.meta now ≡ true → is_ended s.meta.state ≡ false
  unfolding expired
  expired-live s now h = ground arith

  idle-live : (s : Session) (now : Time) → idle s.meta now ≡ true → is_ended s.meta.state ≡ false
  unfolding idle
  idle-live s now h = ground arith

  sweep_one-Quiet : (now : Time) (id : Uuid) (h : Hub) → Quiet h → Quiet (sweep_one now id h)
  unfolding sweep_one
  sweep_one-Quiet now id h q = elim (Option-cases (lookup id h.sessions)) [
    | inl e ↦ rw (e, sweep_one) q
    | inr (s, e) ↦ elim (Bool-cases (expired s.meta now)) [
      | inl late ↦
          rw (e, sweep_one, late) (end_locked-Quiet now _ id s h e (expired-live s now late) q)
      | inr timely ↦ elim (Bool-cases (idle s.meta now)) [
        | inl quiet ↦
            rw (e, sweep_one, timely, quiet)
              (end_locked-Quiet now _ id s h e (idle-live s now quiet) q)
        | inr heard ↦
            elim (Bool-cases (is_ended s.meta.state && ltb minute (now - s.meta.ended_at))) [
              | inl old ↦ rw (e, sweep_one, timely, heard, old) (forget-Quiet id h q)
              | inr kept ↦ rw (e, sweep_one, timely, heard, kept) q
            ]
      ]
    ]
  ]

  pub sweep_each-Quiet :
      (now : Time) (ids : List Uuid) (h : Hub) → Quiet h → Quiet (sweep_each now ids h)
  unfolding sweep_each
  sweep_each-Quiet now [] h q = q
  sweep_each-Quiet now (id ∷ ids) h q = sweep_each-Quiet now ids _ (sweep_one-Quiet now id h q)

  pub close_each-Quiet :
      (now : Time) (ids : List Uuid) (h : Hub) → Quiet h → Quiet (close_each now ids h)
  unfolding close_each close_one
  close_each-Quiet now [] h q = q
  close_each-Quiet now (id ∷ ids) h q = close_each-Quiet now ids _ (end_session-Quiet now id _ h q)
