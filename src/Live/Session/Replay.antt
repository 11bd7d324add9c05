-- ===== src/Live/Session/Replay.antt =====
-- The replay ring of a session of internal/live/hub.go.
use code_scout.Common.{
  ℕ, zero, suc, ◌+◌, ◌-◌, ◌≤◌, ◌<◌, ◌≡◌, refl, sym, subst, List, [], ◌∷◌, ◌++◌, arith, length, drop,
  length-append, length-drop-add, ltb, leb, ltb→lt, Bool-cases, ◌⊎◌, inl, inr,
}
use code_scout.Domain.LiveSession.{LiveEvent}
use code_scout.Live.Session.{
  Session, recent_buffer, remember, remember_all, newer, missed_before, since,
}

-- The events carry the numbers `n + 1`, `n + 2`, … in order.
abbrev pub Numbered : ℕ → List LiveEvent → Type 0
Numbered n [] = Unit
Numbered n (ev ∷ evs) = (ev.seq ≡ suc n) × Numbered (suc n) evs

-- The ring holds every event after the `dropped` ones, up to number `last`.
pub record IsRing (dropped : ℕ) (recent : List LiveEvent) (last : ℕ) : Type 0 where
  pub numbered : Numbered dropped recent
  pub complete : dropped + length recent ≡ last
  pub bounded : length recent ≤ recent_buffer
  pub filled : (dropped ≡ 0) ⊎ (length recent ≡ recent_buffer)

abbrev pub HasRing : Session → ℕ → Type 0
HasRing s = IsRing s.dropped s.recent

Numbered-append :
    (n : ℕ) (evs : List LiveEvent) (ev : LiveEvent)
    → Numbered n evs
    → ev.seq ≡ suc (n + length evs)
    → Numbered n (evs ++ ev ∷ [])
Numbered-append n [] ev h e = (omega arith, tt)
Numbered-append n (x ∷ evs) ev h e = (h.0, Numbered-append (suc n) evs ev h.1 (omega arith))

Numbered-drop :
    (k n : ℕ) (evs : List LiveEvent)
    → k ≤ length evs
    → Numbered n evs
    → Numbered (n + k) (drop k evs)
Numbered-drop zero n evs b h = subst (λ m. Numbered m evs) (omega arith) h
Numbered-drop (suc k) n [] b h = absurd (omega arith)
Numbered-drop (suc k) n (x ∷ evs) b h =
    subst (λ m. Numbered m (drop k evs)) (omega arith)
      (Numbered-drop k (suc n) evs (omega arith) h.1)

-- Remembering the next event keeps the ring complete and within its size.
pub remember-IsRing :
    (s : Session) (ev : LiveEvent) (last : ℕ)
    → HasRing s last
    → ev.seq ≡ suc last
    → HasRing (remember ev s) (suc last)
unfolding remember
remember-IsRing s ev last r e =
    let grown : length (s.recent ++ ev ∷ []) ≡ length s.recent + 1 =
      length-append s.recent (ev ∷ []) in
    let over = length (s.recent ++ ev ∷ []) - recent_buffer in
    let all = Numbered-append s.dropped s.recent ev r.numbered (omega (arith, r.complete, e)) in
    let kept : recent_buffer < length (s.recent ++ ev ∷ [])
        → length (drop over (s.recent ++ ev ∷ [])) ≡ recent_buffer =
      λ h. omega (arith, length-drop-add over (s.recent ++ ev ∷ []) (omega arith)) in
    elim (Bool-cases (ltb recent_buffer (length (s.recent ++ ev ∷ [])))) [
      | inl full ↦ rw full (record {
        numbered = Numbered-drop over s.dropped _ (omega (arith, grown)) all;
        complete =
            omega
              (arith, grown, r.complete, length-drop-add over (s.recent ++ ev ∷ []) (omega arith));
        bounded =
            omega
              (arith, grown, r.bounded, length-drop-add over (s.recent ++ ev ∷ []) (omega arith));
        filled = inr (kept (ltb→lt _ _ full));
      })
      | inr room ↦ rw room (record {
        numbered = all;
        complete = omega (arith, grown, r.complete);
        bounded = ground (arith, grown, r.bounded);
        filled = ground (arith, grown, r.filled);
      })
    ]

pub remember_all-IsRing :
    (evs : List LiveEvent) (s : Session) (last : ℕ)
    → HasRing s last
    → Numbered last evs
    → HasRing (remember_all evs s) (last + length evs)
unfolding remember_all
remember_all-IsRing [] s last r n = subst (HasRing s) (omega arith) r
remember_all-IsRing (ev ∷ evs) s last r n =
    subst (HasRing (remember_all evs (remember ev s))) (omega arith)
      (remember_all-IsRing evs (remember ev s) (suc last) (remember-IsRing s ev last r n.0) n.1)

newer_all :
    (after n : ℕ) (evs : List LiveEvent) → after ≤ n → Numbered n evs → newer after evs ≡ evs
newer_all after n [] h k = refl
newer_all after n (x ∷ evs) h k = ground (arith, newer_all after (suc n) evs)

-- Past the ring's start the backlog is the ring's end, from the first number not seen.
newer_suffix :
    (after n : ℕ) (evs : List LiveEvent)
    → n ≤ after
    → after ≤ n + length evs
    → Numbered n evs
    → Numbered after (newer after evs) × (after + length (newer after evs) ≡ n + length evs)
newer_suffix after n [] h b k = (tt, omega arith)
newer_suffix after n (x ∷ evs) h b k = elim (Bool-cases (ltb after x.seq)) [
  | inl first ↦
      let e : after ≡ n = ground arith in
      let whole = newer_all after n (x ∷ evs) (omega arith) k in
      rw whole (subst (λ m. Numbered m (x ∷ evs)) (sym e) k, omega arith)
  | inr later ↦
      rw later (ground (arith, newer_suffix after (suc n) evs (ground arith) (omega arith) k.1))
]

since_ring :
    (recent : List LiveEvent) (dropped last after : ℕ)
    → Numbered dropped recent
    → dropped + length recent ≡ last
    → (dropped ≡ 0) ⊎ (length recent ≡ recent_buffer)
    → after ≤ last
    → Numbered (after + missed_before after recent) (newer after recent)
      × (missed_before after recent + length (newer after recent) ≡ last - after)
unfolding missed_before
since_ring [] d last after k c f h = (tt, ground arith)
since_ring (x ∷ evs) d last after k c f h = elim (Bool-cases (ltb (after + 1) x.seq)) [
  | inl lost ↦
      let gap : after + (x.seq - after - 1) ≡ d = ground arith in
      rw (lost, newer_all after d (x ∷ evs) (ground arith) k, gap) (k, ground arith)
  | inr held ↦
      let (behind, count) = newer_suffix after d (x ∷ evs) (ground arith) (omega arith) k in
      rw held (subst (λ m. Numbered m (newer after (x ∷ evs))) (omega arith) behind, omega arith)
]

-- Every event up to the session's last is accounted for: a watcher that saw the events up to
-- `after` is told how many are lost, and given all those behind them, in order and with no hole.
pub since_accounts :
    (s : Session) (last after : ℕ)
    → HasRing s last
    → 0 < after
    → after ≤ last
    → Numbered (after + (since s after).1) (since s after).0
      × ((since s after).1 + length (since s after).0 ≡ last - after)
unfolding since
since_accounts s last after r p h = elim (Bool-cases (leb after 0)) [
  | inl none_seen ↦ absurd (ground arith)
  | inr some_seen ↦
      rw some_seen (since_ring s.recent s.dropped last after r.numbered r.complete r.filled h)
]
