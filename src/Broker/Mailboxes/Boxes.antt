-- ===== src/Broker/Mailboxes/Boxes.antt =====
-- The buffers of a list of channels, before and after the channel operations of pkg/sse/broker.go.
use code_scout.Common.{
  ℕ, suc, ◌≡◌, ◌≢◌, refl, sym, ◌∙◌, ap, true, false, not, List, [], ◌∷◌, ◌++◌, map, inl, inr, arith,
  if◌then◌else◌, ◌==◌, ==_iff, length, keep, any, All, All-map, All-both, Distinct, Bool-cases,
}
use code_scout.Live.Channel.{Store, offer_each, close, fan_out, receive}
use code_scout.Live.Channel.Delivery.{offer_self, offer_each_else, fan_out_else}
use code_scout.Broker.{buffer_size}
use code_scout.Broker.Mailboxes.{put, behind, taken_from}

module _ {A : Type 0} where
  abbrev pub box : Store A → ℕ → ℕ × List A
  box st w = (w, (st.chan w).buffer)

  -- Two stores that agree on the buffers of some channels.
  pub map-box :
      (st st' : Store A) (f : ℕ × List A → ℕ × List A) (ws : List ℕ)
      → All (λ w. box st' w ≡ f (box st w)) ws
      → map (box st') ws ≡ map f (map (box st) ws)
  map-box st st' f [] h = refl
  map-box st st' f (w ∷ ws) h = rw (h.0, map-box st st' f ws h.1) refl

  pub map-box_same :
      (st st' : Store A) (ws : List ℕ)
      → All (λ w. st'.chan w ≡ st.chan w) ws
      → map (box st') ws ≡ map (box st) ws
  map-box_same st st' [] h = refl
  map-box_same st st' (w ∷ ws) h = rw (h.0, map-box_same st st' ws h.1) refl

  pub keep-map :
      (st : Store A) (ch : ℕ) (ws : List ℕ)
      → map (box st) (keep (λ w. not (w == ch)) ws) ≡ keep (λ b. not (b.0 == ch)) (map (box st) ws)
  keep-map st ch [] = refl
  keep-map st ch (w ∷ ws) = elim (Bool-cases (w == ch)) [
    | inl e ↦ rw e (keep-map st ch ws)
    | inr e ↦ rw e (ap (λ bs. box st w ∷ bs) (keep-map st ch ws))
  ]

  pub map-append-one :
      (st : Store A) (ws : List ℕ) (w : ℕ)
      → map (box st) (ws ++ w ∷ []) ≡ map (box st) ws ++ box st w ∷ []
  map-append-one st [] w = refl
  map-append-one st (v ∷ ws) w = ap (λ bs. box st v ∷ bs) (map-append-one st ws w)

  pub length-map-box : (st : Store A) (ws : List ℕ) → length (map (box st) ws) ≡ length ws
  length-map-box st [] = refl
  length-map-box st (w ∷ ws) = ap suc (length-map-box st ws)

  close-buffer : (ch w : ℕ) (st : Store A) → ((close ch st).chan w).buffer ≡ (st.chan w).buffer
  unfolding close
  close-buffer ch w st = ground arith

  pub close-box : (ch w : ℕ) (st : Store A) → box (close ch st) w ≡ box st w
  close-box ch w st = ap (λ b. (w, b)) (close-buffer ch w st)

  receive-buffer :
      (ch w : ℕ) (st : Store A) (buffer : List A)
      → (st.chan ch).buffer ≡ buffer
      → ((receive ch st).1.chan w).buffer
        ≡ (if w == ch then behind (st.chan w).buffer else (st.chan w).buffer)
  unfolding receive
  receive-buffer ch w st [] e = elim (Bool-cases (w == ch)) [
    | inl same ↦
        let empty : (st.chan w).buffer ≡ [] =
          ap (λ j. (st.chan j).buffer) ((==_iff w ch).0 same) ∙ e in
        rw (receive, e, same, empty) refl
    | inr other ↦ rw (receive, e, other) refl
  ]
  receive-buffer ch w st (x ∷ rest) e = elim (Bool-cases (w == ch)) [
    | inl same ↦
        let full : (st.chan w).buffer ≡ x ∷ rest =
          ap (λ j. (st.chan j).buffer) ((==_iff w ch).0 same) ∙ e in
        let here : (ch == w) ≡ true = ground (arith, same) in rw (receive, e, same, full, here) refl
    | inr other ↦
        let away : (ch == w) ≡ false = ground (arith, other) in rw (receive, e, other, away) refl
  ]

  pub receive-box : (ch w : ℕ) (st : Store A) → box (receive ch st).1 w ≡ taken_from ch (box st w)
  receive-box ch w st = ap (λ b. (w, b)) (receive-buffer ch w st (st.chan ch).buffer refl)

  -- A batch reaches each of the channels that has room.
  pub fan_out-put :
      (x : A) (ws : List ℕ) (st : Store A)
      → Distinct ws
      → All (λ w. (st.chan w).closed ≡ false) ws
      → All (λ w. box (fan_out buffer_size (x ∷ []) ws st) w ≡ put x (box st w)) ws
  unfolding fan_out offer_each
  fan_out-put x [] st d o = tt
  fan_out-put x (w ∷ ws) st d o =
      let sent = offer_each buffer_size (x ∷ []) w st in
      let same : (v : ℕ) → v ≢ w → sent.chan v ≡ st.chan v =
        λ v n. offer_each_else buffer_size (x ∷ []) w v st (λ e. n (sym e)) in
      (
        ap (λ c. (w, c.buffer)) (fan_out_else buffer_size (x ∷ []) ws w sent d.0)
            ∙ ap (λ b. (w, b)) (offer_self buffer_size x w st o.0),
        All-map _ _ (λ v (n, e). e ∙ ap (λ c. put x (v, c.buffer)) (same v n)) ws
            (All-both _ _ ws d.0 (
              fan_out-put x ws sent d.1 (
                All-map _ _ (λ v (n, c). ap (λ c. c.closed) (same v n) ∙ c) ws
                  (All-both _ _ ws d.0 o.1)))),
      )

pub keep-absent :
    (ch : ℕ) (ws : List ℕ) → any (λ w. w == ch) ws ≡ false → keep (λ w. not (w == ch)) ws ≡ ws
keep-absent ch [] h = refl
keep-absent ch (w ∷ ws) h = elim (Bool-cases (w == ch)) [
  | inl e ↦ let clash : true ≡ false = rw e at h in cc
  | inr e ↦ rw e (ap (λ vs. w ∷ vs) (keep-absent ch ws (rw e at h)))
]
