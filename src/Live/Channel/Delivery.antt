-- ===== src/Live/Channel/Delivery.antt =====
-- What the loops over channels deliver.
use code_scout.Common.{
  ℕ, ◌+◌, ◌≤◌, ◌≡◌, ◌≢◌, refl, sym, ◌∙◌, ap, true, false, List, [], ◌∷◌, ◌++◌, arith, All, All-map,
  All-both, Distinct, length, length-append, ltb, if◌then◌else◌, append-nil, append_assoc,
}
use code_scout.Live.Channel.{Store, offer, close, offer_each, fan_out, finish_all, close_all}

module _ {ℓ} {A : Type ℓ} where
  offer_else :
      (size : ℕ) (x : A) (w j : ℕ) (st : Store A) → w ≢ j → (offer size x w st).chan j ≡ st.chan j
  unfolding offer
  offer_else size x w j st n = ground arith

  close_else : (w j : ℕ) (st : Store A) → w ≢ j → (close w st).chan j ≡ st.chan j
  unfolding close
  close_else w j st n = ground arith

  pub offer_each_else :
      (size : ℕ) (xs : List A) (w j : ℕ) (st : Store A)
      → w ≢ j
      → (offer_each size xs w st).chan j ≡ st.chan j
  unfolding offer_each
  offer_each_else size [] w j st n = refl
  offer_each_else size (x ∷ xs) w j st n =
      offer_each_else size xs w j _ n ∙ offer_else size x w j st n

  pub fan_out_else :
      (size : ℕ) (xs : List A) (ws : List ℕ) (j : ℕ) (st : Store A)
      → All (λ w. w ≢ j) ws
      → (fan_out size xs ws st).chan j ≡ st.chan j
  unfolding fan_out
  fan_out_else size xs [] j st n = refl
  fan_out_else size xs (w ∷ ws) j st n =
      fan_out_else size xs ws j _ n.1 ∙ offer_each_else size xs w j st n.0

  pub finish_all_else :
      (size : ℕ) (x : A) (ws : List ℕ) (j : ℕ) (st : Store A)
      → All (λ w. w ≢ j) ws
      → (finish_all size x ws st).chan j ≡ st.chan j
  unfolding finish_all
  finish_all_else size x [] j st n = refl
  finish_all_else size x (w ∷ ws) j st n =
      finish_all_else size x ws j _ n.1 ∙ close_else w j _ n.0 ∙ offer_else size x w j st n.0

  pub close_all_else :
      (ws : List ℕ) (j : ℕ) (st : Store A)
      → All (λ w. w ≢ j) ws
      → (close_all ws st).chan j ≡ st.chan j
  unfolding close_all
  close_all_else [] j st n = refl
  close_all_else (w ∷ ws) j st n = close_all_else ws j _ n.1 ∙ close_else w j st n.0

  -- A buffer with the last value behind it, if there was room.
  abbrev pub with_last : ℕ → A → List A → List A
  with_last size x xs = if ltb (length xs) size then xs ++ x ∷ [] else xs

  pub offer_self :
      (size : ℕ) (x : A) (w : ℕ) (st : Store A)
      → (st.chan w).closed ≡ false
      → ((offer size x w st).chan w).buffer ≡ with_last size x (st.chan w).buffer
  unfolding offer
  offer_self size x w st o = ground arith

  offer_closed :
      (size : ℕ) (x : A) (w : ℕ) (st : Store A)
      → ((offer size x w st).chan w).closed ≡ (st.chan w).closed
  unfolding offer
  offer_closed size x w st = ground arith

  pub close_self :
      (w : ℕ) (st : Store A)
      → (((close w st).chan w).closed ≡ true) × (((close w st).chan w).buffer ≡ (st.chan w).buffer)
  unfolding close
  close_self w st = ground arith

  -- With room for all of them the events stand at the end of the buffer, in order.
  pub offer_each_room :
      (size : ℕ) (xs : List A) (w : ℕ) (st : Store A)
      → (st.chan w).closed ≡ false
      → length (st.chan w).buffer + length xs ≤ size
      → ((offer_each size xs w st).chan w).buffer ≡ (st.chan w).buffer ++ xs
  unfolding offer_each
  offer_each_room size [] w st o room = sym (append-nil _)
  offer_each_room size (x ∷ xs) w st o room =
      let first : ((offer size x w st).chan w).buffer ≡ (st.chan w).buffer ++ x ∷ [] =
        ground (arith, offer_self size x w st o) in
      let grown = length-append (st.chan w).buffer (x ∷ []) in
      offer_each_room size xs w _ (offer_closed size x w st ∙ o)
        (omega (arith, room, grown, ap length first))
      ∙ rw (first, append_assoc)

  -- Every watcher with room gets all the events, whatever the others' buffers hold.
  pub fan_out_room :
      (size : ℕ) (xs : List A) (ws : List ℕ) (st : Store A)
      → Distinct ws
      → All (λ w. (st.chan w).closed ≡ false) ws
      → All
          (λ w.
            length (st.chan w).buffer + length xs ≤ size
            → ((fan_out size xs ws st).chan w).buffer ≡ (st.chan w).buffer ++ xs)
          ws
  unfolding fan_out
  fan_out_room size xs [] st d o = tt
  fan_out_room size xs (w ∷ ws) st d o = (
    λ room.
        ap (λ c. c.buffer) (fan_out_else size xs ws w _ (All-map _ _ (λ v n. n) ws d.0))
        ∙ offer_each_room size xs w st o.0 room,
    All-map _ _
        (λ v (n, k) room.
          let same = offer_each_else size xs w v st (λ e. n (sym e)) in k (rw same room) ∙ rw same)
        ws (All-both _ _ ws d.0 (fan_out_room size xs ws _ d.1 (kept ws d.0 o.1))),
  )
    where
      kept :
          (vs : List ℕ)
          → All (λ v. v ≢ w) vs
          → All (λ v. (st.chan v).closed ≡ false) vs
          → All (λ v. ((offer_each size xs w st).chan v).closed ≡ false) vs
      kept [] n k = tt
      kept (v ∷ vs) n k = (
        ap (λ c. c.closed) (offer_each_else size xs w v st (λ e. n.0 (sym e))) ∙ k.0,
        kept vs n.1 k.1,
      )

  -- Every channel gets the last value, if it has room, and is closed.
  pub finish_all_each :
      (size : ℕ) (x : A) (ws : List ℕ) (st : Store A)
      → Distinct ws
      → All (λ w. (st.chan w).closed ≡ false) ws
      → All
          (λ w.
            (((finish_all size x ws st).chan w).closed ≡ true)
            × (((finish_all size x ws st).chan w).buffer ≡ with_last size x (st.chan w).buffer))
          ws
  unfolding finish_all
  finish_all_each size x [] st d o = tt
  finish_all_each size x (w ∷ ws) st d o =
      let sent = offer size x w st in
      let behind = finish_all_else size x ws w (close w sent) d.0 in
      let shut = close_self w sent in
      (
        (
          ap (λ c. c.closed) behind ∙ shut.0,
          ap (λ c. c.buffer) behind ∙ shut.1 ∙ offer_self size x w st o.0,
        ),
        All-map _ _
            (λ v (n, k).
              let same : (close w sent).chan v ≡ st.chan v =
                close_else w v sent (λ e. n (sym e)) ∙ offer_else size x w v st (λ e. n (sym e)) in
              (k.0, k.1 ∙ ap (λ c. with_last size x c.buffer) same))
            ws
            (All-both _ _ ws d.0 (
              finish_all_each size x ws (close w sent) d.1 (
                All-map _ _
                  (λ v (n, k).
                    ap (λ c. c.closed)
                      (close_else w v sent (λ e. n (sym e))
                        ∙ offer_else size x w v st (λ e. n (sym e)))
                    ∙ k)
                  ws (All-both _ _ ws d.0 o.1)))),
      )

  pub close_all_each :
      (ws : List ℕ) (st : Store A)
      → Distinct ws
      → All (λ w. ((close_all ws st).chan w).closed ≡ true) ws
  unfolding close_all
  close_all_each [] st d = tt
  close_all_each (w ∷ ws) st d = (
    ap (λ c. c.closed) (close_all_else ws w (close w st) d.0) ∙ (close_self w st).0,
    close_all_each ws (close w st) d.1,
  )
