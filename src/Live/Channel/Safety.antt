-- ===== src/Live/Channel/Safety.antt =====
-- What the loops over channels leave alone, and that they do not panic on open channels.
use code_scout.Common.{
  ℕ, ◌<◌, ◌≡◌, ◌≢◌, refl, sym, ◌∙◌, false, List, [], ◌∷◌, arith, All, All-map, Distinct,
}
use code_scout.Live.Channel.{
  Store, offer, close, offer_each, fan_out, finish_all, close_all, receive, make,
}

module _ {ℓ} {A : Type ℓ} where
  -- Channel `w` is open and was made for session `sid`.
  pub record IsOpen (st : Store A) (sid w : ℕ) : Type 0 where
    pub opened : (st.chan w).closed ≡ false
    pub made_for : (st.chan w).owner ≡ sid
    pub made : w < st.next

  -- No channel was opened, closed or made, and nothing panicked.
  pub record Keeps (st st' : Store A) : Type 0 where
    pub closed_same : (j : ℕ) → (st'.chan j).closed ≡ (st.chan j).closed
    pub owner_same : (j : ℕ) → (st'.chan j).owner ≡ (st.chan j).owner
    pub next_same : st'.next ≡ st.next
    pub panics_same : st'.panics ≡ st.panics

  pub Keeps-refl : (st : Store A) → Keeps st st
  Keeps-refl st = record {
    closed_same = λ j. refl;
    owner_same = λ j. refl;
    next_same = refl;
    panics_same = refl;
  }

  pub Keeps-trans : {s t u : Store A} → Keeps s t → Keeps t u → Keeps s u
  Keeps-trans h k = record {
    closed_same = λ j. k.closed_same j ∙ h.closed_same j;
    owner_same = λ j. k.owner_same j ∙ h.owner_same j;
    next_same = k.next_same ∙ h.next_same;
    panics_same = k.panics_same ∙ h.panics_same;
  }

  pub Keeps-IsOpen : {s t : Store A} {sid w : ℕ} → Keeps s t → IsOpen s sid w → IsOpen t sid w
  Keeps-IsOpen {w} k o = record {
    opened = k.closed_same w ∙ o.opened;
    made_for = k.owner_same w ∙ o.made_for;
    made = omega (arith, k.next_same, o.made);
  }

  pub offer-Keeps :
      (size : ℕ) (x : A) (w : ℕ) (st : Store A)
      → (st.chan w).closed ≡ false
      → Keeps st (offer size x w st)
  unfolding offer
  offer-Keeps size x w st h = record {
    closed_same = λ j. ground arith;
    owner_same = λ j. ground arith;
    next_same = ground arith;
    panics_same = ground arith;
  }

  pub offer_each-Keeps :
      (size : ℕ) (xs : List A) (w : ℕ) (st : Store A)
      → (st.chan w).closed ≡ false
      → Keeps st (offer_each size xs w st)
  unfolding offer_each
  offer_each-Keeps size [] w st h = Keeps-refl st
  offer_each-Keeps size (x ∷ xs) w st h =
      let k = offer-Keeps size x w st h in
      Keeps-trans k (offer_each-Keeps size xs w _ (k.closed_same w ∙ h))

  pub fan_out-Keeps :
      (size : ℕ) (xs : List A) (sid : ℕ) (ws : List ℕ) (st : Store A)
      → All (IsOpen st sid) ws
      → Keeps st (fan_out size xs ws st)
  unfolding fan_out
  fan_out-Keeps size xs sid [] st h = Keeps-refl st
  fan_out-Keeps size xs sid (w ∷ ws) st h =
      let k = offer_each-Keeps size xs w st (h.0).opened in
      Keeps-trans k (fan_out-Keeps size xs sid ws _ (All-map _ _ (λ v o. Keeps-IsOpen k o) ws h.1))

  -- Only the channels of session `sid` may have been closed.
  pub record ClosesOnly (sid : ℕ) (st st' : Store A) : Type 0 where
    pub others_same : (j : ℕ) → (st.chan j).owner ≢ sid → (st'.chan j).closed ≡ (st.chan j).closed
    pub owner_same : (j : ℕ) → (st'.chan j).owner ≡ (st.chan j).owner
    pub next_same : st'.next ≡ st.next
    pub panics_same : st'.panics ≡ st.panics

  pub Keeps-ClosesOnly : {s t : Store A} (sid : ℕ) → Keeps s t → ClosesOnly sid s t
  Keeps-ClosesOnly sid k = record {
    others_same = λ j _. k.closed_same j;
    owner_same = k.owner_same;
    next_same = k.next_same;
    panics_same = k.panics_same;
  }

  pub ClosesOnly-trans :
      {sid : ℕ} {s t u : Store A} → ClosesOnly sid s t → ClosesOnly sid t u → ClosesOnly sid s u
  ClosesOnly-trans h k = record {
    others_same = λ j n. k.others_same j (λ e. n (sym (h.owner_same j) ∙ e)) ∙ h.others_same j n;
    owner_same = λ j. k.owner_same j ∙ h.owner_same j;
    next_same = k.next_same ∙ h.next_same;
    panics_same = k.panics_same ∙ h.panics_same;
  }

  pub ClosesOnly-IsOpen :
      {s t : Store A} {sid other w : ℕ}
      → ClosesOnly sid s t
      → other ≢ sid
      → IsOpen s other w
      → IsOpen t other w
  ClosesOnly-IsOpen {w} k n o = record {
    opened = k.others_same w (λ e. n (sym o.made_for ∙ e)) ∙ o.opened;
    made_for = k.owner_same w ∙ o.made_for;
    made = omega (arith, k.next_same, o.made);
  }

  pub close-ClosesOnly :
      (w sid : ℕ) (st : Store A) → IsOpen st sid w → ClosesOnly sid st (close w st)
  unfolding close
  close-ClosesOnly w sid st o = record {
    others_same = λ j n. ground (arith, o.opened, o.made_for);
    owner_same = λ j. ground arith;
    next_same = ground arith;
    panics_same = ground (arith, o.opened);
  }

  pub close-IsOpen :
      (w v sid : ℕ) (st : Store A)
      → v ≢ w
      → IsOpen st sid w
      → IsOpen st sid v
      → IsOpen (close w st) sid v
  unfolding close
  close-IsOpen w v sid st n o p = record {
    opened = ground (arith, o.opened, p.opened);
    made_for = ground (arith, p.made_for);
    made = ground (arith, p.made);
  }

  All-close :
      (w sid : ℕ) (ws : List ℕ) (st : Store A)
      → IsOpen st sid w
      → All (λ v. v ≢ w) ws
      → All (IsOpen st sid) ws
      → All (IsOpen (close w st) sid) ws
  All-close w sid [] st o n h = tt
  All-close w sid (v ∷ ws) st o n h =
      (close-IsOpen w v sid st n.0 o h.0, All-close w sid ws st o n.1 h.1)

  pub close_all-ClosesOnly :
      (sid : ℕ) (ws : List ℕ) (st : Store A)
      → Distinct ws
      → All (IsOpen st sid) ws
      → ClosesOnly sid st (close_all ws st)
  unfolding close_all
  close_all-ClosesOnly sid [] st d h = Keeps-ClosesOnly sid (Keeps-refl st)
  close_all-ClosesOnly sid (w ∷ ws) st d h =
      ClosesOnly-trans (close-ClosesOnly w sid st h.0)
        (close_all-ClosesOnly sid ws _ d.1 (All-close w sid ws st h.0 d.0 h.1))

  pub finish_all-ClosesOnly :
      (size : ℕ) (x : A) (sid : ℕ) (ws : List ℕ) (st : Store A)
      → Distinct ws
      → All (IsOpen st sid) ws
      → ClosesOnly sid st (finish_all size x ws st)
  unfolding finish_all
  finish_all-ClosesOnly size x sid [] st d h = Keeps-ClosesOnly sid (Keeps-refl st)
  finish_all-ClosesOnly size x sid (w ∷ ws) st d h =
      let k = offer-Keeps size x w st (h.0).opened in
      let o = Keeps-IsOpen k h.0 in
      let rest = All-map _ _ (λ v p. Keeps-IsOpen k p) ws h.1 in
      ClosesOnly-trans (Keeps-ClosesOnly sid k) (
        ClosesOnly-trans (close-ClosesOnly w sid _ o)
          (finish_all-ClosesOnly size x sid ws _ d.1 (All-close w sid ws _ o d.0 rest)))

  pub receive-Keeps : (w : ℕ) (st : Store A) → Keeps st (receive w st).1
  unfolding receive
  receive-Keeps w st = record {
    closed_same = λ j. ground arith;
    owner_same = λ j. ground arith;
    next_same = ground arith;
    panics_same = ground arith;
  }

  -- A channel that is made now is open, and the others are as they were.
  pub make-IsOpen : (sid : ℕ) (st : Store A) → IsOpen (make sid st) sid st.next
  make-IsOpen sid st = record { opened = ground arith; made_for = ground arith; made = omega arith }

  pub IsOpen-make :
      {sid w : ℕ} (owner : ℕ) (st : Store A) → IsOpen st sid w → IsOpen (make owner st) sid w
  IsOpen-make owner st o = record {
    opened = ground (arith, o.opened, o.made);
    made_for = ground (arith, o.made_for, o.made);
    made = omega (arith, o.made);
  }
