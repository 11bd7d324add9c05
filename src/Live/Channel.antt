-- ===== src/Live/Channel.antt =====
-- The Go channels that internal/live/hub.go makes, in a store, so that a session and a subscriber
-- that hold one channel share it. A send on a closed channel and a second close are panics; the
-- store counts them.
pub mod Safety
pub mod Delivery
use code_scout.Common.{
  ℕ, suc, ◌+◌, Bool, true, false, List, [], ◌∷◌, ◌++◌, Option, none, some, if◌then◌else◌, ◌==◌, ltb,
  length,
}

-- `owner` is the session that the channel was made for: the closures over it hold that id too.
pub record Chan {ℓ} (A : Type ℓ) : Type ℓ where
  pub owner : ℕ
  pub buffer : List A
  pub closed : Bool

-- `next` is the channel that the next `make` returns.
pub record Store {ℓ} (A : Type ℓ) : Type ℓ where
  pub chan : ℕ → Chan A
  pub next : ℕ
  pub panics : ℕ

module _ {ℓ} {A : Type ℓ} where
  abbrev pub write : ℕ → Chan A → Store A → Store A
  write w c st = record st { chan = λ j. if w == j then c else st.chan j }

  abbrev pub panic : Store A → Store A
  panic st = record st { panics = suc st.panics }

  -- `make(chan A, n)` for the session `owner`; the size is given at each send.
  abbrev pub make : ℕ → Store A → Store A
  make owner st = record st {
    chan = λ j.
        if st.next == j then record { owner = owner; buffer = []; closed = false } else st.chan j;
    next = suc st.next;
  }

  -- `select { case ch <- x: default: }` on a channel of the given size
  unfoldable pub offer : ℕ → A → ℕ → Store A → Store A
  offer size x w st =
      let c = st.chan w in
      if c.closed
      then panic st
      else if ltb (length c.buffer) size
      then write w (record c { buffer = c.buffer ++ x ∷ [] }) st
      else st

  unfoldable pub close : ℕ → Store A → Store A
  close w st =
      let c = st.chan w in if c.closed then panic st else write w (record c { closed = true }) st

  -- `for _, ev := range events { select … }`
  unfoldable pub offer_each : ℕ → List A → ℕ → Store A → Store A
  offer_each size [] w st = st
  offer_each size (x ∷ xs) w st = offer_each size xs w (offer size x w st)

  -- The same for every watcher of a session.
  unfoldable pub fan_out : ℕ → List A → List ℕ → Store A → Store A
  fan_out size xs [] st = st
  fan_out size xs (w ∷ ws) st = fan_out size xs ws (offer_each size xs w st)

  -- The last value to each channel, which is then closed.
  pub finish_all : ℕ → A → List ℕ → Store A → Store A
  finish_all size x [] st = st
  finish_all size x (w ∷ ws) st = finish_all size x ws (close w (offer size x w st))

  pub close_all : List ℕ → Store A → Store A
  close_all [] st = st
  close_all (w ∷ ws) st = close_all ws (close w st)

  -- A receive that does not wait: the oldest value of the buffer.
  unfoldable pub receive : ℕ → Store A → Option A × Store A
  receive w st = elim (st.chan w).buffer [
    | [] ↦ (none, st)
    | x ∷ rest ↦ (some x, write w (record (st.chan w) { buffer = rest }) st)
  ]
