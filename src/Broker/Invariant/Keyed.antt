-- ===== src/Broker/Invariant/Keyed.antt =====
-- Properties of all entries of a map from projects.
use code_scout.Common.{
  ◌≡◌, ◌≢◌, sym, subst, false, List, [], ◌∷◌, some, inl, inr, arith, ◌==◌, ==_iff, All, lookup,
  insert, delete, Bool-cases, some_inj, nat_eq,
}
use code_scout.Domain.LiveSession.{Uuid}

pub apart : (k key : Uuid) → (k == key) ≡ false → k ≢ key
apart k key h = ground arith

module _ {V : Type 0} where
  -- Every entry has the property, and no key occurs twice.
  abbrev pub Entries : (Uuid → V → Type 0) → List (Uuid × V) → Type 0
  Entries P [] = Unit
  Entries P ((k, v) ∷ m) = P k v × (All (λ e. e.0 ≢ k) m × Entries P m)

  pub Entries-map :
      (P Q : Uuid → V → Type 0)
      → ((k : Uuid) (v : V) → P k v → Q k v)
      → (m : List (Uuid × V)) → Entries P m
      → Entries Q m
  Entries-map P Q f [] h = tt
  Entries-map P Q f ((k, v) ∷ m) (p, (n, h)) = (f k v p, (n, Entries-map P Q f m h))

  pub Entries-lookup :
      (P : Uuid → V → Type 0) (key : Uuid) (v : V) (m : List (Uuid × V))
      → Entries P m
      → lookup key m ≡ some v
      → P key v
  unfolding lookup
  Entries-lookup P key v [] h e = cc
  Entries-lookup P key v ((k, w) ∷ m) (p, (n, h)) e = elim (Bool-cases (k == key)) [
    | inl same ↦
        let found : w ≡ v = some_inj (rw same at e) in
        subst (λ j. P j v) ((==_iff k key).0 same) (subst (P k) found p)
    | inr other ↦ Entries-lookup P key v m h (rw other at e)
  ]

  insert-keys :
      (k key : Uuid) (v : V) (m : List (Uuid × V))
      → key ≢ k
      → All (λ e. e.0 ≢ k) m
      → All (λ e. e.0 ≢ k) (insert key v m)
  unfolding insert
  insert-keys k key v [] n h = (n, tt)
  insert-keys k key v ((j, w) ∷ m) n h = elim (Bool-cases (j == key)) [
    | inl same ↦ rw same (n, h.1)
    | inr other ↦ rw other (h.0, insert-keys k key v m n h.1)
  ]

  -- All entries but that of a key have the property.
  abbrev pub Others : (Uuid → V → Type 0) → Uuid → Uuid → V → Type 0
  Others P key k v = k ≢ key → P k v

  Others-All :
      (P : Uuid → V → Type 0) (key : Uuid) (m : List (Uuid × V))
      → Entries (Others P key) m
      → All (λ e. e.0 ≢ key) m
      → Entries P m
  Others-All P key [] h n = tt
  Others-All P key ((k, v) ∷ m) (p, (k_new, h)) n = (p n.0, (k_new, Others-All P key m h n.1))

  pub Entries-insert :
      (P : Uuid → V → Type 0) (key : Uuid) (v : V) (m : List (Uuid × V))
      → Entries (Others P key) m
      → P key v
      → Entries P (insert key v m)
  unfolding insert
  Entries-insert P key v [] h p = (p, (tt, tt))
  Entries-insert P key v ((k, w) ∷ m) (q, (n, h)) p = elim (Bool-cases (k == key)) [
    | inl same ↦
        let new = subst (λ j. All (λ e. e.0 ≢ j) m) ((==_iff k key).0 same) n in
        rw same (p, (new, Others-All P key m h new))
    | inr other ↦
        let k_apart = apart k key other in
        rw other (
          q k_apart,
          (insert-keys k key v m (λ e. k_apart (sym e)) n, Entries-insert P key v m h p),
        )
  ]

  delete-keys :
      (k key : Uuid) (m : List (Uuid × V))
      → All (λ e. e.0 ≢ k) m
      → All (λ e. e.0 ≢ k) (delete key m)
  unfolding delete
  delete-keys k key [] h = tt
  delete-keys k key ((j, w) ∷ m) h = elim (Bool-cases (j == key)) [
    | inl same ↦ rw same (delete-keys k key m h.1)
    | inr other ↦ rw other (h.0, delete-keys k key m h.1)
  ]

  pub Entries-delete :
      (P : Uuid → V → Type 0) (key : Uuid) (m : List (Uuid × V))
      → Entries (Others P key) m
      → Entries P (delete key m)
  unfolding delete
  Entries-delete P key [] h = tt
  Entries-delete P key ((k, w) ∷ m) (q, (n, h)) = elim (Bool-cases (k == key)) [
    | inl same ↦ rw same (Entries-delete P key m h)
    | inr other ↦
        rw other (q (apart k key other), (delete-keys k key m n, Entries-delete P key m h))
  ]
