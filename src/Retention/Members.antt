-- ===== src/Retention/Members.antt =====
-- Rows that are in a table, and the statements of internal/adapters/db that leave them there.
use code_scout.Common.{
  ℕ, zero, suc, ◌≡◌, Bool, true, false, List, [], ◌∷◌, map, inl, inr, keep, All, Bool-cases,
  Option-cases, ltb,
}
use code_scout.Storage.{Rows, Storage, run_on, statement}
use code_scout.Retention.{remove_some}
use code_scout.Retention.Cleanup.{reap, orphan_batch_size}

pub data Has {ℓ} {A : Type ℓ} (x : A) : List A → Type ℓ where
  here : (xs : List A) → Has x (x ∷ xs)
  there : (y : A) (xs : List A) → Has x xs → Has x (y ∷ xs)

module _ {A : Type 0} where
  pub Has-keep : (p : A → Bool) (x : A) (xs : List A) → p x ≡ true → Has x xs → Has x (keep p xs)
  Has-keep p x _ e (here xs) = rw e (here (keep p xs))
  Has-keep p x _ e (there y xs h) = elim (Bool-cases (p y)) [
    | inl k ↦ rw k (there y (keep p xs) (Has-keep p x xs e h))
    | inr k ↦ rw k (Has-keep p x xs e h)
  ]

  pub Has-map : (f : A → A) (x : A) (xs : List A) → f x ≡ x → Has x xs → Has x (map f xs)
  Has-map f x _ e (here xs) = rw e (here (map f xs))
  Has-map f x _ e (there y xs h) = there (f y) (map f xs) (Has-map f x xs e h)

  pub Has-remove_some :
      (p : A → Bool) (x : A) (n : ℕ) (xs : List A)
      → p x ≡ false
      → Has x xs
      → Has x (remove_some p n xs).1
  unfolding remove_some
  Has-remove_some p x zero xs e h = h
  Has-remove_some p x (suc n) _ e (here xs) =
      rw (remove_some, e) (here (remove_some p (suc n) xs).1)
  Has-remove_some p x (suc n) _ e (there y xs h) = elim (Bool-cases (p y)) [
    | inl k ↦ rw (remove_some, k) (Has-remove_some p x n xs e h)
    | inr k ↦
        rw (remove_some, k)
          (there y (remove_some p (suc n) xs).1 (Has-remove_some p x (suc n) xs e h))
  ]

  pub All-Has : (P : A → Type 0) (x : A) (xs : List A) → All P xs → Has x xs → P x
  All-Has P x _ h (here xs) = h.0
  All-Has P x _ h (there y xs k) = All-Has P x xs h.1 k

-- What a statement leaves in place whether it fails or not.
pub statement-keeps :
    (P : Rows → Type 0) (f : Rows → ℕ × Rows) (st : Storage)
    → ((rs : Rows) → P rs → P (f rs).1)
    → P st.rows
    → P (statement f st).1.rows
unfolding statement
statement-keeps P f st k h = by_fault st.rows st.faults h
  where
    by_fault : (rs : Rows) (fs : List Bool) → P rs → P (run_on f rs fs).1.rows
    by_fault rs [] p = k rs p
    by_fault rs (false ∷ fs) p = k rs p
    by_fault rs (true ∷ fs) p = p

pub reap-keeps :
    (P : Rows → Type 0) (f : Rows → ℕ × Rows) (n : ℕ) (st : Storage)
    → ((rs : Rows) → P rs → P (f rs).1)
    → P st.rows
    → P (reap f n st).rows
unfolding reap
reap-keeps P f zero st k h = h
reap-keeps P f (suc n) st k h =
    let kept = statement-keeps P f st k h in
    elim (Option-cases (statement f st).0) [
      | inl e ↦ rw (reap, e) kept
      | inr (count, e) ↦ elim (Bool-cases (ltb count orphan_batch_size)) [
        | inl last ↦ rw (reap, e, last) kept
        | inr more ↦ rw (reap, e, more) (reap-keeps P f n (statement f st).1 k kept)
      ]
    ]
