-- ===== src/Common/Lists.antt =====
-- Lists measured and cut by native numbers, and predicates on all members of a list.
use Prim.Native.Nat.{ℕ, zero, suc, ◌+◌, ◌≤◌}
use mathlib.Core.Path.{◌≡◌, subst}
use mathlib.Core.Logic.{◌≢◌}
use mathlib.Core.Bool.{Bool, true, false}
use mathlib.Core.List.{List, [], ◌∷◌, ◌++◌}
use native.Mathlib.Omega.{arith}
use mathlib.Core.Logic.{inl, inr}
use code_scout.Common.Tests.{if◌then◌else◌, Bool-cases, ◌==◌, ==_iff}

module _ {ℓ} {A : Type ℓ} where
  abbrev pub length : List A → ℕ
  length [] = 0
  length (x ∷ xs) = suc (length xs)

  abbrev pub drop : ℕ → List A → List A
  drop zero xs = xs
  drop (suc n) [] = []
  drop (suc n) (x ∷ xs) = drop n xs

  abbrev pub take : ℕ → List A → List A
  take zero xs = []
  take (suc n) [] = []
  take (suc n) (x ∷ xs) = x ∷ take n xs

  -- The members that pass a Boolean test.
  abbrev pub keep : (A → Bool) → List A → List A
  keep p [] = []
  keep p (x ∷ xs) = let rest = keep p xs in if p x then x ∷ rest else rest

  pub length-append : (xs ys : List A) → length (xs ++ ys) ≡ length xs + length ys
  length-append [] ys = omega arith
  length-append (x ∷ xs) ys = omega (arith, length-append xs ys)

  pub length-keep-le : (p : A → Bool) (xs : List A) → length (keep p xs) ≤ length xs
  length-keep-le p [] = omega arith
  length-keep-le p (x ∷ xs) = ground (arith, length-keep-le p xs)

  abbrev pub All {κ} : (A → Type κ) → List A → Type κ
  All P [] = Unit
  All P (x ∷ xs) = P x × All P xs

  pub All-map {κ ι} :
      (P : A → Type κ) (Q : A → Type ι)
      → ((x : A) → P x → Q x)
      → (xs : List A) → All P xs
      → All Q xs
  All-map P Q f [] h = tt
  All-map P Q f (x ∷ xs) h = (f x h.0, All-map P Q f xs h.1)

  pub All-append {κ} : (P : A → Type κ) (xs ys : List A) → All P xs → All P ys → All P (xs ++ ys)
  All-append P [] ys h k = k
  All-append P (x ∷ xs) ys h k = (h.0, All-append P xs ys h.1 k)

  pub All-both {κ ι} :
      (P : A → Type κ) (Q : A → Type ι) (xs : List A)
      → All P xs
      → All Q xs
      → All (λ x. P x × Q x) xs
  All-both P Q [] h k = tt
  All-both P Q (x ∷ xs) h k = ((h.0, k.0), All-both P Q xs h.1 k.1)

  -- No two members are equal.
  abbrev pub Distinct : List A → Type ℓ
  Distinct [] = Unit
  Distinct (x ∷ xs) = All (λ y. y ≢ x) xs × Distinct xs

  -- The members past a position, counted from the end: what a bounded buffer keeps.
  pub length-drop-add : (n : ℕ) (xs : List A) → n ≤ length xs → length (drop n xs) + n ≡ length xs
  length-drop-add zero xs h = omega arith
  length-drop-add (suc n) [] h = absurd (omega arith)
  length-drop-add (suc n) (x ∷ xs) h = omega (arith, length-drop-add n xs (omega arith))

  -- Whether a test holds of some member.
  abbrev pub any : (A → Bool) → List A → Bool
  any p [] = false
  any p (x ∷ xs) = if p x then true else any p xs

  pub All-keep {κ} :
      (P : A → Type κ) (p : A → Bool) (xs : List A)
      → All P xs
      → All (λ x. P x × (p x ≡ true)) (keep p xs)
  All-keep P p [] h = tt
  All-keep P p (x ∷ xs) h = elim (Bool-cases (p x)) [
    | inl good ↦ rw good ((h.0, good), All-keep P p xs h.1)
    | inr bad ↦ rw bad (All-keep P p xs h.1)
  ]

  pub Distinct-keep : (p : A → Bool) (xs : List A) → Distinct xs → Distinct (keep p xs)
  Distinct-keep p [] h = tt
  Distinct-keep p (x ∷ xs) h = elim (Bool-cases (p x)) [
    | inl good ↦
        rw good (All-map _ _ (λ y k. k.0) (keep p xs) (All-keep _ p xs h.0), Distinct-keep p xs h.1)
    | inr bad ↦ rw bad (Distinct-keep p xs h.1)
  ]

  pub Distinct-concat :
      (xs : List A) (x : A) → Distinct xs → All (λ y. x ≢ y) xs → Distinct (xs ++ x ∷ [])
  Distinct-concat [] x d h = (tt, tt)
  Distinct-concat (y ∷ xs) x d h =
      (All-append _ xs (x ∷ []) d.0 (h.0, tt), Distinct-concat xs x d.1 h.1)

-- A member that a search finds has what all members have.
pub All-any {κ} :
    (P : ℕ → Type κ) (w : ℕ) (ws : List ℕ) → any (λ v. v == w) ws ≡ true → All P ws → P w
All-any P w [] h k = cc
All-any P w (v ∷ ws) h k = elim (Bool-cases (v == w)) [
  | inl same ↦ subst P ((==_iff v w).0 same) k.0
  | inr other ↦ All-any P w ws (rw other at h) k.1
]
