-- ===== src/Search/Sorting.antt =====
-- `sortedCopy`, `contains` and `without` of internal/domain: what they do to the members of a list.
use code_scout.Common.{
  ◌≡◌, ◌≢◌, refl, ◌∙◌, sym, subst, Bool, true, false, inl, inr, List, [], ◌∷◌, ◌++◌, All, All-map,
  All-append, All-keep, keep, not, Distinct, Distinct-concat, Bytes, equal, equal_iff, Bool-cases,
}
use code_scout.Search.Filter.{contains}
use code_scout.Search.Toggles.{without}
use code_scout.Search.Printer.{before, place, sorted_copy}

module _ {κ} (P : Bytes → Type κ) where
  All-place : (x : Bytes) (ys : List Bytes) → P x → All P ys → All P (place x ys)
  unfolding place
  All-place x [] h k = (h, tt)
  All-place x (y ∷ ys) h k = elim (Bool-cases (before y x)) [
    | inl e ↦ rw e (k.0, All-place x ys h k.1)
    | inr e ↦ rw e (h, k)
  ]

  pub All-sorted_copy : (xs : List Bytes) → All P xs → All P (sorted_copy xs)
  unfolding sorted_copy
  All-sorted_copy [] h = tt
  All-sorted_copy (x ∷ xs) h = All-place x (sorted_copy xs) h.0 (All-sorted_copy xs h.1)

  -- A member that the loop finds has what all members have.
  pub contains-All : (x : Bytes) (xs : List Bytes) → contains xs x ≡ true → All P xs → P x
  contains-All x [] h k = cc
  contains-All x (y ∷ xs) h k = elim (Bool-cases (equal y x)) [
    | inl e ↦ subst P ((equal_iff y x).0 e) k.0
    | inr e ↦ contains-All x xs (rw e at h) k.1
  ]

Distinct-place :
    (x : Bytes) (ys : List Bytes) → All (λ y. y ≢ x) ys → Distinct ys → Distinct (place x ys)
unfolding place
Distinct-place x [] h d = (tt, tt)
Distinct-place x (y ∷ ys) h d = elim (Bool-cases (before y x)) [
  | inl e ↦
      rw e (All-place (λ z. z ≢ y) x ys (λ same. h.0 (sym same)) d.0, Distinct-place x ys h.1 d.1)
  | inr e ↦ rw e (h, d)
]

pub Distinct-sorted_copy : (xs : List Bytes) → Distinct xs → Distinct (sorted_copy xs)
unfolding sorted_copy
Distinct-sorted_copy [] d = tt
Distinct-sorted_copy (x ∷ xs) d =
    Distinct-place x (sorted_copy xs) (All-sorted_copy (λ y. y ≢ x) xs d.0)
      (Distinct-sorted_copy xs d.1)

pub equal-other : (x y : Bytes) → x ≢ y → equal x y ≡ false
equal-other x y n = elim (Bool-cases (equal x y)) [
  | inl e ↦ absurd (n ((equal_iff x y).0 e))
  | inr e ↦ e
]

-- What the loop does not find among the members, and is not `x`, it does not find when `x` is added.
pub contains-concat :
    (xs : List Bytes) (x y : Bytes)
    → x ≢ y
    → contains xs y ≡ false
    → contains (xs ++ x ∷ []) y ≡ false
contains-concat [] x y n h = rw (equal-other x y n) h
contains-concat (z ∷ xs) x y n h = elim (Bool-cases (equal z y)) [
  | inl e ↦ let bad : true ≡ false = rw e at h in cc
  | inr e ↦ rw e (contains-concat xs x y n (rw e at h))
]

pub absent-All : (xs : List Bytes) (x : Bytes) → contains xs x ≡ false → All (λ y. x ≢ y) xs
absent-All [] x h = tt
absent-All (y ∷ xs) x h = elim (Bool-cases (equal y x)) [
  | inl e ↦ let clash : true ≡ false = rw e at h in cc
  | inr e ↦ (
    λ same. let clash : true ≡ false = sym ((equal_iff y x).1 (sym same)) ∙ e in cc,
    absent-All xs x (rw e at h),
  )
]

pub add-Distinct :
    (xs : List Bytes) (x : Bytes) → contains xs x ≡ false → Distinct xs → Distinct (xs ++ x ∷ [])
add-Distinct xs x h d = Distinct-concat xs x d (absent-All xs x h)

pub All-add {κ} :
    (P : Bytes → Type κ) (xs : List Bytes) (x : Bytes) → All P xs → P x → All P (xs ++ x ∷ [])
All-add P xs x h k = All-append P xs (x ∷ []) h (k, tt)

pub All-without {κ} :
    (P : Bytes → Type κ) (xs : List Bytes) (x : Bytes) → All P xs → All P (without xs x)
All-without P xs x h = All-map _ P (λ y k. k.0) (without xs x) (All-keep P _ xs h)

pub contains-keep :
    (p : Bytes → Bool) (xs : List Bytes) (x : Bytes)
    → contains xs x ≡ false
    → contains (keep p xs) x ≡ false
contains-keep p [] x h = refl
contains-keep p (y ∷ xs) x h = elim (Bool-cases (equal y x)) [
  | inl e ↦ let clash : true ≡ false = rw e at h in cc
  | inr e ↦
      let rest = contains-keep p xs x (rw e at h) in
      elim (Bool-cases (p y)) [ inl k ↦ rw (k, e) rest | inr k ↦ rw k rest ]
]

pub not-equal : (y t : Bytes) → not (equal y t) ≡ true → t ≢ y
not-equal y t h same = let clash : not true ≡ true = rw ((equal_iff y t).1 (sym same)) at h in cc
