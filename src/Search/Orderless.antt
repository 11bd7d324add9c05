-- ===== src/Search/Orderless.antt =====
-- `sortedCopy` and `Query` of internal/domain/search_query.go on filters that list the same values in
-- another order.
use mathlib.Core.List.{Perm, foldr, is_set}
use mathlib.Core.List.Perm
use code_scout.Common.{
  if◌then◌else◌, ◌≡◌, refl, ◌∙◌, sym, ap, inl, inr, arith, true, false, List, [], ◌∷◌, Bytes,
  Bool-cases,
}
use code_scout.Domain.LiveSession.{Uuid}
use code_scout.Search.Filter.{SearchFilter}
use code_scout.Search.Printer.{before, place, sorted_copy, parts, query}

before_trans : (x z y : Bytes) → before z x ≡ false → before z y ≡ true → before x y ≡ true
before_trans x [] [] h k = cc
before_trans [] [] (b ∷ y) h k = refl
before_trans (a ∷ x) [] (b ∷ y) h k = cc
before_trans x (c ∷ z) [] h k = cc
before_trans [] (c ∷ z) (b ∷ y) h k = refl
before_trans (a ∷ x) (c ∷ z) (b ∷ y) h k = ground (arith, h, k, before_trans x z y)

before-asym : (x y : Bytes) → before x y ≡ true → before y x ≡ false
before-asym [] [] h = refl
before-asym [] (b ∷ y) h = refl
before-asym (a ∷ x) [] h = cc
before-asym (a ∷ x) (b ∷ y) h = ground (arith, h, before-asym x y)

before-same : (x y : Bytes) → before x y ≡ false → before y x ≡ false → x ≡ y
before-same [] [] h k = refl
before-same [] (b ∷ y) h k = cc
before-same (a ∷ x) [] h k = cc
before-same (a ∷ x) (b ∷ y) h k = ground (arith, h, k, before-same x y)

-- Two strings at the front of a list, in order.
fronts :
    (x y : Bytes) (zs : List Bytes)
    → (if before y x then y ∷ x ∷ zs else x ∷ y ∷ zs)
      ≡ (if before x y then x ∷ y ∷ zs else y ∷ x ∷ zs)
fronts x y zs = elim (Bool-cases (before y x)) [
  | inl e ↦ rw (e, before-asym y x e) refl
  | inr e ↦ elim (Bool-cases (before x y)) [
    | inl f ↦ rw (e, f) refl
    | inr f ↦ rw (e, f) (cong_fronts (before-same x y f e))
  ]
]
  where
    cong_fronts : {x y : Bytes} → x ≡ y → (x ∷ y ∷ zs) ≡ (y ∷ x ∷ zs)
    cong_fronts e = λ i. e i ∷ sym e i ∷ zs

place_swap : (x y : Bytes) (zs : List Bytes) → place x (place y zs) ≡ place y (place x zs)
unfolding place
place_swap x y [] = fronts x y []
place_swap x y (z ∷ zs) = elim (Bool-cases (before z y)) [
  | inl e ↦ elim (Bool-cases (before z x)) [
    | inl f ↦ rw (place, e, f, e) (ap (λ r. z ∷ r) (place_swap x y zs))
    | inr f ↦ rw (place, e, f, place, before_trans x z y f e, e) refl
  ]
  | inr e ↦ elim (Bool-cases (before z x)) [
    | inl f ↦ rw (place, e, f, place, before_trans y z x e f, e) refl
    | inr f ↦ rw (place, e, f, place, e) (fronts x y (z ∷ zs))
  ]
]

sorted_copy-foldr : (xs : List Bytes) → sorted_copy xs ≡ foldr place [] xs
unfolding sorted_copy
sorted_copy-foldr [] = refl
sorted_copy-foldr (x ∷ xs) = ap (place x) (sorted_copy-foldr xs)

sorted_copy-Perm : (xs ys : List Bytes) → Perm xs ys → sorted_copy xs ≡ sorted_copy ys
sorted_copy-Perm xs ys p =
    sorted_copy-foldr xs
    ∙ Perm.foldr-eq (is_set (is_set hlevel)) place place_swap p []
    ∙ sym (sorted_copy-foldr ys)

module _ (id_text : Uuid → Bytes) where
  -- Filters that have the same levels, tags and excluded tags, in whatever order, and agree otherwise
  -- have the same query.
  pub query-Perm :
      (f : SearchFilter) (levels tags exclude_tags : List Bytes)
      → Perm levels f.levels
      → Perm tags f.tags
      → Perm exclude_tags f.exclude_tags
      → query id_text (record f { levels = levels; tags = tags; exclude_tags = exclude_tags })
        ≡ query id_text f
  unfolding query parts
  query-Perm f levels tags exclude_tags p q r =
      rw (sorted_copy-Perm _ _ p, sorted_copy-Perm _ _ q, sorted_copy-Perm _ _ r) refl
