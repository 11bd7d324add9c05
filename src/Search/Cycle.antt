-- ===== src/Search/Cycle.antt =====
-- `WithTagCycled` of internal/domain/search_query.go, three clicks on one tag, and the filters of which
-- `Query` writes nothing or what `Parse` refuses.
use code_scout.Common.{
  ◌≡◌, inl, inr, refl, ap, true, false, List, [], ◌∷◌, ◌++◌, Option, some, none, ◌≢◌, Bytes, equal,
  equal_refl, ok, Result, Bool-cases, is_empty, trim_space, cut_front, wide_front, wide_back,
  NarrowEnds, subst, sym,
}
use code_scout.Domain.LiveSession.{Uuid, Time}
use code_scout.Search.Filter.{SearchFilter, no_filter, contains, included, excluded, state_for_tag}
use code_scout.Search.Toggles.{without, with_tag_cycled}
use code_scout.Search.Lexer.{ParseError}
use code_scout.Search.Parser.{read_tokens, parse}
use code_scout.Search.Printer.{before, place, sorted_copy, query, filter_is_empty}
use code_scout.Search.Printable.{Printable, canonical}
use code_scout.Search.Sections.{PlainTag}
use code_scout.Search.RoundTrip.{parse-query}

contains_last : (xs : List Bytes) (t : Bytes) → contains (xs ++ t ∷ []) t ≡ true
contains_last [] t = rw (equal_refl t) refl
contains_last (x ∷ xs) t = elim (Bool-cases (equal x t)) [
  | inl e ↦ rw e refl
  | inr e ↦ rw e (contains_last xs t)
]

-- Taking out the string that was just added.
without_last : (xs : List Bytes) (t : Bytes) → contains xs t ≡ false → without (xs ++ t ∷ []) t ≡ xs
without_last [] t h = rw (equal_refl t) refl
without_last (x ∷ xs) t h = elim (Bool-cases (equal x t)) [
  | inl e ↦ let clash : true ≡ false = rw e at h in cc
  | inr e ↦ rw e (ap (λ ys. x ∷ ys) (without_last xs t (rw e at h)))
]

module _ (f : SearchFilter) (t : Bytes) (new : contains f.tags t ≡ false)
    (kept : contains f.exclude_tags t ≡ false) where
  abbrev on_filter : SearchFilter
  on_filter = record f { tags = f.tags ++ t ∷ [] }

  abbrev off_filter : SearchFilter
  off_filter = record f { exclude_tags = f.exclude_tags ++ t ∷ [] }

  first_click : with_tag_cycled f t ≡ on_filter
  unfolding with_tag_cycled state_for_tag
  first_click = rw (new, kept) refl

  second_click : with_tag_cycled on_filter t ≡ off_filter
  unfolding with_tag_cycled state_for_tag
  second_click = rw (contains_last f.tags t, without_last f.tags t new) refl

  third_click : with_tag_cycled off_filter t ≡ f
  unfolding with_tag_cycled state_for_tag
  third_click = rw (new, contains_last f.exclude_tags t, without_last f.exclude_tags t kept) refl

  -- A tag that the filter does not name is included after one click, excluded after two, and after three
  -- the filter is as it was.
  pub cycle-three :
      (state_for_tag (with_tag_cycled f t) t ≡ included)
      × (state_for_tag (with_tag_cycled (with_tag_cycled f t) t) t ≡ excluded)
      × (with_tag_cycled (with_tag_cycled (with_tag_cycled f t) t) t ≡ f)
  unfolding state_for_tag
  cycle-three = (
    rw (first_click, contains_last f.tags t) refl,
    rw (first_click, second_click, new, contains_last f.exclude_tags t) refl,
    rw (first_click, second_click, third_click) refl,
  )

ok_same :
    {a b : SearchFilter} {r : Option (Result ParseError SearchFilter)}
    → r ≡ some (ok a)
    → r ≡ some (ok b)
    → a ≡ b
ok_same h k = cc

empty-nil : (s : Bytes) → is_empty s ≡ true → s ≡ []
empty-nil [] h = refl
empty-nil (c ∷ s) h = cc

place-full : (x : Bytes) (ys : List Bytes) → place x ys ≢ []
unfolding place
place-full x [] h = cc
place-full x (y ∷ ys) h = elim (Bool-cases (before y x)) [
  | inl e ↦ let clash : y ∷ place x ys ≡ [] = rw e at h in cc
  | inr e ↦ let clash : x ∷ y ∷ ys ≡ [] = rw e at h in cc
]

-- Only the empty list is sorted into the empty list.
sorted_copy-nil : (xs : List Bytes) → sorted_copy xs ≡ [] → xs ≡ []
unfolding sorted_copy
sorted_copy-nil [] h = refl
sorted_copy-nil (x ∷ xs) h = absurd (place-full x (sorted_copy xs) h)

-- What is empty once it is read back was empty before.
canonical-no_filter :
    (now : Time) (f : SearchFilter)
    → (f.since_label ≡ [] → f.since ≡ none)
    → canonical now f ≡ no_filter
    → f ≡ no_filter
canonical-no_filter now f windowed h =
    let levels = sorted_copy-nil f.levels (ap (λ g. g.levels) h) in
    let tags = sorted_copy-nil f.tags (ap (λ g. g.tags) h) in
    let excluded = sorted_copy-nil f.exclude_tags (ap (λ g. g.exclude_tags) h) in
    let since = windowed (ap (λ g. g.since_label) h) in
    λ i. record (h i) {
      levels = levels i;
      tags = tags i;
      exclude_tags = excluded i;
      since = since i;
    }

-- A filter that can be written as text, has no moment without a window's label and counts as empty is
-- the filter that asks for nothing.
pub filter_is_empty_lem :
    (parse_uuid : Bytes → Option Uuid) (id_text : Uuid → Bytes) (now : Time)
    (ids : (u : Uuid) → PlainTag (id_text u) × (parse_uuid (id_text u) ≡ some u)) (f : SearchFilter)
    → Printable f
    → (f.since_label ≡ [] → f.since ≡ none)
    → filter_is_empty id_text f ≡ true
    → f ≡ no_filter
unfolding filter_is_empty parse read_tokens trim_space cut_front wide_front wide_back
filter_is_empty_lem parse_uuid id_text now ids f h windowed e =
    let blank = empty-nil (query id_text f) e in
    let same = ap (parse parse_uuid now) blank in
    let narrow = subst NarrowEnds (sym blank) (refl, refl) in
    canonical-no_filter now f windowed
      (ok_same (parse-query parse_uuid id_text now ids f h narrow) same)
