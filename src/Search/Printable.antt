-- ===== src/Search/Printable.antt =====
-- The filters whose text internal/domain/search_query.go promises to read back, and what reading makes
-- of them.
use code_scout.Common.{
  ℕ, ◌-◌, ◌≡◌, ◌≢◌, ◌⊎◌, refl, true, false, [], Option, none, some, any, All, Distinct, Bytes,
  equal, is_empty,
}
use code_scout.Domain.LiveSession.{Time}
use code_scout.Search.Filter.{SearchFilter, fields, contains}
use code_scout.Search.Fields.{valid_levels, valid_level, window, window_labels}
use code_scout.Search.Printer.{sorted_copy}
use code_scout.Search.Words.{breaks}
use code_scout.Search.Sections.{PlainTag}
use code_scout.Search.FreeText.{NotNegated}
use code_scout.Search.Sorting.{contains-All}

abbrev pub Each {ℓ} : {A : Type ℓ} → (A → Type 0) → Option A → Type 0
Each P none = Unit
Each P (some a) = P a

-- A filter that the toolbar and the parser make: known levels, tags without blanks or quotes, nothing
-- listed twice, an offered window, and no line breaks; the text, unless it is quoted, does not begin
-- like a negation.
pub record Printable (f : SearchFilter) : Type 0 where
  pub levels_valid : All (λ l. valid_level l ≡ true) f.levels
  pub levels_distinct : Distinct f.levels
  pub tags_plain : All PlainTag f.tags
  pub tags_distinct : Distinct f.tags
  pub excluded_plain : All PlainTag f.exclude_tags
  pub excluded_distinct : Distinct f.exclude_tags
  pub network_on : f.is_network ≢ some false
  pub window_offered : (f.since_label ≡ []) ⊎ (contains window_labels f.since_label ≡ true)
  pub fingerprint_full : Each (λ s. (is_empty s ≡ false) × (any breaks s ≡ false)) f.fingerprint
  pub scope_clean : All (λ p. any breaks p.1 ≡ false) (fields f.session)
  pub text_clean : any breaks f.text_query ≡ false
  pub text_plain : NotNegated f.text_query

-- The moment that a window begins at, seen at `now`.
unfoldable pub since_of : Time → Bytes → Option Time
since_of now label = elim (window label) [ none ↦ none | some d ↦ some (now - d) ]

-- The filter with its lists sorted and its window moved to `now`.
abbrev pub canonical : Time → SearchFilter → SearchFilter
canonical now f = record f {
  levels = sorted_copy f.levels;
  tags = sorted_copy f.tags;
  exclude_tags = sorted_copy f.exclude_tags;
  since = since_of now f.since_label;
}

pub valid_level-PlainTag : (l : Bytes) → valid_level l ≡ true → PlainTag l
unfolding valid_level
valid_level-PlainTag l h = contains-All PlainTag l valid_levels h all_plain
  where
    all_plain : All PlainTag valid_levels
    all_plain = (
      (refl, refl, refl),
      (
        (refl, refl, refl),
        (
          (refl, refl, refl),
          (
            (refl, refl, refl),
            ((refl, refl, refl), ((refl, refl, refl), ((refl, refl, refl), tt))),
          ),
        ),
      ),
    )

-- The windows on offer are those that the parser knows.
pub window_labels_known :
    (l : Bytes) → contains window_labels l ≡ true → PlainTag l × ((d : ℕ) × (window l ≡ some d))
unfolding window equal
window_labels_known l h =
    contains-All (λ l. PlainTag l × ((d : ℕ) × (window l ≡ some d))) l window_labels h known
  where
    known : All (λ l. PlainTag l × ((d : ℕ) × (window l ≡ some d))) window_labels
    known = (
      ((refl, refl, refl), (_, refl)),
      (
        ((refl, refl, refl), (_, refl)),
        (((refl, refl, refl), (_, refl)), (((refl, refl, refl), (_, refl)), tt)),
      ),
    )
