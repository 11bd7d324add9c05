-- ===== src/Tests/Searches.antt =====
-- Queries of the log viewer, with ids written in unary.
use mathlib.Core.List.Perm
use code_scout.Common.{
  NarrowEnds, wide_front, wide_back, zero, suc, ◌≡◌, refl, true, false, [], ◌∷◌, Option, none, some,
  inl, inr, length, Bytes, codes, equal, equal_iff, ap, sym, ◌∙◌, ◌≢◌, ok, ◌++◌, Result,
}
use code_scout.Domain.LiveSession.{Uuid}
use code_scout.Search.Fields.{valid_level}
use code_scout.Search.Filter.{SearchFilter, no_filter, no_scope, included, excluded, state_for_tag}
use code_scout.Search.Toggles.{with_tag_cycled}
use code_scout.Search.Lexer.{ParseError, symbol, scan}
use code_scout.Search.Printer.{
  quote_value, parts, sorted_copy, place, escape, field_parts, join, query, filter_is_empty,
}
use code_scout.Search.Parser.{minus, parse}
use code_scout.Search.Quoting.{scan-quote_value}
use code_scout.Search.Ends.{parse-ends}
use code_scout.Search.Sections.{PlainTag}
use code_scout.Search.Printable.{Printable, canonical}
use code_scout.Search.RoundTrip.{parse-query}
use code_scout.Search.Cycle.{cycle-three, filter_is_empty_lem}
use code_scout.Search.Orderless.{query-Perm}

abbrev unary : Uuid → Bytes
unary zero = b'u' ∷ []
unary (suc n) = b'u' ∷ unary n

abbrev count : Bytes → Option Uuid
count [] = none
count (c ∷ s) = some (length s)

unary-PlainTag : (u : Uuid) → PlainTag (unary u)
unary-PlainTag zero = (refl, refl, refl)
unary-PlainTag (suc n) = let (full, clean, bare) = unary-PlainTag n in (refl, clean, bare)

length-unary : (u : Uuid) → length (unary u) ≡ suc u
length-unary zero = refl
length-unary (suc n) = ap suc (length-unary n)

different : (s t : Bytes) → equal s t ≡ false → s ≢ t
different s t h e = let clash : true ≡ false = sym ((equal_iff s t).1 e) ∙ h in cc

unary-count : (u : Uuid) → PlainTag (unary u) × (count (unary u) ≡ some u)
unary-count zero = ((refl, refl, refl), refl)
unary-count (suc n) = (unary-PlainTag (suc n), ap some (length-unary n))

abbrev viewed : SearchFilter
viewed = record no_filter {
  levels = codes "error" ∷ codes "debug" ∷ [];
  tags = codes "auth" ∷ [];
  exclude_tags = codes "noise" ∷ [];
  text_query = codes "say \"hi\"";
  is_network = some true;
  session_id = some 3;
  fingerprint = some (codes "User {n} not found");
  since_label = codes "24h";
  session = record no_scope { device = codes "Pixel 8" };
}

viewed-Printable : Printable viewed
unfolding equal valid_level
viewed-Printable = record {
  levels_valid = (refl, (refl, tt));
  levels_distinct = ((different (codes "debug") (codes "error") refl, tt), (tt, tt));
  tags_plain = ((refl, refl, refl), tt);
  tags_distinct = (tt, tt);
  excluded_plain = ((refl, refl, refl), tt);
  excluded_distinct = (tt, tt);
  network_on = λ e. cc;
  window_offered = inr refl;
  fingerprint_full = (refl, refl);
  scope_clean = (refl, (refl, (refl, (refl, (refl, (refl, tt))))));
  text_clean = refl;
  text_plain = inl refl;
}

no_filter-Printable : Printable no_filter
unfolding minus
no_filter-Printable = record {
  levels_valid = tt;
  levels_distinct = tt;
  tags_plain = tt;
  tags_distinct = tt;
  excluded_plain = tt;
  excluded_distinct = tt;
  network_on = λ e. cc;
  window_offered = inl refl;
  fingerprint_full = tt;
  scope_clean = (refl, (refl, (refl, (refl, (refl, (refl, tt))))));
  text_clean = refl;
  text_plain = inr refl;
}

parse-ends_example :
    (out : Result ParseError SearchFilter) × (parse count 0 (codes "level:error \"oops") ≡ some out)
parse-ends_example = parse-ends count 0 (codes "level:error \"oops")

scan-quote_value_example :
    scan false 0 (quote_value (codes "a \"b\"") ++ codes " tag:c")
    ≡ ok (codes "a \"b\"", codes " tag:c")
unfolding symbol
scan-quote_value_example = scan-quote_value 0 (codes "a \"b\"") (codes " tag:c") refl

viewed-narrow : NarrowEnds (query unary viewed)
unfolding query parts sorted_copy place field_parts join quote_value escape equal wide_front
    wide_back
viewed-narrow = (refl, refl)

parse-query_example : parse count 5 (query unary viewed) ≡ some (ok (canonical 5 viewed))
parse-query_example = parse-query count unary 5 unary-count viewed viewed-Printable viewed-narrow

cycle-three_example :
    (state_for_tag (with_tag_cycled viewed (codes "db")) (codes "db") ≡ included)
    × (state_for_tag
          (with_tag_cycled (with_tag_cycled viewed (codes "db")) (codes "db"))
          (codes "db")
        ≡ excluded)
    × (with_tag_cycled
          (with_tag_cycled (with_tag_cycled viewed (codes "db")) (codes "db"))
          (codes "db")
        ≡ viewed)
unfolding equal
cycle-three_example = cycle-three viewed (codes "db") refl refl

filter_is_empty_lem_example : no_filter ≡ no_filter
unfolding filter_is_empty query parts sorted_copy field_parts join
filter_is_empty_lem_example =
    filter_is_empty_lem count unary 5 unary-count no_filter no_filter-Printable (λ _. refl) refl

abbrev both_tags : SearchFilter
both_tags = record viewed { tags = codes "db" ∷ codes "auth" ∷ [] }

query-Perm_example :
    query unary (record both_tags {
      levels = viewed.levels;
      tags = codes "auth" ∷ codes "db" ∷ [];
      exclude_tags = viewed.exclude_tags;
    })
    ≡ query unary both_tags
query-Perm_example =
    query-Perm unary both_tags viewed.levels (codes "auth" ∷ codes "db" ∷ []) viewed.exclude_tags
      Perm.rfl (Perm.swap (codes "db") (codes "auth") []) Perm.rfl
