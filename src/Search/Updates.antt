-- ===== src/Search/Updates.antt =====
-- One part of a filter that can be written as text is replaced by another.
use code_scout.Common.{
  ◌≡◌, ◌≢◌, ◌⊎◌, Bool, true, false, List, [], Option, some, any, All, Distinct, Bytes,
}
use code_scout.Domain.LiveSession.{Time}
use code_scout.Search.Filter.{SearchFilter, SessionScope, fields, contains}
use code_scout.Search.Fields.{valid_level, window_labels}
use code_scout.Search.Words.{breaks}
use code_scout.Search.Sections.{PlainTag}
use code_scout.Search.Printable.{Printable}

module _ (f : SearchFilter) (h : Printable f) where
  pub with_levels :
      (ls : List Bytes)
      → All (λ l. valid_level l ≡ true) ls
      → Distinct ls
      → Printable (record f { levels = ls })
  with_levels ls v d = record {
    levels_valid = v;
    levels_distinct = d;
    tags_plain = h.tags_plain;
    tags_distinct = h.tags_distinct;
    excluded_plain = h.excluded_plain;
    excluded_distinct = h.excluded_distinct;
    network_on = h.network_on;
    window_offered = h.window_offered;
    fingerprint_full = h.fingerprint_full;
    scope_clean = h.scope_clean;
    text_clean = h.text_clean;
    text_plain = h.text_plain;
  }

  pub with_tags :
      (ts es : List Bytes)
      → All PlainTag ts
      → Distinct ts
      → All PlainTag es
      → Distinct es
      → Printable (record f { tags = ts; exclude_tags = es })
  with_tags ts es p d q k = record {
    levels_valid = h.levels_valid;
    levels_distinct = h.levels_distinct;
    tags_plain = p;
    tags_distinct = d;
    excluded_plain = q;
    excluded_distinct = k;
    network_on = h.network_on;
    window_offered = h.window_offered;
    fingerprint_full = h.fingerprint_full;
    scope_clean = h.scope_clean;
    text_clean = h.text_clean;
    text_plain = h.text_plain;
  }

  pub with_label :
      (l : Bytes) (t : Option Time)
      → (l ≡ []) ⊎ (contains window_labels l ≡ true)
      → Printable (record f { since_label = l; since = t })
  with_label l t o = record {
    levels_valid = h.levels_valid;
    levels_distinct = h.levels_distinct;
    tags_plain = h.tags_plain;
    tags_distinct = h.tags_distinct;
    excluded_plain = h.excluded_plain;
    excluded_distinct = h.excluded_distinct;
    network_on = h.network_on;
    window_offered = o;
    fingerprint_full = h.fingerprint_full;
    scope_clean = h.scope_clean;
    text_clean = h.text_clean;
    text_plain = h.text_plain;
  }

  pub with_network : (n : Option Bool) → n ≢ some false → Printable (record f { is_network = n })
  with_network n o = record {
    levels_valid = h.levels_valid;
    levels_distinct = h.levels_distinct;
    tags_plain = h.tags_plain;
    tags_distinct = h.tags_distinct;
    excluded_plain = h.excluded_plain;
    excluded_distinct = h.excluded_distinct;
    network_on = o;
    window_offered = h.window_offered;
    fingerprint_full = h.fingerprint_full;
    scope_clean = h.scope_clean;
    text_clean = h.text_clean;
    text_plain = h.text_plain;
  }

  pub with_session :
      (s : SessionScope)
      → All (λ p. any breaks p.1 ≡ false) (fields s)
      → Printable (record f { session = s })
  with_session s o = record {
    levels_valid = h.levels_valid;
    levels_distinct = h.levels_distinct;
    tags_plain = h.tags_plain;
    tags_distinct = h.tags_distinct;
    excluded_plain = h.excluded_plain;
    excluded_distinct = h.excluded_distinct;
    network_on = h.network_on;
    window_offered = h.window_offered;
    fingerprint_full = h.fingerprint_full;
    scope_clean = o;
    text_clean = h.text_clean;
    text_plain = h.text_plain;
  }
