-- ===== src/Search/Printer.antt =====
-- `Query` of internal/domain/search_query.go: a filter as search text. Of an id, only its text is
-- known here, as `id_text`.
use code_scout.Common.{
  ℕ, Bool, true, false, ◌||◌, List, [], ◌∷◌, ◌++◌, map, Option, none, some, if◌then◌else◌, ◌==◌,
  ltb, any, keep, not, Bytes, codes, is_empty,
}
use code_scout.Domain.LiveSession.{Uuid}
use code_scout.Search.Filter.{SearchFilter, fields}
use code_scout.Search.Toggles.{is_on, without_session_field}

-- `strings.ContainsAny(s, …)` of `quoteValue`
abbrev pub is_special : ℕ → Bool
is_special c = c == b' ' || c == 9 || c == b':' || c == b'"' || c == b'\\'

-- `quoteEscaper`
unfoldable pub escape : Bytes → Bytes
escape [] = []
escape (c ∷ s) =
    let rest = escape s in if c == b'\\' || c == b'"' then b'\\' ∷ c ∷ rest else c ∷ rest

-- `quoteValue`
unfoldable pub quote_value : Bytes → Bytes
quote_value s = if any is_special s then b'"' ∷ escape s ++ b'"' ∷ [] else s

-- Go's order on strings.
abbrev pub before : Bytes → Bytes → Bool
before [] [] = false
before [] (_ ∷ _) = true
before (_ ∷ _) [] = false
before (x ∷ s) (y ∷ t) = if x == y then before s t else ltb x y

unfoldable pub place : Bytes → List Bytes → List Bytes
place x [] = x ∷ []
place x (y ∷ ys) = let rest = place x ys in if before y x then y ∷ rest else x ∷ y ∷ ys

-- `sortedCopy`: equal strings are the same, so any sort gives this list.
unfoldable pub sorted_copy : List Bytes → List Bytes
sorted_copy [] = []
sorted_copy (x ∷ xs) = place x (sorted_copy xs)

-- `strings.Join(parts, " ")`
unfoldable pub join : List Bytes → Bytes
join [] = []
join (p ∷ []) = p
join (p ∷ q ∷ ps) = p ++ b' ' ∷ join (q ∷ ps)

abbrev pub prefixed : Bytes → List Bytes → List Bytes
prefixed name = map λ v. name ++ v

-- The part of an optional value.
abbrev pub part_of {ℓ} : {A : Type ℓ} → (A → Bytes) → Option A → List Bytes
part_of show none = []
part_of show (some a) = show a ∷ []

abbrev pub part_if : Bool → Bytes → List Bytes
part_if false p = []
part_if true p = p ∷ []

-- The loop over the session's fields.
unfoldable pub field_parts : List (Bytes × Bytes) → List Bytes
field_parts [] = []
field_parts ((name, value) ∷ fs) =
    part_if (not (is_empty value)) (name ++ b':' ∷ quote_value value) ++ field_parts fs

module _ (id_text : Uuid → Bytes) where
  -- The `parts` of `Query`.
  unfoldable pub parts : SearchFilter → List Bytes
  parts f =
      prefixed (codes "level:") (sorted_copy f.levels)
      ++ (prefixed (codes "tag:") (sorted_copy f.tags)
          ++ (prefixed (codes "-tag:") (sorted_copy f.exclude_tags)
              ++ (part_if (is_on f.is_network) (codes "is:network")
                  ++ (part_if (not (is_empty f.since_label)) (codes "last:" ++ f.since_label)
                      ++ (part_of (λ u. codes "session:" ++ id_text u) f.session_id
                          ++ (part_of (λ u. codes "request:" ++ id_text u) f.request_id
                              ++ (part_of (λ s. codes "fingerprint:" ++ quote_value s) f.fingerprint
                                  ++ (field_parts (fields f.session)
                                      ++ part_if (not (is_empty f.text_query))
                                          (quote_value f.text_query)))))))))

  -- `Query`
  unfoldable pub query : SearchFilter → Bytes
  query f = join (parts f)

  -- `IsEmpty`
  unfoldable pub filter_is_empty : SearchFilter → Bool
  filter_is_empty f = is_empty (query f)

  -- One round of the loop of `SessionChips`.
  abbrev pub chip : SearchFilter → Bytes × Bytes → Bytes × Bytes × Bytes
  chip f p = (p.0, p.1, query (without_session_field f p.0))

  -- `SessionChips`: the field, its value, and the query without it
  unfoldable pub session_chips : SearchFilter → List (Bytes × Bytes × Bytes)
  session_chips f = map (chip f) (keep (λ p. not (is_empty p.1)) (fields f.session))
