-- ===== src/Search/RoundTrip.antt =====
-- `Parse` of pkg/search/parser.go on what `Query` of internal/domain/search_query.go wrote.
use code_scout.Common.{
  ◌≡◌, refl, sym, ◌∙◌, ap, true, false, not, List, [], ◌∷◌, ◌++◌, Option, none, some, inl, inr, any,
  Bytes, codes, equal, is_empty, ok, NarrowEnds,
}
use code_scout.Domain.LiveSession.{Uuid, Time}
use code_scout.Search.Filter.{SearchFilter}
use code_scout.Search.Fields.{window}
use code_scout.Search.Printer.{join, sorted_copy, part_of, part_if, quote_value, parts, query}
use code_scout.Search.Parser.{Reading, finished, start_reading, parse}
use code_scout.Search.Chains.{Chain, Chain-append, parse-Chain}
use code_scout.Search.Sorting.{All-sorted_copy, Distinct-sorted_copy}
use code_scout.Search.Sections.{PlainTag, part_of-Chain, part_if-Chain}
use code_scout.Search.FreeText.{NotNegated, text-Does}
use code_scout.Search.Words.{breaks}
use code_scout.Search.Printable.{Each, Printable, since_of, canonical, window_labels_known}
use code_scout.Search.Steps.{
  listed, pick, look_back, name_session, name_request, mark, place_in, say, levels-Chain,
  tags-Chain, excluded-Chain, network-Chain, window-Does, session-Does, request-Does,
  fingerprint-Does, scope-Chain,
}

finished-say :
    (r : Reading) (v : Bytes)
    → r.filter.text_query ≡ []
    → finished (say r v) ≡ record r.filter { text_query = v }
unfolding join
finished-say r [] h = ap (λ t. record r.filter { text_query = t }) h
finished-say r (c ∷ v) h = refl

module _ (parse_uuid : Bytes → Option Uuid) (id_text : Uuid → Bytes) (now : Time)
    (ids : (u : Uuid) → PlainTag (id_text u) × (parse_uuid (id_text u) ≡ some u)) where
  abbrev Makes : List Bytes → Reading → Reading → Type 0
  Makes = Chain parse_uuid now

  window-Chain :
      (f : SearchFilter) (r : Reading)
      → Printable f
      → Makes
          (part_if (not (is_empty f.since_label)) (codes "last:" ++ f.since_label))
          (look_back now r [])
          (look_back now r f.since_label)
  window-Chain f r h =
      part_if-Chain parse_uuid now (λ l. codes "last:" ++ l) (look_back now r) f.since_label
        (λ full. elim h.window_offered [
          | inl e ↦ let clash : true ≡ false = sym (ap is_empty e) ∙ full in cc
          | inr known ↦
              let (plain, (d, e)) = window_labels_known f.since_label known in
              window-Does parse_uuid id_text now ids f.since_label d r plain e
        ])

  fingerprint-Chain :
      (o : Option Bytes) (r : Reading)
      → Each (λ s. (is_empty s ≡ false) × (any breaks s ≡ false)) o
      → Makes (part_of (λ s. codes "fingerprint:" ++ quote_value s) o) (mark r none) (mark r o)
  fingerprint-Chain none r h = refl
  fingerprint-Chain (some s) r h =
      (mark r (some s), fingerprint-Does parse_uuid id_text now ids s r h.0 h.1, refl)

  text-Chain :
      (v : Bytes) (r : Reading)
      → any breaks v ≡ false
      → NotNegated v
      → Makes (part_if (not (is_empty v)) (quote_value v)) (say r []) (say r v)
  text-Chain [] r clean word = refl
  text-Chain (c ∷ v) r clean word =
      (say r (c ∷ v), text-Does parse_uuid now c v (say r []) clean word, refl)

  parts-Chain :
      (f : SearchFilter)
      → Printable f
      → (r : Reading) × Makes (parts id_text f) start_reading r × (finished r ≡ canonical now f)
  unfolding parts since_of window equal
  parts-Chain f h =
      let ls = sorted_copy f.levels in
      let ts = sorted_copy f.tags in
      let es = sorted_copy f.exclude_tags in
      let on = Chain-append parse_uuid now in
      let a = listed ls ts es in
      let b = pick f.is_network a in
      let c = look_back now b f.since_label in
      let d = name_session c f.session_id in
      let e = name_request d f.request_id in
      let g = mark e f.fingerprint in
      let k = place_in g f.session in
      (
        say k f.text_query,
        on _ _ _ _ _
            (levels-Chain parse_uuid id_text now ids ls (All-sorted_copy _ f.levels h.levels_valid)
              (Distinct-sorted_copy f.levels h.levels_distinct))
            (on _ _ _ _ _
              (tags-Chain parse_uuid id_text now ids ls ts (All-sorted_copy _ f.tags h.tags_plain)
                (Distinct-sorted_copy f.tags h.tags_distinct))
              (on _ _ _ _ _
                (excluded-Chain parse_uuid id_text now ids ls ts es
                  (All-sorted_copy _ f.exclude_tags h.excluded_plain)
                  (Distinct-sorted_copy f.exclude_tags h.excluded_distinct))
                (on _ _ _ _ _ (network-Chain parse_uuid id_text now ids f.is_network a h.network_on)
                  (on _ _ _ _ _ (window-Chain f b h) (
                    on _ _ _ _ _
                      (part_of-Chain parse_uuid now (λ u. codes "session:" ++ id_text u)
                        (name_session c) f.session_id
                        (λ u _. session-Does parse_uuid id_text now ids u c))
                      (on _ _ _ _ _
                        (part_of-Chain parse_uuid now (λ u. codes "request:" ++ id_text u)
                          (name_request d) f.request_id
                          (λ u _. request-Does parse_uuid id_text now ids u d))
                        (on _ _ _ _ _ (fingerprint-Chain f.fingerprint e h.fingerprint_full) (
                          on _ _ _ _ _
                            (scope-Chain parse_uuid id_text now ids f.session g h.scope_clean)
                            (text-Chain f.text_query k h.text_clean h.text_plain))))))))),
        finished-say k f.text_query refl,
      )

  -- For a filter that can be written as text, reading the query that was written for it gives the
  -- filter again, its lists sorted and its window taken from now. Such a filter has known levels, tags
  -- without blanks and quotes, nothing listed twice, an offered window or none, no fingerprint or one
  -- that is not empty, no line breaks, the network button on or not set, and a text that does not begin
  -- like a negation unless it is quoted. Besides, its query neither begins nor ends with white space
  -- beyond ASCII, and every id is written without blanks and quotes and read back.
  pub parse-query :
      (f : SearchFilter)
      → Printable f
      → NarrowEnds (query id_text f)
      → parse parse_uuid now (query id_text f) ≡ some (ok (canonical now f))
  unfolding query
  parse-query f h narrow =
      let (r, made, done) = parts-Chain f h in
      parse-Chain parse_uuid now (parts id_text f) r made narrow ∙ ap (λ g. some (ok g)) done
