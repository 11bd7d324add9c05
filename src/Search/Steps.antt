-- ===== src/Search/Steps.antt =====
-- What each section of a query does to the variables of `Parse` in pkg/search/parser.go: the sections are those that `Query` of internal/domain/search_query.go writes.
use code_scout.Common.{
  ℕ, ◌≡◌, ◌≢◌, refl, Bool, true, false, not, List, [], ◌∷◌, ◌++◌, Option, none, some, any, All,
  All-map, Distinct, Bytes, codes, equal, is_empty, ok,
}
use code_scout.Domain.LiveSession.{Uuid, Time}
use code_scout.Search.Filter.{SessionScope, no_scope, fields}
use code_scout.Search.Fields.{Field, valid_level, window}
use code_scout.Search.Toggles.{is_on}
use code_scout.Search.Printer.{prefixed, part_if, field_parts, quote_value}
use code_scout.Search.Parser.{Reading, set_field, start_reading}
use code_scout.Search.Chains.{Does, Chain, Chain-append}
use code_scout.Search.Sections.{PlainTag, plain-Does, quoted-Does, prefixed-Chain, part_if-Chain}
use code_scout.Search.Words.{breaks, Prefix}
use code_scout.Search.Prefixes.{
  level-Prefix, tag-Prefix, excluded_tag-Prefix, is-Prefix, last-Prefix, session-Prefix,
  request-Prefix, fingerprint-Prefix, user-Prefix, device-Prefix, os-Prefix, app_version-Prefix,
  sdk_version-Prefix, installation-Prefix,
}
use code_scout.Search.Printable.{since_of, valid_level-PlainTag}

-- The variables of `Parse` when it has read the query up to some part.
abbrev pub listed : List Bytes → List Bytes → List Bytes → Reading
listed ls ts es = record start_reading {
  filter = record start_reading.filter { levels = ls; tags = ts; exclude_tags = es };
}

abbrev pub pick : Option Bool → Reading → Reading
pick n r = record r { filter = record r.filter { is_network = n } }

abbrev pub look_back : Time → Reading → Bytes → Reading
look_back now r l = record r {
  filter = record r.filter { since_label = l; since = since_of now l };
}

abbrev pub name_session : Reading → Option Uuid → Reading
name_session r u = record r { filter = record r.filter { session_id = u } }

abbrev pub name_request : Reading → Option Uuid → Reading
name_request r u = record r { filter = record r.filter { request_id = u } }

abbrev pub mark : Reading → Option Bytes → Reading
mark r s = record r { filter = record r.filter { fingerprint = s } }

abbrev pub place_in : Reading → SessionScope → Reading
place_in r s = record r { filter = record r.filter { session = s } }

abbrev pub text_list : Bytes → List Bytes
text_list [] = []
text_list (c ∷ v) = (c ∷ v) ∷ []

abbrev pub say : Reading → Bytes → Reading
say r v = record r { text_parts = text_list v }

module _ (parse_uuid : Bytes → Option Uuid) (id_text : Uuid → Bytes) (now : Time)
    (ids : (u : Uuid) → PlainTag (id_text u) × (parse_uuid (id_text u) ≡ some u)) where
  abbrev pub Makes : List Bytes → Reading → Reading → Type 0
  Makes = Chain parse_uuid now

  pub levels-Chain :
      (vs : List Bytes)
      → All (λ l. valid_level l ≡ true) vs
      → Distinct vs
      → Makes (prefixed (codes "level:") vs) (listed [] [] []) (listed vs [] [])
  unfolding set_field
  levels-Chain vs h d =
      prefixed-Chain parse_uuid now (codes "level:") false Field.level (λ ls. listed ls [] []) vs []
        level-Prefix
        (All-map _ _ (λ l k. (valid_level-PlainTag l k, λ start ys new. rw (k, new) refl)) vs h) d
        (All-map _ _ (λ l k. refl) vs h)

  pub tags-Chain :
      (ls vs : List Bytes)
      → All PlainTag vs
      → Distinct vs
      → Makes (prefixed (codes "tag:") vs) (listed ls [] []) (listed ls vs [])
  unfolding set_field
  tags-Chain ls vs h d =
      prefixed-Chain parse_uuid now (codes "tag:") false Field.tag (λ ts. listed ls ts []) vs []
        tag-Prefix (All-map _ _ (λ t k. (k, λ start ys new. rw new refl)) vs h) d
        (All-map _ _ (λ t k. refl) vs h)

  pub excluded-Chain :
      (ls ts vs : List Bytes)
      → All PlainTag vs
      → Distinct vs
      → Makes (prefixed (codes "-tag:") vs) (listed ls ts []) (listed ls ts vs)
  unfolding set_field
  excluded-Chain ls ts vs h d =
      prefixed-Chain parse_uuid now (codes "-tag:") true Field.tag (λ es. listed ls ts es) vs []
        excluded_tag-Prefix (All-map _ _ (λ t k. (k, λ start ys new. rw new refl)) vs h) d
        (All-map _ _ (λ t k. refl) vs h)

  pub network-Chain :
      (n : Option Bool) (r : Reading)
      → n ≢ some false
      → Makes (part_if (is_on n) (codes "is:network")) (pick none r) (pick n r)
  unfolding set_field equal
  network-Chain none r h = refl
  network-Chain (some false) r h = absurd (h refl)
  network-Chain (some true) r h = (
    pick (some true) r,
    plain-Does parse_uuid now (codes "is:") false Field.is (codes "network") (pick none r) _
        is-Prefix (refl, refl, refl) (λ start. refl),
    refl,
  )

  pub window-Does :
      (l : Bytes) (d : ℕ) (r : Reading)
      → PlainTag l
      → window l ≡ some d
      → Does parse_uuid now (codes "last:" ++ l) (look_back now r []) (look_back now r l)
  unfolding set_field since_of
  window-Does l d r plain known =
      plain-Does parse_uuid now (codes "last:") false Field.last l _ _ last-Prefix plain
        (λ start. rw (set_field, since_of, known) refl)

  pub session-Does :
      (u : Uuid) (r : Reading)
      → Does parse_uuid now
          (codes "session:" ++ id_text u)
          (name_session r none)
          (name_session r (some u))
  unfolding set_field
  session-Does u r =
      plain-Does parse_uuid now (codes "session:") false Field.session (id_text u) _ _
        session-Prefix (ids u).0 (λ start. rw (set_field, (ids u).1) refl)

  pub request-Does :
      (u : Uuid) (r : Reading)
      → Does parse_uuid now
          (codes "request:" ++ id_text u)
          (name_request r none)
          (name_request r (some u))
  unfolding set_field
  request-Does u r =
      plain-Does parse_uuid now (codes "request:") false Field.request (id_text u) _ _
        request-Prefix (ids u).0 (λ start. rw (set_field, (ids u).1) refl)

  pub fingerprint-Does :
      (s : Bytes) (r : Reading)
      → is_empty s ≡ false
      → any breaks s ≡ false
      → Does parse_uuid now (codes "fingerprint:" ++ quote_value s) (mark r none) (mark r (some s))
  unfolding set_field
  fingerprint-Does s r full clean =
      quoted-Does parse_uuid now (codes "fingerprint:") false Field.fingerprint s _ _
        fingerprint-Prefix full clean (λ start. refl)

  -- One string of the session's scope.
  scope_part-Chain :
      (prefix : Bytes) (field : Field) (put : Bytes → Reading) (v : Bytes)
      → Prefix prefix false field
      → any breaks v ≡ false
      → ((start : ℕ) → set_field parse_uuid now field false start v (put []) ≡ ok (put v))
      → Makes (part_if (not (is_empty v)) (prefix ++ quote_value v)) (put []) (put v)
  scope_part-Chain prefix field put v p clean set =
      part_if-Chain parse_uuid now (λ w. prefix ++ quote_value w) put v
        (λ full. quoted-Does parse_uuid now prefix false field v _ _ p full clean set)

  pub scope-Chain :
      (s : SessionScope) (r : Reading)
      → All (λ p. any breaks p.1 ≡ false) (fields s)
      → Makes (field_parts (fields s)) (place_in r no_scope) (place_in r s)
  unfolding field_parts set_field
  scope-Chain s r (user, (device, (os, (app, (sdk, (installed, _)))))) =
      let u : SessionScope = record no_scope { user = s.user } in
      let d : SessionScope = record u { device = s.device } in
      let o : SessionScope = record d { os = s.os } in
      let a : SessionScope = record o { app_version = s.app_version } in
      let k : SessionScope = record a { sdk_version = s.sdk_version } in
      let on = Chain-append parse_uuid now in
      on _ _ _ _ _
        (scope_part-Chain (codes "user:") Field.user
          (λ v. place_in r (record no_scope { user = v })) s.user user-Prefix user (λ start. refl))
        (on _ _ _ _ _
          (scope_part-Chain (codes "device:") Field.device
            (λ v. place_in r (record u { device = v })) s.device device-Prefix device
            (λ start. refl))
          (on _ _ _ _ _
            (scope_part-Chain (codes "os:") Field.os (λ v. place_in r (record d { os = v })) s.os
              os-Prefix os (λ start. refl))
            (on _ _ _ _ _
              (scope_part-Chain (codes "app_version:") Field.app_version
                (λ v. place_in r (record o { app_version = v })) s.app_version app_version-Prefix
                app (λ start. refl))
              (on _ _ _ _ _
                (scope_part-Chain (codes "sdk_version:") Field.sdk_version
                  (λ v. place_in r (record a { sdk_version = v })) s.sdk_version sdk_version-Prefix
                  sdk (λ start. refl))
                (on _ _ _ _ _
                  (scope_part-Chain (codes "installation:") Field.installation
                    (λ v. place_in r (record k { installation = v })) s.installation
                    installation-Prefix installed (λ start. refl))
                  refl)))))
