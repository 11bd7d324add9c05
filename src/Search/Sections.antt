-- ===== src/Search/Sections.antt =====
-- What the sections of a query do, one after the other: the lists, the optional values and the strings
-- of `Query` in internal/domain/search_query.go.
use code_scout.Common.{
  ℕ, ◌≡◌, refl, sym, ap, subst, Bool, false, not, List, [], ◌∷◌, ◌++◌, Option, none, some, any, All,
  All-map, All-both, Distinct, Bytes, is_empty, ok, append_assoc, append-nil,
}
use code_scout.Domain.LiveSession.{Uuid, Time}
use code_scout.Search.Filter.{contains}
use code_scout.Search.Fields.{Field}
use code_scout.Search.Printer.{prefixed, part_of, part_if, quote_value}
use code_scout.Search.Parser.{Reading, set_field}
use code_scout.Search.Quoting.{ends_word, any-All}
use code_scout.Search.Chains.{Does, Chain}
use code_scout.Search.Words.{breaks, Bare-Writes, quote_value-Writes, Prefix, field-Does}
use code_scout.Search.Sorting.{contains-concat}

-- A value that stands in a query as it is.
abbrev pub PlainTag : Bytes → Type 0
PlainTag t = (is_empty t ≡ false) × (any breaks t ≡ false) × (any ends_word t ≡ false)

module _ (parse_uuid : Bytes → Option Uuid) (now : Time) where
  -- A value that is written as it is.
  pub plain-Does :
      (prefix : Bytes) (negated : Bool) (field : Field) (v : Bytes) (r r' : Reading)
      → Prefix prefix negated field
      → PlainTag v
      → ((start : ℕ) → set_field parse_uuid now field negated start v r ≡ ok r')
      → Does parse_uuid now (prefix ++ v) r r'
  plain-Does prefix negated field [] r r' p (full, clean, bare) set = cc
  plain-Does prefix negated field (c ∷ v) r r' p (full, clean, bare) set =
      field-Does parse_uuid now prefix negated field (c ∷ v) c v r r' p
        (Bare-Writes c v (any-All breaks (c ∷ v) clean) bare) set

  -- A value that may be quoted.
  pub quoted-Does :
      (prefix : Bytes) (negated : Bool) (field : Field) (v : Bytes) (r r' : Reading)
      → Prefix prefix negated field
      → is_empty v ≡ false
      → any breaks v ≡ false
      → ((start : ℕ) → set_field parse_uuid now field negated start v r ≡ ok r')
      → Does parse_uuid now (prefix ++ quote_value v) r r'
  quoted-Does prefix negated field [] r r' p full clean set = cc
  quoted-Does prefix negated field (c ∷ v) r r' p full clean set =
      field-Does parse_uuid now prefix negated field (quote_value (c ∷ v)) c v r r' p
        (quote_value-Writes c v (any-All breaks (c ∷ v) clean)) set

  -- The members of a list, which are added one by one.
  pub prefixed-Chain :
      (prefix : Bytes) (negated : Bool) (field : Field) (put : List Bytes → Reading)
      (vs xs : List Bytes)
      → Prefix prefix negated field
      → All
          (λ v.
            PlainTag v
            × ((start : ℕ) (ys : List Bytes)
                → contains ys v ≡ false
                → set_field parse_uuid now field negated start v (put ys)
                  ≡ ok (put (ys ++ v ∷ []))))
          vs
      → Distinct vs
      → All (λ v. contains xs v ≡ false) vs
      → Chain parse_uuid now (prefixed prefix vs) (put xs) (put (xs ++ vs))
  prefixed-Chain prefix negated field put [] xs p h d new = ap put (sym (append-nil xs))
  prefixed-Chain prefix negated field put (v ∷ vs) xs p h d new = (
    put (xs ++ v ∷ []),
    plain-Does prefix negated field v (put xs) (put (xs ++ v ∷ [])) p (h.0).0
        (λ start. (h.0).1 start xs new.0),
    subst (λ ys. Chain parse_uuid now (prefixed prefix vs) (put (xs ++ v ∷ [])) (put ys))
        (append_assoc xs (v ∷ []) vs)
        (prefixed-Chain prefix negated field put vs (xs ++ v ∷ []) p h.1 d.1 (
          All-map _ _ (λ w (n, k). contains-concat xs v w (λ e. n (sym e)) k) vs
            (All-both _ _ vs d.0 new.1))),
  )

  -- An optional value.
  pub part_of-Chain :
      {A : Type 0} (show : A → Bytes) (put : Option A → Reading) (o : Option A)
      → ((a : A) → o ≡ some a → Does parse_uuid now (show a) (put none) (put (some a)))
      → Chain parse_uuid now (part_of show o) (put none) (put o)
  part_of-Chain show put none h = refl
  part_of-Chain show put (some a) h = (put (some a), h a refl, refl)

  -- A string that is left out if it is empty.
  pub part_if-Chain :
      (show : Bytes → Bytes) (put : Bytes → Reading) (v : Bytes)
      → (is_empty v ≡ false → Does parse_uuid now (show v) (put []) (put v))
      → Chain parse_uuid now (part_if (not (is_empty v)) (show v)) (put []) (put v)
  part_if-Chain show put [] h = refl
  part_if-Chain show put (c ∷ v) h = (put (c ∷ v), h refl, refl)
