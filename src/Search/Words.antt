-- ===== src/Search/Words.antt =====
-- What one part of a query does, part by part of `Query` in internal/domain/search_query.go.
use code_scout.Common.{
  ℕ, ◌≡◌, refl, ◌∙◌, ap, Bool, false, ◌&&◌, [], ◌∷◌, ◌++◌, Option, arith, leb, any, All, Bytes,
  is_blank, ok, Bool-cases, append_assoc, append-nil, inl, inr, All-map, All-both,
}
use code_scout.Domain.LiveSession.{Uuid, Time}
use code_scout.Search.Fields.{Field}
use code_scout.Search.Lexer.{scan, leading_quote}
use code_scout.Search.Printer.{is_special, escape, quote_value}
use code_scout.Search.Parser.{Reading, set_field, take_token, one_token}
use code_scout.Search.Quoting.{
  AtGap, Bare, ends_word, any-All, any-cons, scan-append, scan-quote_value, scan-AtGap,
}
use code_scout.Search.Chains.{Starts, Ends, Starts-append, Ends-append, Does}

-- The white space that a query does not quote: line feed, vertical tab, form feed, carriage return.
abbrev pub breaks : ℕ → Bool
breaks c = leb 10 c && leb c 13

abbrev pub Clean : ℕ → Type 0
Clean c = breaks c ≡ false

-- The text `w` is read as the value `v`.
pub record Writes (w v : Bytes) : Type 0 where
  pub ends : Ends w
  pub reads : (start : ℕ) (tail : Bytes) → AtGap tail → scan false start (w ++ tail) ≡ ok (v, tail)

Bare-solid : (c : ℕ) → Clean c × Bare c → is_blank c ≡ false
Bare-solid c h = ground arith

pub solid : (c : ℕ) → Clean c → is_special c ≡ false → is_blank c ≡ false
solid c h k = ground arith

All-solid : (v : Bytes) → All Clean v → any is_special v ≡ false → All (λ c. is_blank c ≡ false) v
All-solid [] h k = tt
All-solid (c ∷ v) h k = let (e, rest) = any-cons c v k in (solid c h.0 e, All-solid v h.1 rest)

All-Ends : (c : ℕ) (v : Bytes) → All (λ c. is_blank c ≡ false) (c ∷ v) → Ends (c ∷ v)
All-Ends c [] h = record { front = []; last = c; is_last = refl; last_solid = h.0 }
All-Ends c (d ∷ v) h = Ends-append (c ∷ []) (d ∷ v) (All-Ends d v h.1)

-- What `quoteValue` writes is read as the value.
pub quote_value-Writes :
    (c : ℕ) (v : Bytes) → All Clean (c ∷ v) → Writes (quote_value (c ∷ v)) (c ∷ v)
unfolding quote_value
quote_value-Writes c v h = record {
  reads = λ start tail g. scan-quote_value start (c ∷ v) tail g;
  ends = elim (Bool-cases (any is_special (c ∷ v))) [
    | inl e ↦ rw e (
        Ends-append (b'"' ∷ escape (c ∷ v)) (b'"' ∷ [])
          (record { front = []; last = b'"'; is_last = refl; last_solid = refl }))
    | inr e ↦ rw e (All-Ends c v (All-solid (c ∷ v) h e))
  ];
}

-- Without a byte that ends a token or opens a quote, a value is written as it is.
pub Bare-Writes :
    (c : ℕ) (v : Bytes) → All Clean (c ∷ v) → any ends_word (c ∷ v) ≡ false → Writes (c ∷ v) (c ∷ v)
Bare-Writes c v h k =
    let b = any-All ends_word (c ∷ v) k in
    record {
      ends = All-Ends c v (All-map _ _ Bare-solid (c ∷ v) (All-both _ _ (c ∷ v) h b));
      reads = λ start tail g.
          scan-append start (c ∷ v) tail [] tail b (scan-AtGap start tail g)
          ∙ ap (λ t. ok (t, tail)) (append-nil (c ∷ v));
    }

-- A name with its colon, for the case of the switch that it leads to.
pub record Prefix (prefix : Bytes) (negated : Bool) (field : Field) : Type 0 where
  pub starts : Starts prefix
  pub bare : any ends_word prefix ≡ false
  pub unquoted : (w : Bytes) → leading_quote (prefix ++ w) ≡ false
  pub taken :
      (parse_uuid : Bytes → Option Uuid) (now : Time) (start c : ℕ) (v : Bytes) (r : Reading)
      → take_token parse_uuid now start (prefix ++ c ∷ v) false r
        ≡ set_field parse_uuid now field negated start (c ∷ v) r

module _ (parse_uuid : Bytes → Option Uuid) (now : Time) where
  pub field-Does :
      (prefix : Bytes) (negated : Bool) (field : Field) (w : Bytes) (c : ℕ) (v : Bytes)
      (r r' : Reading)
      → Prefix prefix negated field
      → Writes w (c ∷ v)
      → ((start : ℕ) → set_field parse_uuid now field negated start (c ∷ v) r ≡ ok r')
      → Does parse_uuid now (prefix ++ w) r r'
  unfolding one_token
  field-Does prefix negated field w c v r r' p h set = record {
    starts = Starts-append prefix w p.starts;
    ends = Ends-append prefix w h.ends;
    taken = λ start tail g.
        rw
          (
            append_assoc,
            scan-append start prefix (w ++ tail) (c ∷ v) tail (any-All ends_word prefix p.bare)
                (h.reads start tail g),
            p.unquoted (w ++ tail),
            p.taken parse_uuid now start c v r,
            set start,
          )
          refl;
  }
