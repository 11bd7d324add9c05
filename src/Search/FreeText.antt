-- ===== src/Search/FreeText.antt =====
-- The text of a query, which `Query` of internal/domain/search_query.go writes last.
use code_scout.Common.{
  ℕ, ◌≡◌, ◌⊎◌, inl, inr, refl, sym, ◌∙◌, true, false, [], ◌∷◌, ◌++◌, Option, none, arith, ◌==◌, any,
  All, Bytes, ok, Bool-cases,
}
use code_scout.Domain.LiveSession.{Uuid, Time}
use code_scout.Search.Lexer.{leading_quote}
use code_scout.Search.Printer.{is_special, escape, quote_value}
use code_scout.Search.Parser.{Reading, minus, cut, add_text, take_word, take_token, one_token}
use code_scout.Search.Quoting.{any-cons, any-All}
use code_scout.Search.Chains.{Starts, Does}
use code_scout.Search.Words.{breaks, Clean, solid, quote_value-Writes}

minus-same : (t : Bytes) → (minus t).0 ≡ false → minus t ≡ (false, t)
unfolding minus
minus-same [] h = refl
minus-same (a ∷ []) h = refl
minus-same (a ∷ b ∷ t) h = ground arith

special-colon : (c : ℕ) → is_special c ≡ false → (c == b':') ≡ false
special-colon c h = ground arith

pub special-quote : (c : ℕ) → is_special c ≡ false → (c == b'"') ≡ false
special-quote c h = ground arith

pub cut-none : (t : Bytes) → any is_special t ≡ false → cut t ≡ none
unfolding cut
cut-none [] h = refl
cut-none (c ∷ t) h = let (e, rest) = any-cons c t h in rw (special-colon c e, cut-none t rest) refl

quote_value-cases :
    (t : Bytes)
    → ((any is_special t ≡ true) × (quote_value t ≡ b'"' ∷ escape t ++ b'"' ∷ []))
      ⊎ ((any is_special t ≡ false) × (quote_value t ≡ t))
unfolding quote_value
quote_value-cases t = elim (Bool-cases (any is_special t)) [
  | inl e ↦ inl (e, rw e refl)
  | inr e ↦ inr (e, rw e refl)
]

-- What a text must not look like, unless it is quoted: a token that is negated.
abbrev pub NotNegated : Bytes → Type 0
NotNegated t = (any is_special t ≡ true) ⊎ ((minus t).0 ≡ false)

module _ (parse_uuid : Bytes → Option Uuid) (now : Time) where
  pub text-Starts : (c : ℕ) (v : Bytes) → All Clean (c ∷ v) → Starts (quote_value (c ∷ v))
  text-Starts c v clean = elim (quote_value-cases (c ∷ v)) [
    | inl (e, q) ↦ record {
      head = b'"';
      behind = escape (c ∷ v) ++ b'"' ∷ [];
      is_head = q;
      head_solid = refl;
    }
    | inr (e, q) ↦ record {
      head = c;
      behind = v;
      is_head = q;
      head_solid = solid c clean.0 (any-cons c v e).0;
    }
  ]

  take_word-text :
      (start : ℕ) (t : Bytes) (r : Reading)
      → cut t ≡ none
      → take_word parse_uuid now start (false, t) r ≡ ok (add_text t r)
  unfolding take_word
  take_word-text start t r e = rw (take_word, e) refl

  take-text :
      (start c : ℕ) (v tail : Bytes) (r : Reading)
      → NotNegated (c ∷ v)
      → take_token parse_uuid now start (c ∷ v) (leading_quote (quote_value (c ∷ v) ++ tail)) r
        ≡ ok (add_text (c ∷ v) r)
  unfolding take_token
  take-text start c v tail r word = elim (quote_value-cases (c ∷ v)) [
    | inl (e, q) ↦ rw q refl
    | inr (e, q) ↦ elim word [
      | inl bad ↦ let clash : true ≡ false = sym bad ∙ e in cc
      | inr plain ↦
          rw (q, special-quote c (any-cons c v e).0, minus-same (c ∷ v) plain)
            (take_word-text start (c ∷ v) r (cut-none (c ∷ v) e))
    ]
  ]

  -- The text is one token, which becomes a part of the text.
  pub text-Does :
      (c : ℕ) (v : Bytes) (r : Reading)
      → any breaks (c ∷ v) ≡ false
      → NotNegated (c ∷ v)
      → Does parse_uuid now (quote_value (c ∷ v)) r (add_text (c ∷ v) r)
  unfolding one_token
  text-Does c v r unbroken word =
      let clean = any-All breaks (c ∷ v) unbroken in
      let w = quote_value-Writes c v clean in
      record {
        starts = text-Starts c v clean;
        ends = w.ends;
        taken = λ start tail g. rw (w.reads start tail g, take-text start c v tail r word) refl;
      }
