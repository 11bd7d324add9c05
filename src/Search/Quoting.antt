-- ===== src/Search/Quoting.antt =====
-- What `readToken` of pkg/search/parser.go makes of what `quoteValue` of
-- internal/domain/search_query.go wrote.
use code_scout.Common.{
  ℕ, ◌≡◌, ◌≢◌, inl, inr, refl, ◌∙◌, ap, Bool, true, false, ◌||◌, [], ◌∷◌, ◌++◌, arith, ◌==◌, any,
  All, Bytes, ok, Bool-cases, append_assoc, append-nil,
}
use code_scout.Search.Lexer.{symbol, gap, quote, backslash, write_byte, scan}
use code_scout.Search.Printer.{is_special, escape, quote_value}
use code_scout.Search.Rounds.{
  Symbol-cases, scan_end, scan_gap, scan_open, scan_close, scan_plain, scan_backslash, scan_escaped,
  scan_quoted_gap, scan_quoted_plain, scan-unclosed,
}

-- A token ends here.
abbrev pub AtGap : Bytes → Type 0
AtGap [] = Unit
AtGap (c ∷ s) = symbol c ≡ gap

-- A byte that does not stand for itself in a token.
abbrev pub ends_word : ℕ → Bool
ends_word c = c == b' ' || c == 9 || c == b'"'

abbrev pub Bare : ℕ → Type 0
Bare c = ends_word c ≡ false

Bare-symbol : (c : ℕ) → Bare c → (symbol c ≢ gap) × (symbol c ≢ quote)
unfolding symbol
Bare-symbol c h = ground arith

-- What no member passes, every member fails.
pub any-All : (p : ℕ → Bool) (s : Bytes) → any p s ≡ false → All (λ c. p c ≡ false) s
any-All p [] h = tt
any-All p (c ∷ s) h = elim (Bool-cases (p c)) [
  | inl e ↦ let clash : true ≡ false = rw e at h in cc
  | inr e ↦ (e, any-All p s (rw e at h))
]

pub any-cons :
    (c : ℕ) (s : Bytes)
    → any is_special (c ∷ s) ≡ false
    → (is_special c ≡ false) × (any is_special s ≡ false)
any-cons c s h = ground arith

Bare-special : (c : ℕ) → is_special c ≡ false → Bare c
Bare-special c h = ground arith

pub All-Bare : (s : Bytes) → any is_special s ≡ false → All Bare s
All-Bare [] h = tt
All-Bare (c ∷ s) h = let (e, rest) = any-cons c s h in (Bare-special c e, All-Bare s rest)

symbol_hidden :
    (c : ℕ) → (c == b'\\' || c == b'"') ≡ false → (symbol c ≢ quote) × (symbol c ≢ backslash)
unfolding symbol
symbol_hidden c h = ground arith

symbol_quote : symbol b'"' ≡ quote
unfolding symbol
symbol_quote = refl

symbol_backslash : symbol b'\\' ≡ backslash
unfolding symbol
symbol_backslash = refl

module _ (start : ℕ) where
  pub scan-AtGap : (tail : Bytes) → AtGap tail → scan false start tail ≡ ok ([], tail)
  scan-AtGap [] g = scan_end start
  scan-AtGap (c ∷ s) g = scan_gap start c s g

  scan-Bare :
      (c : ℕ) (s : Bytes) → Bare c → scan false start (c ∷ s) ≡ write_byte c (scan false start s)
  scan-Bare c s b = elim (Symbol-cases (symbol c)) [
    | inl e ↦ absurd ((Bare-symbol c b).0 e)
    | inr (inl e) ↦ absurd ((Bare-symbol c b).1 e)
    | inr (inr (inl e)) ↦ scan_backslash start c s e
    | inr (inr (inr e)) ↦ scan_plain start c s e
  ]

  pub scan-append :
      (p s t tail : Bytes)
      → All Bare p
      → scan false start s ≡ ok (t, tail)
      → scan false start (p ++ s) ≡ ok (p ++ t, tail)
  scan-append [] s t tail b e = e
  scan-append (c ∷ p) s t tail b e =
      scan-Bare c (p ++ s) b.0 ∙ ap (write_byte c) (scan-append p s t tail b.1 e)

  scan_inside :
      (c : ℕ) (s : Bytes)
      → symbol c ≢ quote
      → symbol c ≢ backslash
      → scan true start (c ∷ s) ≡ write_byte c (scan true start s)
  unfolding scan
  scan_inside c [] n m = scan-unclosed start c n
  scan_inside c (d ∷ s) n m = elim (Symbol-cases (symbol c)) [
    | inl e ↦ scan_quoted_gap start c d s e
    | inr (inl e) ↦ absurd (n e)
    | inr (inr (inl e)) ↦ absurd (m e)
    | inr (inr (inr e)) ↦ scan_quoted_plain start c d s e
  ]

  scan-escape :
      (s tail : Bytes) → AtGap tail → scan true start (escape s ++ b'"' ∷ tail) ≡ ok (s, tail)
  unfolding escape
  scan-escape [] tail g = scan_close start b'"' tail symbol_quote ∙ scan-AtGap tail g
  scan-escape (c ∷ s) tail g = elim (Bool-cases (c == b'\\' || c == b'"')) [
    | inl e ↦ rw e (
        scan_escaped start b'\\' c (escape s ++ b'"' ∷ tail) symbol_backslash
        ∙ ap (write_byte c) (scan-escape s tail g))
    | inr e ↦
        let (n, m) = symbol_hidden c e in
        rw e
          (scan_inside c (escape s ++ b'"' ∷ tail) n m ∙ ap (write_byte c) (scan-escape s tail g))
  ]

  -- A value that `quoteValue` wrote reads back, up to the blank or the end behind it.
  pub scan-quote_value :
      (s tail : Bytes) → AtGap tail → scan false start (quote_value s ++ tail) ≡ ok (s, tail)
  unfolding quote_value
  scan-quote_value s tail g = elim (Bool-cases (any is_special s)) [
    | inl e ↦
        rw (e, append_assoc)
          (scan_open start b'"' (escape s ++ b'"' ∷ tail) symbol_quote ∙ scan-escape s tail g)
    | inr e ↦ rw e (
        scan-append s tail [] tail (All-Bare s e) (scan-AtGap tail g)
        ∙ ap (λ t. ok (t, tail)) (append-nil s))
  ]
