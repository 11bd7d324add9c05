-- ===== src/Search/Rounds.antt =====
-- The rounds of the loops that read a token and a query, one by one.
use code_scout.Common.{
  ℕ, suc, ◌-◌, ◌≡◌, ◌≢◌, ◌⊎◌, inl, inr, refl, true, false, ◌||◌, [], ◌∷◌, Option, some, arith, ◌==◌,
  length, Bytes, ok, err,
}
use code_scout.Domain.LiveSession.{Uuid, Time}
use code_scout.Search.Lexer.{
  ParseError, Symbol, symbol, gap, quote, backslash, plain, write_byte, unclosed, scan,
}
use code_scout.Search.Parser.{Reading, one_token, read_tokens}

pub Symbol-cases : (s : Symbol) → (s ≡ gap) ⊎ (s ≡ quote) ⊎ (s ≡ backslash) ⊎ (s ≡ plain)
Symbol-cases gap = inl refl
Symbol-cases quote = inr (inl refl)
Symbol-cases backslash = inr (inr (inl refl))
Symbol-cases plain = inr (inr (inr refl))

pub solid-symbol : (c : ℕ) → (c == b' ' || c == 9) ≡ false → symbol c ≢ gap
unfolding symbol
solid-symbol c solid = ground arith

pub gap-quote : gap ≢ quote
gap-quote e = cc

pub backslash-quote : backslash ≢ quote
backslash-quote e = cc

pub plain-quote : plain ≢ quote
plain-quote e = cc

module _ (start : ℕ) where
  pub scan_end : scan false start [] ≡ ok ([], [])
  unfolding scan
  scan_end = refl

  pub scan_nothing : scan true start [] ≡ unclosed start
  unfolding scan
  scan_nothing = refl

  pub scan_gap : (c : ℕ) (cs : Bytes) → symbol c ≡ gap → scan false start (c ∷ cs) ≡ ok ([], c ∷ cs)
  unfolding scan
  scan_gap c cs e = rw (scan, e) refl

  pub scan_open :
      (c : ℕ) (cs : Bytes) → symbol c ≡ quote → scan false start (c ∷ cs) ≡ scan true start cs
  unfolding scan
  scan_open c cs e = rw (scan, e) refl

  pub scan_close :
      (c : ℕ) (cs : Bytes) → symbol c ≡ quote → scan true start (c ∷ cs) ≡ scan false start cs
  unfolding scan
  scan_close c [] e = rw (scan, e) refl
  scan_close c (d ∷ ds) e = rw (scan, e) refl

  pub scan_plain :
      (c : ℕ) (cs : Bytes)
      → symbol c ≡ plain
      → scan false start (c ∷ cs) ≡ write_byte c (scan false start cs)
  unfolding scan
  scan_plain c cs e = rw (scan, e) refl

  pub scan_backslash :
      (c : ℕ) (cs : Bytes)
      → symbol c ≡ backslash
      → scan false start (c ∷ cs) ≡ write_byte c (scan false start cs)
  unfolding scan
  scan_backslash c cs e = rw (scan, e) refl

  pub scan_escaped :
      (c d : ℕ) (ds : Bytes)
      → symbol c ≡ backslash
      → scan true start (c ∷ d ∷ ds) ≡ write_byte d (scan true start ds)
  unfolding scan
  scan_escaped c d ds e = rw (scan, e) refl

  pub scan_quoted_gap :
      (c d : ℕ) (ds : Bytes)
      → symbol c ≡ gap
      → scan true start (c ∷ d ∷ ds) ≡ write_byte c (scan true start (d ∷ ds))
  unfolding scan
  scan_quoted_gap c d ds e = rw (scan, e) refl

  pub scan_quoted_plain :
      (c d : ℕ) (ds : Bytes)
      → symbol c ≡ plain
      → scan true start (c ∷ d ∷ ds) ≡ write_byte c (scan true start (d ∷ ds))
  unfolding scan
  scan_quoted_plain c d ds e = rw (scan, e) refl

  pub scan-unclosed : (c : ℕ) → symbol c ≢ quote → scan true start (c ∷ []) ≡ unclosed start
  unfolding scan
  scan-unclosed c n = elim (Symbol-cases (symbol c)) [
    | inl e ↦ rw (scan, e) refl
    | inr (inl e) ↦ absurd (n e)
    | inr (inr (inl e)) ↦ rw (scan, e) refl
    | inr (inr (inr e)) ↦ rw (scan, e) refl
  ]

module _ (parse_uuid : Bytes → Option Uuid) (now : Time) (fuel total : ℕ) where
  pub read_tokens_gap :
      (c : ℕ) (cs : Bytes) (r : Reading)
      → (c == b' ' || c == 9) ≡ true
      → read_tokens parse_uuid now (suc fuel) total (c ∷ cs) r
        ≡ read_tokens parse_uuid now fuel total cs r
  unfolding read_tokens
  read_tokens_gap c cs r e = rw (read_tokens, e) refl

  pub read_tokens_token :
      (c : ℕ) (cs : Bytes) (r : Reading) (rest : Bytes) (r' : Reading)
      → (c == b' ' || c == 9) ≡ false
      → one_token parse_uuid now (total - length (c ∷ cs)) (c ∷ cs) r ≡ ok (rest, r')
      → read_tokens parse_uuid now (suc fuel) total (c ∷ cs) r
        ≡ read_tokens parse_uuid now fuel total rest r'
  unfolding read_tokens
  read_tokens_token c cs r rest r' e f = rw (read_tokens, e, f) refl

  pub read_tokens_error :
      (c : ℕ) (cs : Bytes) (r : Reading) (f : ParseError)
      → (c == b' ' || c == 9) ≡ false
      → one_token parse_uuid now (total - length (c ∷ cs)) (c ∷ cs) r ≡ err f
      → read_tokens parse_uuid now (suc fuel) total (c ∷ cs) r ≡ some (err f)
  unfolding read_tokens
  read_tokens_error c cs r f e g = rw (read_tokens, e, g) refl
