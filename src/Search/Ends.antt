-- ===== src/Search/Ends.antt =====
-- What the loops of pkg/search/parser.go leave of the query, round by round.
use code_scout.Common.{
  ℕ, zero, suc, ◌≤◌, ◌≡◌, ◌-◌, subst, inl, inr, refl, sym, ◌∙◌, Bool, true, false, ◌||◌, [], ◌∷◌,
  Option, some, arith, ◌==◌, length, Bytes, trim_space, Result, ok, err, Bool-cases, Result-cases,
}
use code_scout.Domain.LiveSession.{Uuid, Time}
use code_scout.Search.Filter.{SearchFilter}
use code_scout.Search.Lexer.{ParseError, symbol, write_byte, scan, leading_quote}
use code_scout.Search.Rounds.{
  Symbol-cases, gap-quote, backslash-quote, plain-quote, solid-symbol, scan_end, scan_nothing,
  scan_gap, scan_open, scan_close, scan_plain, scan_backslash, scan_escaped, scan_quoted_gap,
  scan_quoted_plain, scan-unclosed, read_tokens_gap, read_tokens_token, read_tokens_error,
}
use code_scout.Search.Parser.{
  Reading, take_token, one_token, read_tokens, finished, start_reading, parse,
}

-- What is left has at most `n` bytes.
abbrev Leaves {ℓ} : {A : Type ℓ} → ℕ → Result ParseError (A × Bytes) → Type 0
Leaves n (ok (a, rest)) = length rest ≤ n
Leaves n (err e) = Unit

write_byte-Leaves :
    (c n m : ℕ) (r : Result ParseError (Bytes × Bytes))
    → n ≤ m
    → Leaves n r
    → Leaves m (write_byte c r)
write_byte-Leaves c n m (ok (t, rest)) le h = omega (arith, h, le)
write_byte-Leaves c n m (err e) le h = tt

Leaves-le : (n m : ℕ) (r : Result ParseError (Bytes × Bytes)) → n ≤ m → Leaves n r → Leaves m r
Leaves-le n m (ok (t, rest)) le h = omega (arith, h, le)
Leaves-le n m (err e) le h = tt

scan-Leaves : (inside : Bool) (start : ℕ) (s : Bytes) → Leaves (length s) (scan inside start s)
scan-Leaves false start [] = rw scan_end (omega arith)
scan-Leaves false start (c ∷ cs) =
    let out =
      write_byte-Leaves c _ _ (scan false start cs) (omega arith) (scan-Leaves false start cs) in
    elim (Symbol-cases (symbol c)) [
      | inl e ↦ rw (scan_gap start c cs e) (omega arith)
      | inr (inl e) ↦
          rw (scan_open start c cs e)
            (Leaves-le _ _ (scan true start cs) (omega arith) (scan-Leaves true start cs))
      | inr (inr (inl e)) ↦ rw (scan_backslash start c cs e) out
      | inr (inr (inr e)) ↦ rw (scan_plain start c cs e) out
    ]
scan-Leaves true start [] = rw scan_nothing tt
scan-Leaves true start (c ∷ []) = elim (Symbol-cases (symbol c)) [
  | inl e ↦ rw (scan-unclosed start c (λ f. gap-quote (sym e ∙ f))) tt
  | inr (inl e) ↦ rw (scan_close start c [] e, scan_end) (omega arith)
  | inr (inr (inl e)) ↦ rw (scan-unclosed start c (λ f. backslash-quote (sym e ∙ f))) tt
  | inr (inr (inr e)) ↦ rw (scan-unclosed start c (λ f. plain-quote (sym e ∙ f))) tt
]
scan-Leaves true start (c ∷ d ∷ ds) =
    let within =
      write_byte-Leaves c _ _ (scan true start (d ∷ ds)) (omega arith)
        (scan-Leaves true start (d ∷ ds)) in
    elim (Symbol-cases (symbol c)) [
      | inl e ↦ rw (scan_quoted_gap start c d ds e) within
      | inr (inl e) ↦ rw (scan_close start c (d ∷ ds) e) (
          Leaves-le _ _ (scan false start (d ∷ ds)) (omega arith)
            (scan-Leaves false start (d ∷ ds)))
      | inr (inr (inl e)) ↦
          rw (scan_escaped start c d ds e)
            (write_byte-Leaves d _ _ (scan true start ds) (omega arith) (scan-Leaves true start ds))
      | inr (inr (inr e)) ↦ rw (scan_quoted_plain start c d ds e) within
    ]

-- A token that does not begin with a gap takes at least that byte.
scan-Leaves-less :
    (start c : ℕ) (cs : Bytes)
    → (c == b' ' || c == 9) ≡ false
    → Leaves (length cs) (scan false start (c ∷ cs))
scan-Leaves-less start c cs solid =
    let out =
      write_byte-Leaves c _ _ (scan false start cs) (omega arith) (scan-Leaves false start cs) in
    elim (Symbol-cases (symbol c)) [
      | inl e ↦ absurd (solid-symbol c solid e)
      | inr (inl e) ↦ rw (scan_open start c cs e) (scan-Leaves true start cs)
      | inr (inr (inl e)) ↦ rw (scan_backslash start c cs e) out
      | inr (inr (inr e)) ↦ rw (scan_plain start c cs e) out
    ]

-- The same of a whole round.
abbrev LeavesFor : ℕ → Result ParseError (Bytes × Reading) → Type 0
LeavesFor n (ok (rest, r)) = length rest ≤ n
LeavesFor n (err e) = Unit

module _ (parse_uuid : Bytes → Option Uuid) (now : Time) where
  one_token-Leaves :
      (start c : ℕ) (cs : Bytes) (r : Reading)
      → (c == b' ' || c == 9) ≡ false
      → LeavesFor (length cs) (one_token parse_uuid now start (c ∷ cs) r)
  unfolding one_token
  one_token-Leaves start c cs r solid =
      let less = scan-Leaves-less start c cs solid in
      elim (Result-cases (scan false start (c ∷ cs))) [
        | inl ((token, rest), e) ↦
            rw e
              (elim (Result-cases
                (take_token parse_uuid now start token (leading_quote (c ∷ cs)) r)) [
                  | inl (r', f) ↦ rw f (rw e at less)
                  | inr (f, g) ↦ rw g tt
                ])
        | inr (f, e) ↦ rw e tt
      ]

  -- With fuel for every byte the loop ends.
  read_tokens-ends :
      (fuel total : ℕ) (s : Bytes) (r : Reading)
      → length s ≤ fuel
      → (out : Result ParseError Reading) × (read_tokens parse_uuid now fuel total s r ≡ some out)
  unfolding read_tokens
  read_tokens-ends fuel total [] r le = (ok r, refl)
  read_tokens-ends zero total (c ∷ cs) r le = absurd (omega (arith, le))
  read_tokens-ends (suc fuel) total (c ∷ cs) r le = elim (Bool-cases (c == b' ' || c == 9)) [
    | inl blank ↦
        rw (read_tokens_gap parse_uuid now fuel total c cs r blank)
          (read_tokens-ends fuel total cs r (omega (arith, le)))
    | inr solid ↦
        let start = total - length (c ∷ cs) in
        let less = one_token-Leaves start c cs r solid in
        elim (Result-cases (one_token parse_uuid now start (c ∷ cs) r)) [
          | inl ((rest, r'), e) ↦
              rw (read_tokens_token parse_uuid now fuel total c cs r rest r' solid e) (
                read_tokens-ends fuel total rest r'
                  (omega (arith, le, subst (LeavesFor (length cs)) e less)))
          | inr (f, e) ↦ (err f, read_tokens_error parse_uuid now fuel total c cs r f solid e)
        ]
  ]

  -- `Parse` ends on every query: it returns a filter or an error.
  pub parse-ends :
      (query : Bytes)
      → (out : Result ParseError SearchFilter) × (parse parse_uuid now query ≡ some out)
  unfolding parse
  parse-ends query =
      let q = trim_space query in
      let (out, e) = read_tokens-ends (length q) (length q) q start_reading (omega arith) in
      elim (Result-cases out) [
        | inl (r, f) ↦ (ok (finished r), rw (e, f) refl)
        | inr (g, f) ↦ (err g, rw (e, f) refl)
      ]
