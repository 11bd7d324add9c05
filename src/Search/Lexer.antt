-- ===== src/Search/Lexer.antt =====
-- `readToken` of pkg/search/parser.go. Where the source has a position `i` in the query, the functions
-- have what is left of it from there; `start` is the position of the token.
use code_scout.Common.{
  ℕ, Bool, true, false, [], ◌∷◌, Result, ok, err, if◌then◌else◌, ◌==◌, Bytes, codes,
}

pub record ParseError : Type 0 where
  pub position : ℕ
  pub message : Bytes

-- How `readToken` looks at a byte.
pub data Symbol : Type 0 where
  gap quote backslash plain : Symbol

unfoldable pub symbol : ℕ → Symbol
symbol c =
    if c == b'"'
    then quote
    else if c == b' '
    then gap
    else if c == 9
    then gap
    else if c == b'\\'
    then backslash
    else plain

-- `b.WriteByte(c)` before the rest of the token
abbrev pub write_byte : ℕ → Result ParseError (Bytes × Bytes) → Result ParseError (Bytes × Bytes)
write_byte c (ok (token, rest)) = ok (c ∷ token, rest)
write_byte c (err e) = err e

abbrev pub unclosed : ℕ → Result ParseError (Bytes × Bytes)
unclosed start = err (record { position = start; message = codes "unclosed quote" })

-- The two loops of `readToken`: the inner one, between quotes, is that with `true`. The result is the
-- token and what is left behind it.
unfoldable pub scan : Bool → ℕ → Bytes → Result ParseError (Bytes × Bytes)
scan false start [] = ok ([], [])
scan false start (c ∷ cs) = elim (symbol c) [
  | gap ↦ ok ([], c ∷ cs)
  | quote ↦ scan true start cs
  | backslash ↦ write_byte c (scan false start cs)
  | plain ↦ write_byte c (scan false start cs)
]
scan true start [] = unclosed start
scan true start (c ∷ []) = elim (symbol c) [
  | quote ↦ scan false start []
  | gap ↦ unclosed start
  | backslash ↦ unclosed start
  | plain ↦ unclosed start
]
scan true start (c ∷ d ∷ ds) = elim (symbol c) [
  | quote ↦ scan false start (d ∷ ds)
  | backslash ↦ write_byte d (scan true start ds)
  | gap ↦ write_byte c (scan true start (d ∷ ds))
  | plain ↦ write_byte c (scan true start (d ∷ ds))
]

abbrev pub leading_quote : Bytes → Bool
leading_quote [] = false
leading_quote (c ∷ cs) = c == b'"'
