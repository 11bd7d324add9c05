-- ===== src/Search/Chains.antt =====
-- The loop of `Parse` on the parts that `Query` joined: what each part does to the variables.
use mathlib.Core.List.{reverse, reverse-append, reverse-reverse}
use code_scout.Common.{
  ℕ, zero, suc, ◌+◌, ◌-◌, subst, ◌≤◌, ◌≡◌, refl, sym, ◌∙◌, ap, false, ◌||◌, List, [], ◌∷◌, ◌++◌,
  Option, some, arith, ◌==◌, length, length-append, Bytes, is_blank, cut_front, cut_front-solid,
  wide_front, wide_back, NarrowEnds, trim_space, ok, append_assoc, append-nil,
}
use code_scout.Domain.LiveSession.{Uuid, Time}
use code_scout.Search.Lexer.{symbol, gap}
use code_scout.Search.Printer.{join}
use code_scout.Search.Parser.{
  Reading, one_token, read_tokens, finish, finished, start_reading, parse_trimmed, parse,
}
use code_scout.Search.Rounds.{read_tokens_gap, read_tokens_token}
use code_scout.Search.Quoting.{AtGap}

-- The text begins, or ends, with a byte that is not blank.
pub record Starts (p : Bytes) : Type 0 where
  pub head : ℕ
  pub behind : Bytes
  pub is_head : p ≡ head ∷ behind
  pub head_solid : is_blank head ≡ false

pub record Ends (p : Bytes) : Type 0 where
  pub front : Bytes
  pub last : ℕ
  pub is_last : p ≡ front ++ last ∷ []
  pub last_solid : is_blank last ≡ false

pub Starts-append : (p q : Bytes) → Starts p → Starts (p ++ q)
Starts-append p q h = record {
  head = h.head;
  behind = h.behind ++ q;
  is_head = ap (λ s. s ++ q) h.is_head;
  head_solid = h.head_solid;
}

pub Ends-append : (p q : Bytes) → Ends q → Ends (p ++ q)
Ends-append p q h = record {
  front = p ++ h.front;
  last = h.last;
  is_last = ap (λ s. p ++ s) h.is_last ∙ sym (append_assoc p h.front (h.last ∷ []));
  last_solid = h.last_solid;
}

cut_front-Starts :
    (wide : Bytes → ℕ) (n : ℕ) (p : Bytes) → Starts p → wide p ≡ 0 → cut_front wide n p ≡ p
cut_front-Starts wide n p h k =
    rw h.is_head (cut_front-solid wide n h.head h.behind h.head_solid (ap wide (sym h.is_head) ∙ k))

reverse-Starts : (p : Bytes) → Ends p → Starts (reverse p)
reverse-Starts p h = record {
  head = h.last;
  behind = reverse h.front;
  is_head = ap reverse h.is_last ∙ reverse-append h.front (h.last ∷ []);
  head_solid = h.last_solid;
}

-- There is nothing to cut off at solid ends.
pub trim_space-solid : (p : Bytes) → Starts p → Ends p → NarrowEnds p → trim_space p ≡ p
unfolding trim_space
trim_space-solid p h k narrow =
    ap (λ q. reverse (cut_front wide_back (length q) (reverse q)))
      (cut_front-Starts wide_front (length p) p h narrow.0)
    ∙ ap reverse (cut_front-Starts wide_back (length p) (reverse p) (reverse-Starts p k) narrow.1)
    ∙ reverse-reverse p

module _ (parse_uuid : Bytes → Option Uuid) (now : Time) where
  -- The part is one token, wherever it stands, that takes the variables from `r` to `r'`.
  pub record Does (p : Bytes) (r r' : Reading) : Type 0 where
    pub starts : Starts p
    pub ends : Ends p
    pub taken :
        (start : ℕ) (tail : Bytes)
        → AtGap tail
        → one_token parse_uuid now start (p ++ tail) r ≡ ok (tail, r')

  abbrev pub Chain : List Bytes → Reading → Reading → Type 0
  Chain [] r r'' = r ≡ r''
  Chain (p ∷ ps) r r'' = (r' : Reading) × Does p r r' × Chain ps r' r''

  pub Chain-append :
      (ps qs : List Bytes) (r r' r'' : Reading)
      → Chain ps r r'
      → Chain qs r' r''
      → Chain (ps ++ qs) r r''
  Chain-append [] qs r r' r'' h k = rw h k
  Chain-append (p ∷ ps) qs r r' r'' (s, d, h) k = (s, d, Chain-append ps qs s r' r'' h k)

  solid-gap : (c : ℕ) → is_blank c ≡ false → (c == b' ' || c == 9) ≡ false
  solid-gap c h = ground arith

  read_tokens-Does :
      (fuel total : ℕ) (p tail : Bytes) (r r' : Reading)
      → Does p r r'
      → AtGap tail
      → read_tokens parse_uuid now (suc fuel) total (p ++ tail) r
        ≡ read_tokens parse_uuid now fuel total tail r'
  read_tokens-Does fuel total p tail r r' d g =
      let h = d.starts in
      let eq = ap (λ q. q ++ tail) h.is_head in
      let start = total - length (p ++ tail) in
      let round : one_token parse_uuid now (total - length (h.head ∷ h.behind ++ tail))
            (h.head ∷ h.behind ++ tail) r
          ≡ ok (tail, r') =
        subst (λ q. one_token parse_uuid now (total - length q) q r ≡ ok (tail, r')) eq
          (d.taken start tail g) in
      ap (λ q. read_tokens parse_uuid now (suc fuel) total q r) eq
      ∙ read_tokens_token parse_uuid now fuel total h.head (h.behind ++ tail) r tail r'
          (solid-gap h.head h.head_solid) round

  symbol_blank : symbol b' ' ≡ gap
  unfolding symbol
  symbol_blank = refl

  -- Fuel for a part is fuel for one round and more.
  fuel-Starts :
      (fuel : ℕ) (p : Bytes)
      → Starts p
      → length p ≤ fuel
      → (fuel' : ℕ) × (fuel ≡ suc fuel') × (length p ≤ suc fuel')
  fuel-Starts zero p h le = absurd (omega (arith, le, ap length h.is_head))
  fuel-Starts (suc n) p h le = (n, refl, le)

  join-Starts : (p : Bytes) (ps : List Bytes) → Starts p → Starts (join (p ∷ ps))
  unfolding join
  join-Starts p [] h = h
  join-Starts p (q ∷ ps) h = Starts-append p _ h

  join-Ends :
      (p : Bytes) (ps : List Bytes) (r r' : Reading) → Chain (p ∷ ps) r r' → Ends (join (p ∷ ps))
  unfolding join
  join-Ends p [] r r' (s, d, h) = d.ends
  join-Ends p (q ∷ ps) r r' (s, d, h) =
      Ends-append p _ (Ends-append (b' ' ∷ []) _ (join-Ends q ps s r' h))

  read_tokens-Chain :
      (fuel total : ℕ) (ps : List Bytes) (r r' : Reading)
      → length (join ps) ≤ fuel
      → Chain ps r r'
      → read_tokens parse_uuid now fuel total (join ps) r ≡ some (ok r')
  unfolding join read_tokens
  read_tokens-Chain fuel total [] r r' le h = ap (λ x. some (ok x)) h
  read_tokens-Chain fuel total (p ∷ []) r r' le (s, d, h) =
      let (fuel', more, room) = fuel-Starts fuel p d.starts le in
      ap (λ n. read_tokens parse_uuid now n total p r) more
      ∙ ap (λ q. read_tokens parse_uuid now (suc fuel') total q r) (sym (append-nil p))
      ∙ read_tokens-Does fuel' total p [] r s d tt
      ∙ ap (λ x. some (ok x)) h
  read_tokens-Chain fuel total (p ∷ q ∷ ps) r r' le (s, d, h) =
      let tail = join (q ∷ ps) in
      let long = length-append p (b' ' ∷ tail) in
      let (fuel', more, room) =
        fuel-Starts (fuel - suc (length tail)) p d.starts (omega (arith, le, long)) in
      let split : fuel ≡ suc (suc (fuel' + length tail)) = omega (arith, more, le, long) in
      ap (λ n. read_tokens parse_uuid now n total (p ++ b' ' ∷ tail) r) split
      ∙ read_tokens-Does (suc (fuel' + length tail)) total p (b' ' ∷ tail) r s d symbol_blank
      ∙ read_tokens_gap parse_uuid now (fuel' + length tail) total b' ' tail s refl
      ∙ read_tokens-Chain (fuel' + length tail) total (q ∷ ps) s r' (omega arith) h

  -- `Parse` of parts that do their work one after the other.
  pub parse-Chain :
      (ps : List Bytes) (r : Reading)
      → Chain ps start_reading r
      → NarrowEnds (join ps)
      → parse parse_uuid now (join ps) ≡ some (ok (finished r))
  unfolding parse join read_tokens trim_space cut_front
  parse-Chain [] r h narrow = ap (λ x. some (ok (finished x))) h
  parse-Chain (p ∷ ps) r (s, d, h) narrow =
      let q = join (p ∷ ps) in
      ap (parse_trimmed parse_uuid now) (
        trim_space-solid q (join-Starts p ps d.starts) (join-Ends p ps start_reading r (s, d, h))
          narrow)
      ∙ ap finish
          (read_tokens-Chain (length q) (length q) (p ∷ ps) start_reading r (omega arith) (s, d, h))
