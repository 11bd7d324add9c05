-- ===== src/Search/Parser.antt =====
-- `Parse` of pkg/search/parser.go. `uuid.Parse` is the parameter `parse_uuid`; a moment before the
-- time's zero is the zero. The rest of the query stands for the position in it.
use code_scout.Common.{
  ℕ, zero, suc, ◌+◌, ◌-◌, Bool, true, false, ◌||◌, ◌&&◌, not, List, [], ◌∷◌, ◌++◌, Option, none,
  some, if◌then◌else◌, ◌==◌, length, Bytes, codes, equal, is_empty, trim_space, Result, ok, err,
  ◌>>=◌,
}
use code_scout.Domain.LiveSession.{Uuid, Time}
use code_scout.Search.Filter.{SearchFilter, SessionScope, no_filter, contains}
use code_scout.Search.Fields.{Field, field_of, is_tag, valid_level, valid_field_list, window}
use code_scout.Search.Lexer.{ParseError, scan, leading_quote}
use code_scout.Search.Printer.{join}

-- The variables that the loop of `Parse` changes, `i` apart.
pub record Reading : Type 0 where
  pub filter : SearchFilter
  pub text_parts : List Bytes

abbrev pub fail : ℕ → Bytes → Result ParseError Reading
fail position message = err (record { position = position; message = message })

-- The leading minus, and the token without it.
unfoldable pub minus : Bytes → Bool × Bytes
minus [] = (false, [])
minus (a ∷ []) = (false, a ∷ [])
minus (a ∷ b ∷ s) = if a == b'-' then (true, b ∷ s) else (false, a ∷ b ∷ s)

-- The token on both sides of its first colon, if it has one.
unfoldable pub cut : Bytes → Option (Bytes × Bytes)
cut [] = none
cut (c ∷ s) =
    if c == b':'
    then some ([], s)
    else elim (cut s) [ none ↦ none | some (name, value) ↦ some (c ∷ name, value) ]

-- `append` for a value that is not there yet.
abbrev pub add_new : List Bytes → Bytes → List Bytes
add_new xs x = if contains xs x then xs else xs ++ x ∷ []

abbrev pub with_filter : Reading → SearchFilter → Result ParseError Reading
with_filter r f = ok (record r { filter = f })

abbrev pub with_scope : Reading → SessionScope → Result ParseError Reading
with_scope r s = with_filter r (record r.filter { session = s })

abbrev pub add_text : Bytes → Reading → Reading
add_text token r = record r { text_parts = r.text_parts ++ token ∷ [] }

abbrev pub add_level : ℕ → Bytes → Reading → Result ParseError Reading
add_level start value r =
    if valid_level value
    then with_filter r (record r.filter { levels = add_new r.filter.levels value })
    else fail start (
        codes "invalid level '"
        ++ value
        ++ codes "'. Valid: info, debug, warning, error, fatal, verbose, system")

abbrev pub add_tag : Bool → Bytes → Reading → Result ParseError Reading
add_tag true value r =
    with_filter r (record r.filter { exclude_tags = add_new r.filter.exclude_tags value })
add_tag false value r = with_filter r (record r.filter { tags = add_new r.filter.tags value })

abbrev pub take_bare : ℕ → Bool → Bytes → Reading → Result ParseError Reading
take_bare start negated token r =
    if negated
    then fail start (codes "only tags can be negated: -tag:noise")
    else ok (add_text token r)

-- After the loop.
abbrev pub finished : Reading → SearchFilter
finished r = elim r.text_parts [
  | [] ↦ r.filter
  | _ ∷ _ ↦ record r.filter { text_query = join r.text_parts }
]

abbrev pub start_reading : Reading
start_reading = record { filter = no_filter; text_parts = [] }

abbrev pub finish : Option (Result ParseError Reading) → Option (Result ParseError SearchFilter)
finish none = none
finish (some (err e)) = some (err e)
finish (some (ok r)) = some (ok (finished r))

module _ (parse_uuid : Bytes → Option Uuid) (now : Time) where
  -- The switch over the fields.
  unfoldable pub set_field : Field → Bool → ℕ → Bytes → Reading → Result ParseError Reading
  set_field Field.level negated start value r = add_level start value r
  set_field Field.tag negated start value r = add_tag negated value r
  set_field Field.last negated start value r = elim (window value) [
    | none ↦
        fail start (codes "unknown window 'last:" ++ value ++ codes "'. Valid: 1h, 24h, 7d, 30d")
    | some d ↦ with_filter r (record r.filter { since = some (now - d); since_label = value })
  ]
  set_field Field.is negated start value r =
      if equal value (codes "network")
      then with_filter r (record r.filter { is_network = some true })
      else fail start (codes "unknown filter 'is:" ++ value ++ codes "'. Valid: is:network")
  set_field Field.fingerprint negated start value r =
      with_filter r (record r.filter { fingerprint = some value })
  set_field Field.session negated start value r = elim (parse_uuid value) [
    | none ↦ fail start (codes "invalid session UUID: " ++ value)
    | some uid ↦ with_filter r (record r.filter { session_id = some uid })
  ]
  set_field Field.request negated start value r = elim (parse_uuid value) [
    | none ↦ fail start (codes "invalid request UUID: " ++ value)
    | some uid ↦ with_filter r (record r.filter { request_id = some uid })
  ]
  set_field Field.user negated start value r =
      with_scope r (record r.filter.session { user = value })
  set_field Field.device negated start value r =
      with_scope r (record r.filter.session { device = value })
  set_field Field.os negated start value r = with_scope r (record r.filter.session { os = value })
  set_field Field.app_version negated start value r =
      with_scope r (record r.filter.session { app_version = value })
  set_field Field.sdk_version negated start value r =
      with_scope r (record r.filter.session { sdk_version = value })
  set_field Field.installation negated start value r =
      with_scope r (record r.filter.session { installation = value })

  -- A token with a name before its colon.
  unfoldable pub take_field : ℕ → Bool → Bytes → Bytes → Reading → Result ParseError Reading
  take_field start negated name value r = elim (field_of name) [
    | none ↦
        fail start
          (codes "unknown field '" ++ name ++ codes "'. Valid fields: " ++ valid_field_list)
    | some field ↦
        if negated && not (is_tag field)
        then fail start
            (codes "'" ++ name ++ codes "' cannot be negated. Only tags can: -tag:noise")
        else if is_empty value
        then fail (start + length name + 1) (codes "missing value for field '" ++ name ++ codes "'")
        else set_field field negated start value r
  ]

  -- A token that a quote did not open: a field if its colon is not its first byte.
  unfoldable pub take_word : ℕ → Bool × Bytes → Reading → Result ParseError Reading
  take_word start (negated, token) r = elim (cut token) [
    | none ↦ take_bare start negated token r
    | some ([], value) ↦ take_bare start negated token r
    | some (c ∷ name, value) ↦ take_field start negated (c ∷ name) value r
  ]

  -- One token.
  unfoldable pub take_token : ℕ → Bytes → Bool → Reading → Result ParseError Reading
  take_token start token true r = if is_empty token then ok r else ok (add_text token r)
  take_token start token false r = take_word start (minus token) r

  -- What a round of the loop that reads a token leaves: the rest and the variables.
  unfoldable pub one_token : ℕ → Bytes → Reading → Result ParseError (Bytes × Reading)
  one_token start s r =
      scan false start s
      >>= (λ (token, rest). take_token start token (leading_quote s) r >>= (λ r'. ok (rest, r')))

  -- The loop, on fuel; `none` if the fuel does not do. `total` is the length of the query.
  unfoldable pub read_tokens : ℕ → ℕ → Bytes → Reading → Option (Result ParseError Reading)
  read_tokens fuel total [] r = some (ok r)
  read_tokens zero total (c ∷ cs) r = none
  read_tokens (suc fuel) total (c ∷ cs) r = elim (c == b' ' || c == 9) [
    | true ↦ read_tokens fuel total cs r
    | false ↦ elim (one_token (total - length (c ∷ cs)) (c ∷ cs) r) [
      | err e ↦ some (err e)
      | ok (rest, r') ↦ read_tokens fuel total rest r'
    ]
  ]

  abbrev pub parse_trimmed : Bytes → Option (Result ParseError SearchFilter)
  parse_trimmed q = finish (read_tokens (length q) (length q) q start_reading)

  -- `Parse`: an empty query goes through the loop unread.
  unfoldable pub parse : Bytes → Option (Result ParseError SearchFilter)
  parse query = parse_trimmed (trim_space query)
