-- ===== src/Accounts/Outside.antt =====
-- What the services take from other packages, and the e-mail addresses that they make of it.
-- `mail.ParseAddress` gives the address or an error; bcrypt's two functions give a hash or an error,
-- and whether a hash is that of a password. Text is ASCII here where blanks are cut off or letters
-- are lowered.
use code_scout.Common.{
  ℕ, ◌+◌, Bool, ◌&&◌, Option, none, some, if◌then◌else◌, leb, map, Bytes, trim_space,
}

pub record Outside : Type 0 where
  pub parse_address : Bytes → Option Bytes
  pub generate_hash : Bytes → Option Bytes
  pub compare_hash : Bytes → Bytes → Bool

abbrev pub lower : ℕ → ℕ
lower c = if leb b'A' c && leb c b'Z' then c + 32 else c

-- `normalizeEmail` of internal/services/auth_service.go
unfoldable pub normalize_email : Outside → Bytes → Option Bytes
unfolding trim_space
normalize_email o raw = elim (o.parse_address (trim_space raw)) [
  | none ↦ none
  | some addr ↦ some (map lower addr)
]
