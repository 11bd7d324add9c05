-- ===== src/Accounts/TokenService.antt =====
-- internal/services/token_service.go and internal/domain/token.go: personal access tokens. The
-- draw of `MintPersonalToken` is given as the encoded random text, `none` being an error of
-- it, and SHA-256 with its hex encoding as a function.
pub mod Admission
pub mod Progress
use code_scout.Common.{
  trim_space, is_empty, ℕ, ◌+◌, ◌-◌, ◌*◌, Bool, true, false, not, ◌||◌, ◌&&◌, List, [], ◌∷◌, ◌++◌,
  map, Option, none, some, Result, ok, err, if◌then◌else◌, ◌==◌, ltb, leb, length, drop, Bytes,
  codes,
}
use code_scout.Domain.LiveSession.{minute}
use code_scout.Domain.Roles.{User}
use code_scout.Accounts.Database.{
  PersonalAccessToken, Error, not_found, Failure, M, return, throw, ◌>>=◌, ◌>>◌, or_else, attempt,
  refuse_if,
}
use code_scout.Accounts.Repos.Users.{get_by_id}
use code_scout.Accounts.Repos.Tokens.{
  create_token, get_by_hash, list_by_user, count_tokens, revoke_token, touch_last_used,
}

abbrev pub max_tokens_per_user : ℕ
max_tokens_per_user = 20

abbrev pub touch_interval : ℕ
touch_interval = 5 * minute

abbrev pub personal_token_prefix : Bytes
personal_token_prefix = codes "csp_"

-- `strings.HasPrefix`
abbrev pub has_prefix : Bytes → Bytes → Bool
has_prefix [] s = true
has_prefix (_ ∷ _) [] = false
has_prefix (p ∷ ps) (c ∷ cs) = p == c && has_prefix ps cs

-- `(*PersonalAccessToken).Expired`
abbrev pub is_after : Option ℕ → ℕ → Bool
is_after none now = false
is_after (some at) now = ltb at now

abbrev pub token_expired : PersonalAccessToken → ℕ → Bool
token_expired t now = is_after t.expires_at now

-- `TokenSuffix`
abbrev pub token_suffix : Bytes → Bytes
token_suffix plaintext =
    if ltb (length plaintext) 4 then plaintext else drop (length plaintext - 4) plaintext

-- The errors of the service: those with a code of their own, and those passed through.
pub data TokenError : Type 0 where
  name_required token_limit token_invalid token_expired_error password_change : TokenError
  passed : Error → TokenError

abbrev pub expiry : ℕ → Option ℕ → Option ℕ
expiry now none = none
expiry now (some lasts) = some (now + lasts)

abbrev pub invalid_if_absent : Error → TokenError
invalid_if_absent not_found = token_invalid
invalid_if_absent e = passed e

-- Whether the last stamp is `touchInterval` old.
abbrev pub due : ℕ → Option ℕ → Bool
due now none = true
due now (some at) = leb touch_interval (now - at)

-- The end of `Authenticate`: the stamp, whose failure is only logged.
unfoldable pub stamp : ℕ → PersonalAccessToken → M TokenError (Unit {0})
stamp now t =
    if due now t.last_used_at
    then (attempt (touch_last_used t.id now (now - touch_interval)) >>= λ _. return tt)
    else return tt

-- `Authenticate` once the account is read.
unfoldable pub admit : ℕ → PersonalAccessToken → User → M TokenError User
admit now t user =
    refuse_if user.must_change_password password_change >> (stamp now t >> return user)

-- `Authenticate` once the token is found.
unfoldable pub accept : ℕ → PersonalAccessToken → M TokenError User
accept now t =
    refuse_if (token_expired t now) token_expired_error
    >> (or_else (get_by_id t.user_id) (λ _. token_invalid) >>= λ user. admit now t user)

module _ (hash_token : Bytes → Bytes) where
  abbrev pub new_token : ℕ → ℕ → ℕ → Bytes → Bytes → Option ℕ → PersonalAccessToken
  new_token now id user name plaintext expires_in = record {
    id = id;
    user_id = user;
    name = name;
    token_hash = hash_token plaintext;
    suffix = token_suffix plaintext;
    last_used_at = none;
    expires_at = expiry now expires_in;
    revoked = false;
  }

  -- `Create` from `MintPersonalToken` on.
  unfoldable pub store_token :
      ℕ → ℕ → ℕ → Bytes → Option ℕ → Option Bytes → M TokenError (Bytes × PersonalAccessToken)
  store_token now id user name expires_in none = throw (passed Error.broken)
  store_token now id user name expires_in (some encoded) =
      let plaintext = personal_token_prefix ++ encoded in
      or_else (create_token (new_token now id user name plaintext expires_in)) passed
      >> return (plaintext, new_token now id user name plaintext expires_in)

  -- `Create`; `id` is the id of the new row.
  unfoldable pub create :
      ℕ → ℕ → ℕ → Bytes → Option ℕ → Option Bytes → M TokenError (Bytes × PersonalAccessToken)
  create now id user name expires_in encoded =
      refuse_if (is_empty (trim_space name)) name_required
      >> (or_else (count_tokens user) passed >>= λ count.
          refuse_if (leb max_tokens_per_user count) token_limit
          >> store_token now id user (trim_space name) expires_in encoded)

  -- `Authenticate`
  unfoldable pub authenticate : ℕ → Bytes → M TokenError User
  authenticate now plaintext =
      refuse_if (not (has_prefix personal_token_prefix plaintext)) token_invalid
      >> (or_else (get_by_hash (hash_token plaintext)) invalid_if_absent >>= λ t. accept now t)
