-- ===== src/Accounts/Repos/Tokens.antt =====
-- internal/adapters/db/token_repo.go. Every statement but `DeleteByUser` passes over the tokens that
-- are revoked.
use code_scout.Common.{
  ℕ, Bool, true, not, ◌&&◌, List, [], ◌∷◌, ◌++◌, Option, none, some, ok, err, if◌then◌else◌, ◌==◌,
  ltb, any, keep, length, Bytes, equal,
}
use code_scout.Accounts.Database.{PersonalAccessToken, Error, not_found, broken, M, statement}
use code_scout.Accounts.Repos.Users.{first, found}

abbrev pub is_live : PersonalAccessToken → Bool
is_live t = not t.revoked

abbrev pub is_token_of : ℕ → PersonalAccessToken → Bool
is_token_of user t = t.user_id == user

-- `UPDATE personal_access_tokens SET … WHERE …`
unfoldable pub on_tokens :
    (PersonalAccessToken → Bool)
    → (PersonalAccessToken → PersonalAccessToken)
    → List PersonalAccessToken
    → List PersonalAccessToken
on_tokens p f [] = []
on_tokens p f (t ∷ ts) = let rest = on_tokens p f ts in if p t then f t ∷ rest else t ∷ rest

-- `Create`; `token_hash` is unique, among the revoked ones too.
unfoldable pub create_token : PersonalAccessToken → M Error (Unit {0})
create_token t = statement λ ts.
    if any (λ s. equal s.token_hash t.token_hash) ts.tokens
    then err broken
    else ok (tt, record ts { tokens = ts.tokens ++ t ∷ [] })

-- `GetByHash`
unfoldable pub get_by_hash : Bytes → M Error PersonalAccessToken
get_by_hash hash =
    statement λ ts. found not_found ts (first (λ t. is_live t && equal t.token_hash hash) ts.tokens)

-- `ListByUser`, without its order, which is for display
unfoldable pub list_by_user : ℕ → M Error (List PersonalAccessToken)
list_by_user user = statement λ ts. ok (keep (λ t. is_live t && is_token_of user t) ts.tokens, ts)

-- `Count`
unfoldable pub count_tokens : ℕ → M Error ℕ
count_tokens user =
    statement λ ts. ok (length (keep (λ t. is_live t && is_token_of user t) ts.tokens), ts)

abbrev pub is_own : ℕ → ℕ → PersonalAccessToken → Bool
is_own user id t = is_live t && (is_token_of user t && t.id == id)

-- `Revoke`
unfoldable pub revoke_token : ℕ → ℕ → M Error (Unit {0})
revoke_token user id = statement λ ts.
    if any (is_own user id) ts.tokens
    then ok (
      tt,
      record ts {
        tokens = on_tokens (is_own user id) (λ t. record t { revoked = true }) ts.tokens;
      },
    )
    else err not_found

abbrev pub is_stale : Option ℕ → ℕ → Bool
is_stale none since = true
is_stale (some at) since = ltb at since

-- `TouchLastUsed`
unfoldable pub touch_last_used : ℕ → ℕ → ℕ → M Error (Unit {0})
touch_last_used id at since = statement λ ts. ok (
  tt,
  record ts {
    tokens =
        on_tokens (λ t. is_live t && (t.id == id && is_stale t.last_used_at since))
          (λ t. record t { last_used_at = some at }) ts.tokens;
  },
)

-- `DeleteByUser`
unfoldable pub delete_by_user : ℕ → M Error (Unit {0})
delete_by_user user =
    statement λ ts. ok (tt, record ts { tokens = keep (λ t. not (is_token_of user t)) ts.tokens })
