-- ===== src/Accounts/TokenService/Progress.antt =====
-- `Authenticate` of internal/services/token_service.go while no statement fails.
use code_scout.Common.{ℕ, ◌≡◌, refl, true, false, [], some, ok, Bool-cases, inl, inr, Bytes}
use code_scout.Domain.Roles.{User}
use code_scout.Accounts.Database.{
  PersonalAccessToken, Tables, return, attempt, ◌>>=◌, ◌>>◌, or_else, refuse_if, statement,
}
use code_scout.Accounts.Repos.Users.{first, has_id, get_by_id}
use code_scout.Accounts.Repos.Tokens.{get_by_hash, touch_last_used}
use code_scout.Accounts.TokenService.{
  personal_token_prefix, has_prefix, token_expired, due, stamp, admit, accept, authenticate,
}
use code_scout.Accounts.TokenService.Admission.{live_with}

-- While the database runs every statement, a live token that has not expired lets in its account, if
-- this one has no password to change.
pub authenticate_succeeds :
    (hash_token : Bytes → Bytes) (now : ℕ) (plaintext : Bytes) (t : Tables)
    (token : PersonalAccessToken) (user : User)
    → has_prefix personal_token_prefix plaintext ≡ true
    → first (live_with (hash_token plaintext)) t.tokens ≡ some token
    → token_expired token now ≡ false
    → first (has_id token.user_id) t.users ≡ some user
    → user.must_change_password ≡ false
    → (authenticate hash_token now plaintext (record { tables = t; faults = [] })).0 ≡ ok user
unfolding authenticate accept admit stamp get_by_hash get_by_id touch_last_used statement ◌>>=◌ ◌>>◌
    or_else refuse_if return attempt
authenticate_succeeds hash_token now plaintext t token user marked there young owner settled =
    elim (Bool-cases (due now token.last_used_at)) [
      | inl old ↦ rw (marked, there, young, owner, settled, old) refl
      | inr fresh ↦ rw (marked, there, young, owner, settled, fresh) refl
    ]
