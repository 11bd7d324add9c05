-- ===== src/Accounts/TokenService/Admission.antt =====
-- `Authenticate` of internal/services/token_service.go against the tables it reads.
use code_scout.Common.{
  ℕ, ◌-◌, ◌≡◌, refl, subst, ap, Bool, true, false, ◌&&◌, some, Option-cases, arith, inl, inr, Bytes,
  equal,
}
use code_scout.Domain.Roles.{User}
use code_scout.Accounts.Database.{PersonalAccessToken, Tables, Db, return, attempt, ◌>>=◌}
use code_scout.Accounts.Database.Rules.{
  Outcome, Triple, return-Triple, if-Triple, weaken-Triple, conclude-Triple, given-Triple,
  bind-Triple, then-Triple, unless-Triple, or_else-Triple, attempt-Triple,
}
use code_scout.Accounts.Database.Statements.{statement-Triple}
use code_scout.Accounts.Repos.Users.{first, has_id}
use code_scout.Accounts.Repos.Tokens.{is_live, get_by_hash, touch_last_used}
use code_scout.Accounts.Repos.Kept.{get_by_id-Triple}
use code_scout.Accounts.TokenService.{
  touch_interval, personal_token_prefix, has_prefix, token_expired, due, stamp, admit, accept,
  authenticate,
}

-- The row of the live token with the hash `h`.
abbrev pub live_with : Bytes → PersonalAccessToken → Bool
live_with h t = is_live t && equal t.token_hash h

-- What the account that is let in has.
abbrev pub MayEnter : ℕ → PersonalAccessToken → Tables → User → Type 0
MayEnter now token t user =
    (token_expired token now ≡ false)
    × (first (has_id token.user_id) t.users ≡ some user)
    × (user.must_change_password ≡ false)

abbrev pub Admitted : (Bytes → Bytes) → ℕ → Bytes → Tables → User → Tables → Type 0
Admitted hash_token now plaintext t user ts =
    ((token : PersonalAccessToken) × (has_prefix personal_token_prefix plaintext ≡ true)
      × (first (live_with (hash_token plaintext)) t.tokens ≡ some token)
      × MayEnter now token t user)
    × (ts.users ≡ t.users)

get_by_hash-Triple :
    (h : Bytes) (t : Tables)
    → Triple
        (λ ts. ts ≡ t)
        (get_by_hash h)
        (λ token ts. (ts ≡ t) × (first (live_with h) ts.tokens ≡ some token))
        (λ ts. ts ≡ t)
unfolding get_by_hash
get_by_hash-Triple h t =
    statement-Triple _ (λ ts p. p)
      λ ts p. elim (Option-cases (first (live_with h) ts.tokens)) [
        | inl none_there ↦ rw none_there p
        | inr (token, there) ↦ rw there (p, there)
      ]

touch_last_used-Triple :
    (id at since : ℕ) (t : Tables)
    → Triple
        (λ ts. ts.users ≡ t.users)
        (touch_last_used id at since)
        (λ _ ts. ts.users ≡ t.users)
        (λ ts. ts.users ≡ t.users)
unfolding touch_last_used
touch_last_used-Triple id at since t = statement-Triple _ (λ ts p. p) (λ ts p. p)

stamp-Triple :
    (now : ℕ) (token : PersonalAccessToken) (t : Tables)
    → Triple (λ ts. ts ≡ t) (stamp now token) (λ _ ts. ts.users ≡ t.users) (λ ts. ts ≡ t)
unfolding stamp
stamp-Triple now token t =
    if-Triple (due now token.last_used_at)
      (attempt (touch_last_used token.id now (now - touch_interval)) >>= λ _. return tt) (return tt)
      (λ old.
        bind-Triple (λ _ ts. ts.users ≡ t.users)
          (weaken-Triple (λ ts p. ap (λ x. x.users) p) (λ ts p. p)
            (attempt-Triple (touch_last_used-Triple token.id now (now - touch_interval) t)))
          λ r. return-Triple tt)
      λ young. weaken-Triple (λ ts p. ap (λ x. x.users) p) (λ ts p. p) (return-Triple tt)

accept-Triple :
    (now : ℕ) (token : PersonalAccessToken) (t : Tables)
    → Triple
        (λ ts. ts ≡ t)
        (accept now token)
        (λ user ts. MayEnter now token t user × (ts.users ≡ t.users))
        (λ ts. ts ≡ t)
unfolding accept admit
accept-Triple now token t =
    unless-Triple _ _ (λ ts p. p)
      λ young. bind-Triple _ (or_else-Triple _ (get_by_id-Triple token.user_id)) λ user.
        unless-Triple _ _ (λ ts s. s.0)
          λ settled.
            weaken-Triple
              (λ ts s. (
                s.0,
                subst (λ us. first (has_id token.user_id) us ≡ some user) (ap (λ x. x.users) s.0)
                    s.1,
              ))
              (λ ts s. s)
              (given-Triple λ there. then-Triple _ (stamp-Triple now token t) (
                weaken-Triple (λ ts p. ((young, there, settled), p)) (λ ts p. p)
                  (return-Triple user)))

authenticate-Triple :
    (hash_token : Bytes → Bytes) (now : ℕ) (plaintext : Bytes) (t : Tables)
    → Triple
        (λ ts. ts ≡ t)
        (authenticate hash_token now plaintext)
        (Admitted hash_token now plaintext t)
        (λ ts. ts ≡ t)
unfolding authenticate
authenticate-Triple hash_token now plaintext t =
    unless-Triple _ _ (λ ts p. p)
      λ marked.
        bind-Triple _ (or_else-Triple _ (get_by_hash-Triple (hash_token plaintext) t)) λ token.
          weaken-Triple
            (λ ts s. (
              s.0,
              subst (λ us. first (live_with (hash_token plaintext)) us ≡ some token)
                  (ap (λ x. x.tokens) s.0) s.1,
            ))
            (λ ts s. s)
            (given-Triple λ there.
              conclude-Triple _ (λ user ts q. ((token, ground arith, there, q.0), q.1))
                (accept-Triple now token t))

-- Whoever a token lets in is the account, without a password to change, of a live token that is
-- stored under the hash of the presented text and has not expired; the text has the tokens' prefix.
-- The accounts stay as they are, and a refusal changes nothing at all.
pub authenticate_lem :
    (hash_token : Bytes → Bytes) (now : ℕ) (plaintext : Bytes) (db : Db)
    → Outcome
        (Admitted hash_token now plaintext db.tables)
        (λ ts. ts ≡ db.tables)
        (authenticate hash_token now plaintext db)
authenticate_lem hash_token now plaintext db =
    (authenticate-Triple hash_token now plaintext db.tables).runs db refl
