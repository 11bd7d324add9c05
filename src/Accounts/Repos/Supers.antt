-- ===== src/Accounts/Repos/Supers.antt =====
-- How the writes to the accounts change the number of super admins, and that ids stay distinct.
use code_scout.Common.{
  ℕ, suc, ◌≤◌, ◌≡◌, ◌≢◌, refl, subst, ap, false, not, List, [], ◌∷◌, ◌++◌, map, some, some_inj,
  arith, ◌==◌, ==_iff, Bool-cases, inl, inr, any, keep, length, All, Distinct, Distinct-keep,
  Distinct-concat,
}
use code_scout.Domain.Roles.{User}
use code_scout.Accounts.Repos.Users.{first, has_id, is_super, on_user}

abbrev pub user_ids : List User → List ℕ
user_ids = map λ u. u.id

abbrev pub supers : List User → ℕ
supers us = length (keep is_super us)

abbrev pub others : ℕ → List User → List User
others id = keep λ u. not (has_id id u)

-- Ids are distinct, and there is a super admin.
abbrev pub Sound : List User → Type 0
Sound us = Distinct (user_ids us) × (1 ≤ supers us)

others-absent : (id : ℕ) (us : List User) → All (λ i. i ≢ id) (user_ids us) → others id us ≡ us
others-absent id [] h = refl
others-absent id (u ∷ us) h = ground (arith, others-absent id us h.1, h.0)

on_user-absent :
    (id : ℕ) (f : User → User) (us : List User)
    → All (λ i. i ≢ id) (user_ids us)
    → on_user id f us ≡ us
unfolding on_user
on_user-absent id f [] h = refl
on_user-absent id f (u ∷ us) h = ground (arith, on_user-absent id f us h.1, h.0)

pub others-supers :
    (id : ℕ) (us : List User) → Distinct (user_ids us) → supers us ≤ suc (supers (others id us))
others-supers id [] h = omega arith
others-supers id (u ∷ us) h = elim (Bool-cases (u.id == id)) [
  | inl same ↦
      let gone =
        others-absent id us
          (subst (λ j. All (λ i. i ≢ j) (user_ids us)) ((==_iff u.id id).0 same) h.0) in
      rw (same, gone) (ground arith)
  | inr other ↦ rw other (ground (arith, others-supers id us h.1))
]

pub on_user-supers :
    (id : ℕ) (f : User → User) (us : List User)
    → Distinct (user_ids us)
    → supers us ≤ suc (supers (on_user id f us))
unfolding on_user
on_user-supers id f [] h = omega arith
on_user-supers id f (u ∷ us) h = elim (Bool-cases (u.id == id)) [
  | inl same ↦
      let gone =
        on_user-absent id f us
          (subst (λ j. All (λ i. i ≢ j) (user_ids us)) ((==_iff u.id id).0 same) h.0) in
      rw (same, gone) (ground arith)
  | inr other ↦ rw other (ground (arith, on_user-supers id f us h.1))
]

pub others-target :
    (id : ℕ) (us : List User) (t : User)
    → Distinct (user_ids us)
    → first (has_id id) us ≡ some t
    → is_super t ≡ false
    → supers (others id us) ≡ supers us
others-target id [] t h e k = refl
others-target id (u ∷ us) t h e k = elim (Bool-cases (u.id == id)) [
  | inl same ↦
      let gone =
        others-absent id us
          (subst (λ j. All (λ i. i ≢ j) (user_ids us)) ((==_iff u.id id).0 same) h.0) in
      let here : u ≡ t = some_inj (rw same at e) in rw (same, gone, here, k) refl
  | inr other ↦ rw other (ground (arith, others-target id us t h.1 (rw other at e) k))
]

pub on_user-target :
    (id : ℕ) (f : User → User) (us : List User) (t : User)
    → Distinct (user_ids us)
    → first (has_id id) us ≡ some t
    → is_super t ≡ false
    → supers us ≤ supers (on_user id f us)
unfolding on_user
on_user-target id f [] t h e k = omega arith
on_user-target id f (u ∷ us) t h e k = elim (Bool-cases (u.id == id)) [
  | inl same ↦
      let gone =
        on_user-absent id f us
          (subst (λ j. All (λ i. i ≢ j) (user_ids us)) ((==_iff u.id id).0 same) h.0) in
      let here : u ≡ t = some_inj (rw same at e) in rw (same, gone, here, k) (ground arith)
  | inr other ↦ rw other (ground (arith, on_user-target id f us t h.1 (rw other at e) k))
]

pub on_user-user_ids :
    (id : ℕ) (f : User → User) (us : List User)
    → ((u : User) → (f u).id ≡ u.id)
    → user_ids (on_user id f us) ≡ user_ids us
unfolding on_user
on_user-user_ids id f [] h = refl
on_user-user_ids id f (u ∷ us) h = ground (arith, on_user-user_ids id f us h, h u)

pub on_user-same_role :
    (id : ℕ) (f : User → User) (us : List User)
    → ((u : User) → (f u).role ≡ u.role)
    → supers (on_user id f us) ≡ supers us
unfolding on_user
on_user-same_role id f [] h = refl
on_user-same_role id f (u ∷ us) h = ground (arith, on_user-same_role id f us h, h u)

others-user_ids :
    (id : ℕ) (us : List User) → user_ids (others id us) ≡ keep (λ i. not (i == id)) (user_ids us)
others-user_ids id [] = refl
others-user_ids id (u ∷ us) = ground (arith, others-user_ids id us)

pub others-Distinct :
    (id : ℕ) (us : List User) → Distinct (user_ids us) → Distinct (user_ids (others id us))
others-Distinct id us h = rw (others-user_ids id us) (Distinct-keep _ (user_ids us) h)

-- A new row with an id of its own.
user_ids-append : (us : List User) (u : User) → user_ids (us ++ u ∷ []) ≡ user_ids us ++ u.id ∷ []
user_ids-append [] u = refl
user_ids-append (v ∷ us) u = ap (◌∷◌ v.id) (user_ids-append us u)

unused_id : (id : ℕ) (us : List User) → any (has_id id) us ≡ false → All (λ y. id ≢ y) (user_ids us)
unused_id id [] h = tt
unused_id id (u ∷ us) h = elim (Bool-cases (u.id == id)) [
  | inl same ↦ absurd (ground arith)
  | inr other ↦ (ground (arith, ==_iff u.id id), unused_id id us (rw other at h))
]

supers-append : (us : List User) (u : User) → supers us ≤ supers (us ++ u ∷ [])
supers-append [] u = omega arith
supers-append (v ∷ us) u = ground (arith, supers-append us u)

pub append-Sound :
    (us : List User) (u : User) → Sound us → any (has_id u.id) us ≡ false → Sound (us ++ u ∷ [])
append-Sound us u s h = (
  rw (user_ids-append us u) (Distinct-concat (user_ids us) u.id s.0 (unused_id u.id us h)),
  omega (arith, supers-append us u, s.1),
)
