-- ===== src/Live/Hub/Promises/Order.antt =====
-- The sessions that `List` of internal/live/hub.go shows.
use mathlib.Core.List.{reverse, Perm, perm_middle, reverse-cons, reverse_perm}
use mathlib.Core.List.Perm
use code_scout.Common.{
  ◌≤◌, List, [], ◌∷◌, ◌++◌, map, arith, All, All-map, Bool-cases, inl, inr, ltb, keep, append-nil,
  All-append,
}
use code_scout.Domain.LiveSession.{Uuid, Time, LiveSession}
use code_scout.Live.Hub.{Hub, sweep_locked}
use code_scout.Live.Hub.Pairing.{is_live_in}
use code_scout.Live.Hub.Listing.{sift, sift_all, list}

-- Oldest first, as the loop keeps the sessions before it.
abbrev Rising : List LiveSession → Type 0
Rising [] = Unit
Rising (s ∷ ss) = All (λ r. s.created_at ≤ r.created_at) ss × Rising ss

-- Newest first.
abbrev pub NewestFirst : List LiveSession → Type 0
NewestFirst [] = Unit
NewestFirst (s ∷ ss) = All (λ r. r.created_at ≤ s.created_at) ss × NewestFirst ss

sift-All :
    (P : LiveSession → Type 0) (s : LiveSession) (rs : List LiveSession)
    → P s
    → All P rs
    → All P (sift s rs)
unfolding sift
sift-All P s [] p h = (p, tt)
sift-All P s (r ∷ rs) p h = elim (Bool-cases (ltb r.created_at s.created_at)) [
  | inl older ↦ rw older (h.0, sift-All P s rs p h.1)
  | inr newer ↦ rw newer (p, h)
]

sift-Rising : (s : LiveSession) (rs : List LiveSession) → Rising rs → Rising (sift s rs)
unfolding sift
sift-Rising s [] h = (tt, tt)
sift-Rising s (r ∷ rs) h = elim (Bool-cases (ltb r.created_at s.created_at)) [
  | inl older ↦
      rw older
        (sift-All (λ q. r.created_at ≤ q.created_at) s rs (ground arith) h.0, sift-Rising s rs h.1)
  | inr newer ↦
      let below : s.created_at ≤ r.created_at = ground arith in
      rw newer ((below, All-map _ _ (λ q k. omega (arith, below, k)) rs h.0), h)
]

sift-perm : (s : LiveSession) (rs : List LiveSession) → Perm (sift s rs) (s ∷ rs)
unfolding sift
sift-perm s [] = Perm.refl _
sift-perm s (r ∷ rs) = elim (Bool-cases (ltb r.created_at s.created_at)) [
  | inl older ↦ rw older (Perm.trans (Perm.cons r (sift-perm s rs)) (Perm.swap s r rs))
  | inr newer ↦ rw newer (Perm.refl _)
]

sift_all-Rising : (before ss : List LiveSession) → Rising before → Rising (sift_all before ss)
unfolding sift_all
sift_all-Rising before [] h = h
sift_all-Rising before (s ∷ ss) h = sift_all-Rising (sift s before) ss (sift-Rising s before h)

sift_all-perm : (before ss : List LiveSession) → Perm (sift_all before ss) (ss ++ before)
unfolding sift_all
sift_all-perm before [] = Perm.refl before
sift_all-perm before (s ∷ ss) =
    Perm.trans (sift_all-perm (sift s before) ss)
      (Perm.trans (Perm.append (Perm.refl ss) (sift-perm s before)) (perm_middle ss before))

All-reverse : (P : LiveSession → Type 0) (ss : List LiveSession) → All P ss → All P (reverse ss)
All-reverse P [] h = tt
All-reverse P (s ∷ ss) h =
    rw (reverse-cons s ss) (All-append P (reverse ss) (s ∷ []) (All-reverse P ss h.1) (h.0, tt))

NewestFirst-concat :
    (ss : List LiveSession) (s : LiveSession)
    → NewestFirst ss
    → All (λ r. s.created_at ≤ r.created_at) ss
    → NewestFirst (ss ++ s ∷ [])
NewestFirst-concat [] s h k = (tt, tt)
NewestFirst-concat (r ∷ ss) s h k =
    (All-append _ ss (s ∷ []) h.0 (k.0, tt), NewestFirst-concat ss s h.1 k.1)

reverse-NewestFirst : (ss : List LiveSession) → Rising ss → NewestFirst (reverse ss)
reverse-NewestFirst [] h = tt
reverse-NewestFirst (s ∷ ss) h = rw (reverse-cons s ss) (
    NewestFirst-concat (reverse ss) s (reverse-NewestFirst ss h.1)
      (All-reverse (λ r. s.created_at ≤ r.created_at) ss h.0))

-- `List` shows, newest first, exactly the sessions of the project that have not ended once the sweep
-- has run, each as often as the registry holds it.
pub list_shows :
    (now : Time) (project : Uuid) (h : Hub)
    → NewestFirst (list now project h).1
      × Perm
          (list now project h).1
          (map (λ p. (p.1).meta) (keep (is_live_in project) (sweep_locked now h).sessions))
unfolding list
list_shows now project h =
    let out = map (λ p. (p.1).meta) (keep (is_live_in project) (sweep_locked now h).sessions) in
    (
      reverse-NewestFirst _ (sift_all-Rising [] out tt),
      Perm.trans (reverse_perm _) (rw (append-nil out) at (sift_all-perm [] out)),
    )
