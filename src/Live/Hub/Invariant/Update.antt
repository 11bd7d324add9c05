-- ===== src/Live/Hub/Invariant/Update.antt =====
-- Writing one session keeps the invariant, if the other sessions' channels stay as they were.
use code_scout.Common.{
  ℕ, ◌≡◌, ◌≢◌, refl, sym, ◌∙◌, true, false, List, none, some, arith, inl, inr, Bool-cases, All-map,
  Bytes, lookup, insert, delete, lookup-insert, lookup-delete, nat_eq, bytes_eq, if◌then◌else◌, ap,
  subst, ℕ_discrete, some_inj, equal, equal_iff,
}
use code_scout.Domain.LiveSession.{Uuid, LiveSessionState, LiveEvent}
use code_scout.Live.Channel.{Store, make}
use code_scout.Live.Channel.Safety.{
  IsOpen, Keeps, Keeps-IsOpen, ClosesOnly, ClosesOnly-IsOpen, IsOpen-make,
}
use code_scout.Live.Session.{Session}
use code_scout.Live.Hub.{Hub}
use code_scout.Live.Hub.Invariant.{SessionOk, Inv}

-- The channels of all sessions but `sid` are as open as before, and nothing panicked.
pub record Spares {ℓ} {A : Type ℓ} (sid : ℕ) (st st' : Store A) : Type 0 where
  pub others_open : (other w : ℕ) → other ≢ sid → IsOpen st other w → IsOpen st' other w
  pub calm : st'.panics ≡ st.panics

module _ {ℓ} {A : Type ℓ} where
  pub Spares-refl : (sid : ℕ) (st : Store A) → Spares sid st st
  Spares-refl sid st = record { others_open = λ other w n o. o; calm = refl }

  pub Keeps-Spares : (sid : ℕ) {s t : Store A} → Keeps s t → Spares sid s t
  Keeps-Spares sid k = record {
    others_open = λ other w n o. Keeps-IsOpen k o;
    calm = k.panics_same;
  }

  pub ClosesOnly-Spares : (sid : ℕ) {s t : Store A} → ClosesOnly sid s t → Spares sid s t
  ClosesOnly-Spares sid k = record {
    others_open = λ other w n o. ClosesOnly-IsOpen k n o;
    calm = k.panics_same;
  }

  pub make-Spares : (sid owner : ℕ) (st : Store A) → Spares sid st (make owner st)
  make-Spares sid owner st = record {
    others_open = λ other w n o. IsOpen-make owner st o;
    calm = refl;
  }

pub SessionOk-Spares :
    {events events' : Store LiveEvent} {replies replies' : Store Bytes} (sid other : Uuid)
    {s : Session}
    → Spares sid events events'
    → Spares sid replies replies'
    → other ≢ sid
    → SessionOk events replies other s
    → SessionOk events' replies' other s
SessionOk-Spares sid other {s} e r n o = record {
  named = o.named;
  watchers_open = All-map _ _ (λ w p. e.others_open other w n p) s.watchers o.watchers_open;
  watchers_distinct = o.watchers_distinct;
  watchers_bounded = o.watchers_bounded;
  watchers_counted = o.watchers_counted;
  pending_open = All-map _ _ (λ w p. r.others_open other w n p) s.pending o.pending_open;
  pending_distinct = o.pending_distinct;
  replayable = o.replayable;
  ended_idle = o.ended_idle;
}

-- The codes that are left name sessions that still wait for them.
abbrev pub CodesLeft : Hub → List (Bytes × Uuid) → Uuid → Session → Type 0
CodesLeft h codes' id s' =
    (c : Bytes) (k : Uuid)
    → lookup c codes' ≡ some k
    → (k ≢ id → lookup c h.by_code ≡ some k)
      × (k ≡ id → (s'.meta.state ≡ LiveSessionState.waiting) × (s'.meta.code ≡ c))

module _ (h : Hub) (id : Uuid) (s' : Session) (v : Inv h) where
  pub lookup_other : (k : Uuid) → k ≢ id → lookup k (insert id s' h.sessions) ≡ lookup k h.sessions
  lookup_other k n = ground (arith, lookup-insert id k s' h.sessions)

  pub lookup_self : lookup id (insert id s' h.sessions) ≡ some s'
  lookup_self = ground (arith, lookup-insert id id s' h.sessions)

  written : (k : Uuid) (t : Session) → k ≡ id → lookup k (insert id s' h.sessions) ≡ some t → s' ≡ t
  written k t same f =
      some_inj (sym lookup_self ∙ ap (λ j. lookup j (insert id s' h.sessions)) (sym same) ∙ f)

  pub put-Inv :
      (events' : Store LiveEvent) (replies' : Store Bytes) (codes' : List (Bytes × Uuid))
      (hung' : List ℕ)
      → SessionOk events' replies' id s'
      → Spares id h.events events'
      → Spares id h.replies replies'
      → CodesLeft h codes' id s'
      → Inv (record {
        sessions = insert id s' h.sessions;
        by_code = codes';
        events = events';
        replies = replies';
        hung_up = hung';
      })
  put-Inv events' replies' codes' hung' o e r left = record {
    sessions_ok = λ k t f. elim (ℕ_discrete k id) [
      | yes same ↦
          let t_eq : s' ≡ t = written k t same f in
          subst (SessionOk events' replies' k) t_eq
            (subst (λ j. SessionOk events' replies' j s') (sym same) o)
      | no other ↦
          SessionOk-Spares id k e r other (v.sessions_ok k t (sym (lookup_other k other) ∙ f))
    ];
    codes_ok = λ c k f. elim (ℕ_discrete k id) [
      | yes same ↦ let kept = (left c k f).1 same in (s', rw same lookup_self, kept.0, kept.1)
      | no other ↦
          let (t, found, waits, coded) = v.codes_ok c k ((left c k f).0 other) in
          (t, lookup_other k other ∙ found, waits, coded)
    ];
    events_calm = e.calm ∙ v.events_calm;
    replies_calm = r.calm ∙ v.replies_calm;
  }

-- The session that was stored waits on as it did: the codes need not change.
pub CodesLeft-same :
    (h : Hub) (id : Uuid) (s s' : Session)
    → Inv h
    → lookup id h.sessions ≡ some s
    → s'.meta.state ≡ s.meta.state
    → s'.meta.code ≡ s.meta.code
    → CodesLeft h h.by_code id s'
CodesLeft-same h id s s' v e st cd c k f = (λ _. f, λ same. waits same)
  where
    waits : k ≡ id → (s'.meta.state ≡ LiveSessionState.waiting) × (s'.meta.code ≡ c)
    waits same =
        let (t, found, waiting, coded) = v.codes_ok c k f in
        let t_eq : t ≡ s = some_inj (sym found ∙ ap (λ j. lookup j h.sessions) same ∙ e) in
        (
          st ∙ ap (λ x. x.meta.state) (sym t_eq) ∙ waiting,
          cd ∙ ap (λ x. x.meta.code) (sym t_eq) ∙ coded,
        )

-- The session's code is withdrawn: no code is left that names it.
pub CodesLeft-delete :
    (h : Hub) (id : Uuid) (s s' : Session)
    → Inv h
    → lookup id h.sessions ≡ some s
    → CodesLeft h (delete s.meta.code h.by_code) id s'
CodesLeft-delete h id s s' v e c k f = elim (Bool-cases (equal s.meta.code c)) [
  | inl same ↦ absurd (none_left same)
  | inr other ↦ (λ _. kept other, λ at_id. absurd (gone other at_id))
]
  where
    law :
        lookup c (delete s.meta.code h.by_code)
        ≡ (if equal s.meta.code c then none else lookup c h.by_code)
    law = lookup-delete s.meta.code c h.by_code

    none_left : equal s.meta.code c ≡ true → ⊥
    none_left same = ground (arith, law)

    kept : equal s.meta.code c ≡ false → lookup c h.by_code ≡ some k
    kept other = ground (arith, law)

    gone : equal s.meta.code c ≡ false → k ≡ id → ⊥
    gone other at_id =
        let (t, found, waiting, coded) = v.codes_ok c k (kept other) in
        let t_eq : t ≡ s = some_inj (sym found ∙ ap (λ j. lookup j h.sessions) at_id ∙ e) in
        let same : s.meta.code ≡ c = ap (λ x. x.meta.code) (sym t_eq) ∙ coded in
        ground (arith, equal_iff s.meta.code c)

-- A walk that only sends keeps the invariant.
pub events-Inv :
    (h : Hub) (events' : Store LiveEvent)
    → Keeps h.events events'
    → Inv h
    → Inv (record h { events = events' })
events-Inv h events' k v = record {
  sessions_ok = λ id s f.
      let o = v.sessions_ok id s f in
      record {
        named = o.named;
        watchers_open = All-map _ _ (λ w p. Keeps-IsOpen k p) s.watchers o.watchers_open;
        watchers_distinct = o.watchers_distinct;
        watchers_bounded = o.watchers_bounded;
        watchers_counted = o.watchers_counted;
        pending_open = o.pending_open;
        pending_distinct = o.pending_distinct;
        replayable = o.replayable;
        ended_idle = o.ended_idle;
      };
  codes_ok = v.codes_ok;
  events_calm = k.panics_same ∙ v.events_calm;
  replies_calm = v.replies_calm;
}
