-- ===== src/Live/Hub/Promises/Answers.antt =====
-- Questions to the device and their answers, in internal/live/hub.go.
use code_scout.Common.{
  ℕ, ◌≡◌, refl, ap, true, false, List, [], ◌∷◌, Option, none, some, arith, All-any, any, Bytes,
  lookup, insert, nat_eq, ok, ◌==◌, some_inj,
}
use code_scout.Domain.LiveSession.{Uuid, Time, is_ended}
use code_scout.Live.Channel.{Store, offer, receive}
use code_scout.Live.Session.{Session}
use code_scout.Live.Hub.{Hub}
use code_scout.Live.Hub.Ask.{set_pending, forget, on_reply, on_receive, ask_wake, deliver}
use code_scout.Live.Hub.Invariant.{Inv}
use code_scout.Live.Hub.Invariant.Update.{lookup_self}
use code_scout.Live.Channel.Safety.{IsOpen}

any-forget : (req : ℕ) (ps : List ℕ) → any (λ r. r == req) (forget req ps) ≡ false
any-forget req [] = refl
any-forget req (p ∷ ps) = ground (arith, any-forget req ps)

receive_one :
    {A : Type 0} (w : ℕ) (st : Store A) (x : A)
    → (st.chan w).buffer ≡ x ∷ []
    → (receive w st).0 ≡ some x
unfolding receive
receive_one w st x e = rw (e, receive)

offer_first :
    {A : Type 0} (x : A) (w : ℕ) (st : Store A)
    → (st.chan w).closed ≡ false
    → (st.chan w).buffer ≡ []
    → ((offer 1 x w st).chan w).buffer ≡ x ∷ []
unfolding offer
offer_first x w st o e = ground arith

on_receive_ok :
    (p : Option Bytes × Store Bytes) (req : ℕ) (h : Hub) (payload : Bytes)
    → p.0 ≡ some payload
    → (h' : Hub) × (on_receive p req h ≡ some (h', ok payload))
unfolding on_receive
on_receive_ok (none, replies) req h payload e = absurd (cc e)
on_receive_ok (some x, replies) req h payload e = (
  record h { replies = replies },
  ap (λ y. some (record h { replies = replies }, ok y)) (some_inj e),
)

deliver_awaited :
    (now : Time) (id : Uuid) (req : ℕ) (payload : Bytes) (h : Hub) (s : Session)
    → lookup id h.sessions ≡ some s
    → is_ended s.meta.state ≡ false
    → any (λ r. r == req) s.pending ≡ true
    → deliver now id req payload h ≡ record h {
      sessions =
          insert id
            (set_pending
              (forget req s.pending)
              (record s { meta = record s.meta { last_seen = now } }))
            h.sessions;
      replies = offer 1 payload req h.replies;
    }
unfolding deliver
deliver_awaited now id req payload h s e live awaited = rw (e, deliver, live, awaited)

deliver_stray :
    (now : Time) (id : Uuid) (req : ℕ) (payload : Bytes) (h : Hub) (s : Session)
    → lookup id h.sessions ≡ some s
    → is_ended s.meta.state ≡ false
    → any (λ r. r == req) s.pending ≡ false
    → (deliver now id req payload h).replies ≡ h.replies
unfolding deliver
deliver_stray now id req payload h s e live stray = rw (e, deliver, live, stray)

-- The device's first answer to an open question is what `Ask` returns, and the question is open no
-- more: a second answer under its id reaches no channel.
pub answer_reaches_asker :
    (now later : Time) (id : Uuid) (req : ℕ) (payload payload' : Bytes) (h : Hub) (s : Session)
    → Inv h
    → lookup id h.sessions ≡ some s
    → is_ended s.meta.state ≡ false
    → any (λ r. r == req) s.pending ≡ true
    → (h.replies.chan req).buffer ≡ []
    → let h₁ = deliver now id req payload h in
      ((h₂ : Hub) × (ask_wake req on_reply h₁ ≡ some (h₂, ok payload)))
      × ((deliver later id req payload' h₁).replies ≡ h₁.replies)
unfolding ask_wake
answer_reaches_asker now later id req payload payload' h s v e live awaited empty =
    let o = v.sessions_ok id s e in
    let own = All-any (IsOpen h.replies id) req s.pending awaited o.pending_open in
    let seen = record s { meta = record s.meta { last_seen = now } } in
    let s' = set_pending (forget req s.pending) seen in
    let filled = offer_first payload req h.replies own.opened empty in
    rw (deliver_awaited now id req payload h s e live awaited) (
      on_receive_ok _ req _ payload (receive_one req _ payload filled),
      deliver_stray later id req payload' _ s' (lookup_self h id s' v) live
          (any-forget req s.pending),
    )
