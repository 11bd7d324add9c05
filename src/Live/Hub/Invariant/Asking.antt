-- ===== src/Live/Hub/Invariant/Asking.antt =====
-- Questions to the device, their answers, and the facts that a device reports keep the invariant.
use code_scout.Common.{
  ℕ, ◌≡◌, ◌≢◌, refl, ◌∙◌, true, false, not, [], ◌∷◌, ◌++◌, some, Option-cases, arith, inl, inr,
  Bool-cases, All, All-map, All-append, All-keep, All-any, any, Distinct, Distinct-keep,
  Distinct-concat, Bytes, lookup, nat_eq, ◌==◌, ap,
}
use code_scout.Domain.LiveSession.{Uuid, Time, is_ended}
use code_scout.Live.Channel.{Store, make}
use code_scout.Live.Channel.Safety.{
  IsOpen, Keeps, Keeps-refl, Keeps-IsOpen, IsOpen-make, make-IsOpen, offer-Keeps,
}
use code_scout.Live.Session.{Session}
use code_scout.Live.Hub.{Hub, touch, attach_device}
use code_scout.Live.Hub.Ask.{DeviceCommand, set_pending, ask_register, forget, ask_forget, deliver}
use code_scout.Live.Hub.Invariant.{SessionOk, Inv}
use code_scout.Live.Hub.Invariant.Update.{
  Spares-refl, Keeps-Spares, make-Spares, CodesLeft-same, put-Inv,
}

module _ (h : Hub) (id : Uuid) (s : Session) (e : lookup id h.sessions ≡ some s) (v : Inv h) where
  -- The session with other facts about its device, and other open requests.
  repended :
      (s' : Session) (replies' : Store Bytes)
      → (s'.meta.id ≡ s.meta.id)
        × (s'.meta.state ≡ s.meta.state)
        × (s'.meta.watchers ≡ s.meta.watchers)
        × (s'.watchers ≡ s.watchers)
        × (s'.seq ≡ s.seq)
        × (s'.recent ≡ s.recent)
        × (s'.dropped ≡ s.dropped)
      → All (IsOpen replies' id) s'.pending
      → Distinct s'.pending
      → (is_ended s.meta.state ≡ true → s'.pending ≡ [])
      → SessionOk h.events replies' id s'
  repended s' replies' (ids, states, counts, ws, seqs, recents, drops) opened distinct idle =
      let o = v.sessions_ok id s e in
      record {
        named = ids ∙ o.named;
        watchers_open = rw ws o.watchers_open;
        watchers_distinct = rw ws o.watchers_distinct;
        watchers_bounded = rw ws o.watchers_bounded;
        watchers_counted = rw (counts, ws) o.watchers_counted;
        pending_open = opened;
        pending_distinct = distinct;
        replayable = rw (states, seqs, recents, drops) o.replayable;
        ended_idle =
            λ over. let over' = rw states at over in (ws ∙ (o.ended_idle over').0, idle over');
      }

  register_live :
      is_ended s.meta.state ≡ false
      → SessionOk h.events (make id h.replies) id (set_pending (s.pending ++ h.replies.next ∷ []) s)
  register_live live =
      let o = v.sessions_ok id s e in
      let r = h.replies.next in
      repended (set_pending (s.pending ++ r ∷ []) s) (make id h.replies)
        (refl, refl, refl, refl, refl, refl, refl)
        (All-append _ s.pending (r ∷ [])
          (All-map _ _ (λ u p. IsOpen-make id h.replies p) s.pending o.pending_open)
          (make-IsOpen id h.replies, tt))
        (Distinct-concat s.pending r o.pending_distinct
          (All-map _ _ (λ u p. newest u p) s.pending o.pending_open))
        (λ over. absurd (ground (arith, over, live)))
    where
      newest : (u : ℕ) → IsOpen h.replies id u → h.replies.next ≢ u
      newest u p = omega (arith, p.made)

  -- A request is dropped from the session `t`, which has the same requests as `s`.
  forget_ok :
      (req : ℕ) (t : Session) (replies' : Store Bytes)
      → Keeps h.replies replies'
      → (t.meta.id ≡ s.meta.id)
        × (t.meta.state ≡ s.meta.state)
        × (t.meta.watchers ≡ s.meta.watchers)
        × (t.watchers ≡ s.watchers)
        × (t.seq ≡ s.seq)
        × (t.recent ≡ s.recent)
        × (t.dropped ≡ s.dropped)
      → SessionOk h.events replies' id (set_pending (forget req s.pending) t)
  forget_ok req t replies' k same =
      let o = v.sessions_ok id s e in
      repended (set_pending (forget req s.pending) t) replies' same
        (All-map _ _ (λ u p. Keeps-IsOpen k p.0) (forget req s.pending)
          (All-keep (IsOpen h.replies id) (λ r. not (r == req)) s.pending o.pending_open))
        (Distinct-keep _ s.pending o.pending_distinct)
        (λ over. ap (forget req) (o.ended_idle over).1)

pub touch-Inv : (now : Time) (id : Uuid) (h : Hub) → Inv h → Inv (touch now id h)
unfolding touch
touch-Inv now id h v = elim (Option-cases (lookup id h.sessions)) [
  | inl e ↦ rw (e, touch) v
  | inr (s, e) ↦
      let o = v.sessions_ok id s e in
      let s' = record s { meta = record s.meta { last_seen = now } } in
      rw (e, touch)
        (put-Inv h id s' v _ _ _ _
          (repended h id s e v s' h.replies (refl, refl, refl, refl, refl, refl, refl)
            o.pending_open o.pending_distinct (λ over. (o.ended_idle over).1))
          (Spares-refl id h.events) (Spares-refl id h.replies)
          (CodesLeft-same h id s s' v e refl refl))
]

pub attach_device-Inv : (id : Uuid) (conn : ℕ) (h : Hub) → Inv h → Inv (attach_device id conn h)
unfolding attach_device
attach_device-Inv id conn h v = elim (Option-cases (lookup id h.sessions)) [
  | inl e ↦ rw (e, attach_device) v
  | inr (s, e) ↦
      let o = v.sessions_ok id s e in
      let s' = record s { send = some conn; hang_up = some conn } in
      rw (e, attach_device)
        (put-Inv h id s' v _ _ _ _
          (repended h id s e v s' h.replies (refl, refl, refl, refl, refl, refl, refl)
            o.pending_open o.pending_distinct (λ over. (o.ended_idle over).1))
          (Spares-refl id h.events) (Spares-refl id h.replies)
          (CodesLeft-same h id s s' v e refl refl))
]

pub ask_register-Inv :
    (id : Uuid) (cmd : DeviceCommand) (h : Hub) → Inv h → Inv (ask_register id cmd h).0
unfolding ask_register
ask_register-Inv id cmd h v = elim (Option-cases (lookup id h.sessions)) [
  | inl e ↦ rw (e, ask_register) v
  | inr (s, e) ↦
      rw (e, ask_register)
        (elim (Bool-cases (is_ended s.meta.state)) [
          | inl over ↦ rw over v
          | inr live ↦ rw live (elim (Option-cases s.send) [
            | inl gone ↦ rw gone v
            | inr (conn, there) ↦
                let s' = set_pending (s.pending ++ h.replies.next ∷ []) s in
                rw there (
                  put-Inv h id s' v _ _ _ _ (register_live h id s e v live)
                    (Spares-refl id h.events) (make-Spares id id h.replies)
                    (CodesLeft-same h id s s' v e refl refl))
          ])
        ])
]

pub ask_forget-Inv : (id : Uuid) (req : ℕ) (h : Hub) → Inv h → Inv (ask_forget id req h)
unfolding ask_forget
ask_forget-Inv id req h v = elim (Option-cases (lookup id h.sessions)) [
  | inl e ↦ rw (e, ask_forget) v
  | inr (s, e) ↦
      let s' = set_pending (forget req s.pending) s in
      rw (e, ask_forget)
        (put-Inv h id s' v _ _ _ _
          (forget_ok h id s e v req s h.replies (Keeps-refl h.replies)
            (refl, refl, refl, refl, refl, refl, refl))
          (Spares-refl id h.events) (Spares-refl id h.replies)
          (CodesLeft-same h id s s' v e refl refl))
]

pub deliver-Inv :
    (now : Time) (id : Uuid) (req : ℕ) (payload : Bytes) (h : Hub)
    → Inv h
    → Inv (deliver now id req payload h)
unfolding deliver
deliver-Inv now id req payload h v = elim (Option-cases (lookup id h.sessions)) [
  | inl e ↦ rw (e, deliver) v
  | inr (s, e) ↦
      rw (e, deliver)
        (elim (Bool-cases (is_ended s.meta.state)) [
          | inl over ↦ rw over v
          | inr live ↦ rw live (elim (Bool-cases (any (λ r. r == req) s.pending)) [
            | inr stray ↦
                let o = v.sessions_ok id s e in
                let s' = record s { meta = record s.meta { last_seen = now } } in
                rw stray (
                  put-Inv h id s' v _ _ _ _
                    (repended h id s e v s' h.replies (refl, refl, refl, refl, refl, refl, refl)
                      o.pending_open o.pending_distinct (λ over. (o.ended_idle over).1))
                    (Spares-refl id h.events) (Spares-refl id h.replies)
                    (CodesLeft-same h id s s' v e refl refl))
            | inl awaited ↦
                let o = v.sessions_ok id s e in
                let own = All-any (IsOpen h.replies id) req s.pending awaited o.pending_open in
                let k = offer-Keeps 1 payload req h.replies own.opened in
                let seen = record s { meta = record s.meta { last_seen = now } } in
                let s' = set_pending (forget req s.pending) seen in
                rw awaited (
                  put-Inv h id s' v _ _ _ _
                    (forget_ok h id s e v req seen _ k (refl, refl, refl, refl, refl, refl, refl))
                    (Spares-refl id h.events) (Keeps-Spares id k)
                    (CodesLeft-same h id s s' v e refl refl))
          ])
        ])
]

-- A receive from a reply channel changes no session.
pub replies-Inv :
    (h : Hub) (replies' : Store Bytes)
    → Keeps h.replies replies'
    → Inv h
    → Inv (record h { replies = replies' })
replies-Inv h replies' k v = record {
  sessions_ok = λ id s f.
      let o = v.sessions_ok id s f in
      repended h id s f v s replies' (refl, refl, refl, refl, refl, refl, refl)
        (All-map _ _ (λ w p. Keeps-IsOpen k p) s.pending o.pending_open) o.pending_distinct
        (λ over. (o.ended_idle over).1);
  codes_ok = v.codes_ok;
  events_calm = v.events_calm;
  replies_calm = k.panics_same ∙ v.replies_calm;
}
