-- ===== src/Broker/Invariant.antt =====
-- What holds of the broker between its critical sections.
pub mod Keyed
use code_scout.Common.{
  ℕ, ◌≤◌, ◌≡◌, ◌≢◌, refl, sym, ◌∙◌, ap, subst, Bool, true, false, not, List, [], ◌∷◌, ◌++◌, Option,
  none, some, inl, inr, arith, if◌then◌else◌, ◌==◌, ==_iff, leb, length, length-append,
  length-keep-le, keep, any, All, All-any, All-map, All-append, All-keep, Distinct, Distinct-keep,
  Distinct-concat, lookup, insert, delete, nat_eq, Bool-cases, Option-cases,
}
use code_scout.Domain.LiveSession.{Uuid}
use code_scout.Live.Channel.{Store, make, close, fan_out, close_all, receive}
use code_scout.Live.Channel.Safety.{
  IsOpen, Keeps, Keeps-IsOpen, fan_out-Keeps, ClosesOnly, ClosesOnly-IsOpen, close-ClosesOnly,
  close-IsOpen, close_all-ClosesOnly, receive-Keeps, make-IsOpen, IsOpen-make,
}
use code_scout.Broker.{
  Broker, new_broker, max_per_project, buffer_size, subs_of, subscribe, store_subs, unsubscribe,
  unsubscribe_from, broadcast, close_projects, close_broker,
}
use code_scout.Broker.Steps.{
  BrokerCall, joins, leaves, sends, reads, shuts, broker_step, broker_run,
}
use code_scout.Broker.Invariant.Keyed.{
  Others, Entries, Entries-lookup, Entries-map, Entries-insert, Entries-delete,
}

pub other : (ch w : ℕ) → not (w == ch) ≡ true → w ≢ ch
other ch w h = ground arith

store_subs-Entries :
    (P : Uuid → List ℕ → Type 0) (project : Uuid) (subs : List ℕ) (m : List (Uuid × List ℕ))
    → Entries (Others P project) m
    → P project subs
    → Entries P (store_subs project subs m)
store_subs-Entries P project [] m h p = Entries-delete P project m h
store_subs-Entries P project (w ∷ ws) m h p = Entries-insert P project (w ∷ ws) m h p

module _ {A : Type 0} where
  -- The channels of a project are open, its own, all different, and no more than it may have.
  pub record SubsOk (st : Store A) (project : Uuid) (subs : List ℕ) : Type 0 where
    pub subs_open : All (IsOpen st project) subs
    pub subs_distinct : Distinct subs
    pub subs_bounded : length subs ≤ max_per_project

  -- That holds of every project, and nothing was sent on a closed channel or closed twice.
  pub record BrokerOk (b : Broker A) : Type 0 where
    pub entries_ok : Entries (SubsOk b.channels) b.subscribers
    pub no_panic : b.channels.panics ≡ 0

  pub Keeps-SubsOk :
      {st st' : Store A}
      → Keeps st st'
      → (project : Uuid) (subs : List ℕ) → SubsOk st project subs
      → SubsOk st' project subs
  Keeps-SubsOk k project subs h = record {
    subs_open = All-map _ _ (λ w o. Keeps-IsOpen k o) subs h.subs_open;
    subs_distinct = h.subs_distinct;
    subs_bounded = h.subs_bounded;
  }

  pub ClosesOnly-SubsOk :
      {st st' : Store A} (owner project : Uuid) (subs : List ℕ)
      → ClosesOnly owner st st'
      → project ≢ owner
      → SubsOk st project subs
      → SubsOk st' project subs
  ClosesOnly-SubsOk owner project subs k n h = record {
    subs_open = All-map _ _ (λ w o. ClosesOnly-IsOpen k n o) subs h.subs_open;
    subs_distinct = h.subs_distinct;
    subs_bounded = h.subs_bounded;
  }

  SubsOk-make :
      (owner : Uuid) (st : Store A) (project : Uuid) (subs : List ℕ)
      → SubsOk st project subs
      → SubsOk (make owner st) project subs
  SubsOk-make owner st project subs h = record {
    subs_open = All-map _ _ (λ w o. IsOpen-make owner st o) subs h.subs_open;
    subs_distinct = h.subs_distinct;
    subs_bounded = h.subs_bounded;
  }

  no_subs : (st : Store A) (project : Uuid) → SubsOk st project []
  no_subs st project = record { subs_open = tt; subs_distinct = tt; subs_bounded = omega arith }

  pub subs_of-SubsOk :
      (project : Uuid) (b : Broker A) → BrokerOk b → SubsOk b.channels project (subs_of project b)
  subs_of-SubsOk project b h = elim (Option-cases (lookup project b.subscribers)) [
    | inl e ↦ rw (subs_of, e) (no_subs b.channels project)
    | inr (subs, e) ↦ rw (subs_of, e) (Entries-lookup _ project subs b.subscribers h.entries_ok e)
  ]

  -- A new channel among those of a project that has room.
  join-SubsOk :
      (project : Uuid) (b : Broker A) (subs : List ℕ)
      → SubsOk b.channels project subs
      → leb max_per_project (length subs) ≡ false
      → SubsOk (make project b.channels) project (subs ++ b.channels.next ∷ [])
  join-SubsOk project b subs s room = record {
    subs_open =
        All-append _ subs _ (All-map _ _ (λ w o. IsOpen-make project b.channels o) subs s.subs_open)
          (make-IsOpen project b.channels, tt);
    subs_distinct =
        Distinct-concat subs b.channels.next s.subs_distinct
          (All-map _ _ (λ w o e. absurd (omega (arith, o.made, e))) subs s.subs_open);
    subs_bounded = ground (arith, length-append subs (b.channels.next ∷ []), room);
  }

  pub new_broker-BrokerOk : BrokerOk new_broker
  unfolding new_broker
  new_broker-BrokerOk = record { entries_ok = tt; no_panic = refl }

  pub subscribe-BrokerOk :
      (project : Uuid) (b : Broker A) → BrokerOk b → BrokerOk (subscribe project b).1
  unfolding subscribe
  subscribe-BrokerOk project b h =
      let subs = subs_of project b in
      let s = subs_of-SubsOk project b h in
      elim (Bool-cases (leb max_per_project (length subs))) [
        | inl full ↦ rw full (record {
          entries_ok =
              Entries-insert _ project subs b.subscribers
                (Entries-map _ _ (λ k v p _. p) b.subscribers h.entries_ok) s;
          no_panic = h.no_panic;
        })
        | inr room ↦ rw room (record {
          entries_ok =
              Entries-insert _ project (subs ++ b.channels.next ∷ []) b.subscribers
                (Entries-map _ _ (λ k v p _. SubsOk-make project b.channels k v p) b.subscribers
                  h.entries_ok)
                (join-SubsOk project b subs s room);
          no_panic = h.no_panic;
        })
      ]

  -- One channel of a project is closed and taken out.
  leave-BrokerOk :
      (project : Uuid) (ch : ℕ) (b : Broker A) (subs : List ℕ)
      → BrokerOk b
      → SubsOk b.channels project subs
      → any (λ w. w == ch) subs ≡ true
      → BrokerOk (record b {
        subscribers = store_subs project (keep (λ w. not (w == ch)) subs) b.subscribers;
        channels = close ch b.channels;
      })
  leave-BrokerOk project ch b subs h s present =
      let o = All-any (IsOpen b.channels project) ch subs present s.subs_open in
      let k = close-ClosesOnly ch project b.channels o in
      record {
        entries_ok =
            store_subs-Entries _ project _ b.subscribers
              (Entries-map _ _ (λ p v q n. ClosesOnly-SubsOk project p v k n q) b.subscribers
                h.entries_ok)
              (record {
                subs_open =
                    All-map _ _
                      (λ w (p, n). close-IsOpen ch w project b.channels (other ch w n) o p) _
                      (All-keep (IsOpen b.channels project) (λ w. not (w == ch)) subs s.subs_open);
                subs_distinct = Distinct-keep (λ w. not (w == ch)) subs s.subs_distinct;
                subs_bounded =
                    omega (arith, length-keep-le (λ w. not (w == ch)) subs, s.subs_bounded);
              });
        no_panic = k.panics_same ∙ h.no_panic;
      }

  pub unsubscribe-BrokerOk :
      (project : Uuid) (ch : ℕ) (b : Broker A) → BrokerOk b → BrokerOk (unsubscribe project ch b)
  unfolding unsubscribe
  unsubscribe-BrokerOk project ch b h = elim (Option-cases (lookup project b.subscribers)) [
    | inl e ↦ rw (unsubscribe, e) h
    | inr (subs, e) ↦
        let s = Entries-lookup _ project subs b.subscribers h.entries_ok e in
        elim (Bool-cases (any (λ w. w == ch) subs)) [
          | inl present ↦
              rw (unsubscribe, e, present) (leave-BrokerOk project ch b subs h s present)
          | inr absent ↦
              rw (unsubscribe, e, absent)
                (record {
                  entries_ok =
                      store_subs-Entries _ project subs b.subscribers
                        (Entries-map _ _ (λ k v p _. p) b.subscribers h.entries_ok) s;
                  no_panic = h.no_panic;
                })
        ]
  ]

  pub broadcast-BrokerOk :
      (project : Uuid) (logs : A) (b : Broker A) → BrokerOk b → BrokerOk (broadcast project logs b)
  unfolding broadcast
  broadcast-BrokerOk project logs b h = elim (Option-cases (lookup project b.subscribers)) [
    | inl e ↦ rw (broadcast, e) h
    | inr (subs, e) ↦
        let s = Entries-lookup _ project subs b.subscribers h.entries_ok e in
        let k = fan_out-Keeps buffer_size (logs ∷ []) project subs b.channels s.subs_open in
        rw (broadcast, e)
          (record {
            entries_ok = Entries-map _ _ (Keeps-SubsOk k) b.subscribers h.entries_ok;
            no_panic = k.panics_same ∙ h.no_panic;
          })
  ]
