-- ===== src/Broker/Safety.antt =====
-- Every step of the broker of pkg/sse/broker.go, and whole histories.
use code_scout.Common.{ℕ, ◌≡◌, ◌≢◌, refl, ◌∙◌, List, [], ◌∷◌, All, nat_eq}
use code_scout.Domain.LiveSession.{Uuid}
use code_scout.Live.Channel.{Store, close_all, receive}
use code_scout.Live.Channel.Safety.{ClosesOnly, close_all-ClosesOnly, receive-Keeps}
use code_scout.Broker.{Broker, new_broker, close_projects, close_broker}
use code_scout.Broker.Steps.{
  BrokerCall, joins, leaves, sends, reads, shuts, broker_step, broker_run,
}
use code_scout.Broker.Invariant.Keyed.{Entries, Entries-map}
use code_scout.Broker.Invariant.{
  ClosesOnly-SubsOk, Keeps-SubsOk, broadcast-BrokerOk, new_broker-BrokerOk, subscribe-BrokerOk,
  unsubscribe-BrokerOk, SubsOk, BrokerOk,
}

module _ {A : Type 0} where
  -- Entries of projects other than the one whose channels were closed.
  Entries-others :
      {st st' : Store A} (project : Uuid) (m : List (Uuid × List ℕ))
      → ClosesOnly project st st'
      → All (λ e. e.0 ≢ project) m
      → Entries (SubsOk st) m
      → Entries (SubsOk st') m
  Entries-others project [] k n h = tt
  Entries-others project ((p, subs) ∷ m) k n (s, (others, h)) =
      (ClosesOnly-SubsOk project p subs k n.0 s, (others, Entries-others project m k n.1 h))

  pub close_projects_lem :
      (m : List (Uuid × List ℕ)) (st : Store A)
      → Entries (SubsOk st) m
      → ((close_projects m st).panics ≡ st.panics) × ((close_projects m st).next ≡ st.next)
  unfolding close_projects
  close_projects_lem [] st h = (refl, refl)
  close_projects_lem ((project, subs) ∷ m) st (s, (others, rest)) =
      let k = close_all-ClosesOnly project subs st s.subs_distinct s.subs_open in
      let (panics, next) =
        close_projects_lem m (close_all subs st) (Entries-others project m k others rest) in
      (panics ∙ k.panics_same, next ∙ k.next_same)

  close_broker-BrokerOk : (b : Broker A) → BrokerOk b → BrokerOk (close_broker b)
  unfolding close_broker
  close_broker-BrokerOk b h = record {
    entries_ok = tt;
    no_panic = (close_projects_lem b.subscribers b.channels h.entries_ok).0 ∙ h.no_panic;
  }

  reads-BrokerOk :
      (ch : ℕ) (b : Broker A)
      → BrokerOk b
      → BrokerOk (record b { channels = (receive ch b.channels).1 })
  reads-BrokerOk ch b h =
      let k = receive-Keeps ch b.channels in
      record {
        entries_ok = Entries-map _ _ (Keeps-SubsOk k) b.subscribers h.entries_ok;
        no_panic = k.panics_same ∙ h.no_panic;
      }

  pub broker_step-BrokerOk :
      (c : BrokerCall A) (b : Broker A) → BrokerOk b → BrokerOk (broker_step c b)
  unfolding broker_step
  broker_step-BrokerOk (joins project) b h = subscribe-BrokerOk project b h
  broker_step-BrokerOk (leaves project ch) b h = unsubscribe-BrokerOk project ch b h
  broker_step-BrokerOk (sends project logs) b h = broadcast-BrokerOk project logs b h
  broker_step-BrokerOk (reads ch) b h = reads-BrokerOk ch b h
  broker_step-BrokerOk shuts b h = close_broker-BrokerOk b h

  broker_run-Ok :
      (cs : List (BrokerCall A)) (b : Broker A) → BrokerOk b → BrokerOk (broker_run cs b)
  unfolding broker_run
  broker_run-Ok [] b h = h
  broker_run-Ok (c ∷ cs) b h = broker_run-Ok cs (broker_step c b) (broker_step-BrokerOk c b h)

  -- After any history of subscriptions, publications, receives and shutdowns, the channels of each
  -- project are open, all different and at most fifty, and no send or close has panicked.
  pub broker_run-BrokerOk : (cs : List (BrokerCall A)) → BrokerOk (broker_run cs new_broker)
  broker_run-BrokerOk cs = broker_run-Ok cs new_broker new_broker-BrokerOk
