-- ===== src/Broker/Mailboxes/Refinement.antt =====
-- The broker of pkg/sse/broker.go, with its shared channels, against independent mailboxes.
use code_scout.Common.{ℕ, ◌≡◌, refl, ◌∙◌, ap, List, [], ◌∷◌, map, lookup, nat_eq}
use code_scout.Live.Channel.{Store, receive}
use code_scout.Live.Channel.Safety.{receive-Keeps}
use code_scout.Broker.{Broker, new_broker, subs_in, close_broker}
use code_scout.Broker.Steps.{
  BrokerCall, joins, leaves, sends, reads, shuts, broker_step, broker_run,
}
use code_scout.Broker.Invariant.{BrokerOk, new_broker-BrokerOk}
use code_scout.Broker.Safety.{broker_step-BrokerOk, close_projects_lem}
use code_scout.Broker.Mailboxes.{taken_from, mail_step, mail_run, no_mail, mail_of}
use code_scout.Broker.Mailboxes.Boxes.{box, receive-box}
use code_scout.Broker.Mailboxes.Projects.{same_mail}
use code_scout.Broker.Mailboxes.Joins.{joins-mail}
use code_scout.Broker.Mailboxes.Leaves.{leaves-mail}
use code_scout.Broker.Mailboxes.Sends.{sends-mail}

module _ {A : Type 0} where
  map-taken :
      (ch : ℕ) (st : Store A) (ws : List ℕ)
      → map (box (receive ch st).1) ws ≡ map (taken_from ch) (map (box st) ws)
  map-taken ch st [] = refl
  map-taken ch st (w ∷ ws) = rw (receive-box ch w st, map-taken ch st ws) refl

  reads_mail :
      (ch : ℕ) (b : Broker A)
      → mail_of (record b { channels = (receive ch b.channels).1 })
        ≡ mail_step (reads ch) (mail_of b)
  unfolding mail_of mail_step
  reads_mail ch b =
      same_mail _ _ (λ q. map-taken ch b.channels (subs_in q b.subscribers))
        (receive-Keeps ch b.channels).next_same

  shuts_mail : (b : Broker A) → BrokerOk b → mail_of (close_broker b) ≡ mail_step shuts (mail_of b)
  unfolding mail_of mail_step close_broker lookup
  shuts_mail b h =
      same_mail _ _ (λ q. refl) (close_projects_lem b.subscribers b.channels h.entries_ok).1

  -- The broker and its mailboxes take every step together.
  step-mail :
      (c : BrokerCall A) (b : Broker A)
      → BrokerOk b
      → mail_of (broker_step c b) ≡ mail_step c (mail_of b)
  unfolding broker_step
  step-mail (joins p) b h = joins-mail p b h
  step-mail (leaves p ch) b h = leaves-mail p ch b
  step-mail (sends p x) b h = sends-mail p x b h
  step-mail (reads ch) b h = reads_mail ch b
  step-mail shuts b h = shuts_mail b h

  run-mail :
      (cs : List (BrokerCall A)) (b : Broker A)
      → BrokerOk b
      → mail_of (broker_run cs b) ≡ mail_run cs (mail_of b)
  unfolding broker_run mail_run
  run-mail [] b h = refl
  run-mail (c ∷ cs) b h =
      run-mail cs (broker_step c b) (broker_step-BrokerOk c b h)
      ∙ ap (mail_run cs) (step-mail c b h)

  -- Whatever is called in whatever order, the broker holds for its subscribers what independent
  -- mailboxes would hold: each batch goes to every mailbox of its project that has room, and to no other.
  pub broker_run_lem :
      (cs : List (BrokerCall A)) → mail_of (broker_run cs new_broker) ≡ mail_run cs no_mail
  unfolding mail_of no_mail new_broker lookup
  broker_run_lem cs = run-mail cs new_broker new_broker-BrokerOk
