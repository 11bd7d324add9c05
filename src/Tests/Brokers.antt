-- ===== src/Tests/Brokers.antt =====
-- A small history of the broker.
use code_scout.Common.{ℕ, ◌≡◌, List, [], ◌∷◌}
use code_scout.Broker.{new_broker}
use code_scout.Broker.Steps.{BrokerCall, joins, leaves, sends, reads, broker_run}
use code_scout.Broker.Invariant.{BrokerOk}
use code_scout.Broker.Safety.{broker_run-BrokerOk}
use code_scout.Broker.Mailboxes.{mail_run, no_mail, mail_of}
use code_scout.Broker.Mailboxes.Refinement.{broker_run_lem}

-- Two subscribers of project 7 and one of project 8; one of them leaves twice.
abbrev history : List (BrokerCall ℕ)
history =
    joins 7
    ∷ joins 7
    ∷ joins 8
    ∷ sends 7 100
    ∷ reads 0
    ∷ leaves 7 1
    ∷ leaves 7 1
    ∷ sends 7 101
    ∷ sends 8 102
    ∷ []

broker_run-BrokerOk_example : BrokerOk (broker_run history new_broker)
broker_run-BrokerOk_example = broker_run-BrokerOk history

broker_run_lem_example : mail_of (broker_run history new_broker) ≡ mail_run history no_mail
broker_run_lem_example = broker_run_lem history
