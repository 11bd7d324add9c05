-- ===== src/Broker/Steps.antt =====
-- Histories of the broker: its critical sections, and the receives of subscribers, in any order.
use code_scout.Common.{ℕ, List, [], ◌∷◌}
use code_scout.Domain.LiveSession.{Uuid}
use code_scout.Live.Channel.{receive}
use code_scout.Broker.{Broker, subscribe, unsubscribe, broadcast, close_broker}

pub data BrokerCall (A : Type 0) : Type 0 where
  joins : Uuid → BrokerCall A
  leaves : Uuid → ℕ → BrokerCall A
  sends : Uuid → A → BrokerCall A
  reads : ℕ → BrokerCall A
  shuts : BrokerCall A

module _ {A : Type 0} where
  unfoldable pub broker_step : BrokerCall A → Broker A → Broker A
  broker_step (joins project) b = (subscribe project b).1
  broker_step (leaves project ch) b = unsubscribe project ch b
  broker_step (sends project logs) b = broadcast project logs b
  broker_step (reads ch) b = record b { channels = (receive ch b.channels).1 }
  broker_step shuts b = close_broker b

  unfoldable pub broker_run : List (BrokerCall A) → Broker A → Broker A
  broker_run [] b = b
  broker_run (c ∷ cs) b = broker_run cs (broker_step c b)
