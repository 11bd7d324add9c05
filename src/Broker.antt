-- ===== src/Broker.antt =====
-- pkg/sse/broker.go: batches of logs, fanned out to the channels that subscribed to a project. Each
-- function is one critical section of the broker's mutex. A map of channels is the list of them in the
-- order of their subscriptions, and `A` is a batch.
pub mod Steps
pub mod Invariant
pub mod Safety
pub mod Mailboxes
use code_scout.Common.{
  ℕ, Bool, true, false, not, List, [], ◌∷◌, ◌++◌, Option, none, some, if◌then◌else◌, ◌==◌, leb,
  length, keep, any, lookup, insert, delete, nat_eq,
}
use code_scout.Domain.LiveSession.{Uuid}
use code_scout.Live.Channel.{Store, Chan, make, close, fan_out, close_all}

abbrev pub max_per_project : ℕ
max_per_project = 50

abbrev pub buffer_size : ℕ
buffer_size = 100

pub record Broker (A : Type 0) : Type 0 where
  pub subscribers : List (Uuid × List ℕ)
  pub channels : Store A

-- A nil map is empty.
abbrev pub or_none : Option (List ℕ) → List ℕ
or_none none = []
or_none (some subs) = subs

-- `b.subscribers[projectID]`
abbrev pub subs_in : Uuid → List (Uuid × List ℕ) → List ℕ
subs_in project m = or_none (lookup project m)

-- The end of `Unsubscribe`: a project without channels is forgotten.
abbrev pub store_subs : Uuid → List ℕ → List (Uuid × List ℕ) → List (Uuid × List ℕ)
store_subs project [] m = delete project m
store_subs project (w ∷ ws) m = insert project (w ∷ ws) m

module _ {A : Type 0} where
  -- `NewBroker`
  unfoldable pub new_broker : Broker A
  new_broker = record {
    subscribers = [];
    channels = record {
      chan = λ w. record { owner = 0; buffer = []; closed = true };
      next = 0;
      panics = 0;
    };
  }

  abbrev pub subs_of : Uuid → Broker A → List ℕ
  subs_of project b = subs_in project b.subscribers

  -- `Subscribe`: the channel, or none for the error.
  unfoldable pub subscribe : Uuid → Broker A → Option ℕ × Broker A
  subscribe project b =
      let subs = subs_of project b in
      if leb max_per_project (length subs)
      then (none, record b { subscribers = insert project subs b.subscribers })
      else (
        some b.channels.next,
        record b {
          subscribers = insert project (subs ++ b.channels.next ∷ []) b.subscribers;
          channels = make project b.channels;
        },
      )

  abbrev pub unsubscribe_from : Uuid → ℕ → List ℕ → Broker A → Broker A
  unsubscribe_from project ch subs b =
      if any (λ w. w == ch) subs
      then record b {
        subscribers = store_subs project (keep (λ w. not (w == ch)) subs) b.subscribers;
        channels = close ch b.channels;
      }
      else record b { subscribers = store_subs project subs b.subscribers }

  -- `Unsubscribe`
  unfoldable pub unsubscribe : Uuid → ℕ → Broker A → Broker A
  unsubscribe project ch b = elim (lookup project b.subscribers) [
    | none ↦ b
    | some subs ↦ unsubscribe_from project ch subs b
  ]

  -- `Publish`
  unfoldable pub broadcast : Uuid → A → Broker A → Broker A
  broadcast project logs b = elim (lookup project b.subscribers) [
    | none ↦ b
    | some subs ↦ record b { channels = fan_out buffer_size (logs ∷ []) subs b.channels }
  ]

  unfoldable pub close_projects : List (Uuid × List ℕ) → Store A → Store A
  close_projects [] st = st
  close_projects ((project, subs) ∷ m) st = close_projects m (close_all subs st)

  -- `Close`
  unfoldable pub close_broker : Broker A → Broker A
  close_broker b = record b { subscribers = []; channels = close_projects b.subscribers b.channels }

  -- `SubscriberCount`
  unfoldable pub subscriber_count : Uuid → Broker A → ℕ
  subscriber_count project b = length (subs_of project b)
