-- ===== src/Broker/Mailboxes.antt =====
-- What a subscriber may think of pkg/sse/broker.go: each channel is a mailbox of its own, and no
-- channel is shared or closed.
pub mod Boxes
pub mod Projects
pub mod Joins
pub mod Leaves
pub mod Sends
pub mod Refinement
use code_scout.Common.{
  ℕ, suc, Bool, not, List, [], ◌∷◌, ◌++◌, map, if◌then◌else◌, ◌==◌, leb, length, keep,
}
use code_scout.Domain.LiveSession.{Uuid}
use code_scout.Live.Channel.Delivery.{with_last}
use code_scout.Broker.{Broker, subs_of, max_per_project, buffer_size}
use code_scout.Broker.Steps.{BrokerCall, joins, leaves, sends, reads, shuts}

-- Per project, the mailboxes with the batches that wait in them; `fresh` names the next mailbox.
pub record Mailboxes (A : Type 0) : Type 0 where
  pub boxes : Uuid → List (ℕ × List A)
  pub fresh : ℕ

module _ {A : Type 0} where
  abbrev pub change : Uuid → (List (ℕ × List A) → List (ℕ × List A)) → Mailboxes A → Mailboxes A
  change project f m = record m { boxes = λ q. if project == q then f (m.boxes q) else m.boxes q }

  -- A batch goes in if there is room.
  abbrev pub put : A → ℕ × List A → ℕ × List A
  put x box = (box.0, with_last buffer_size x box.1)

  abbrev pub behind : List A → List A
  behind [] = []
  behind (x ∷ xs) = xs

  abbrev pub taken_from : ℕ → ℕ × List A → ℕ × List A
  taken_from ch box = (box.0, if box.0 == ch then behind box.1 else box.1)

  unfoldable pub mail_step : BrokerCall A → Mailboxes A → Mailboxes A
  mail_step (joins project) m =
      if leb max_per_project (length (m.boxes project))
      then m
      else record (change project (λ bs. bs ++ (m.fresh, []) ∷ []) m) { fresh = suc m.fresh }
  mail_step (leaves project ch) m = change project (keep λ box. not (box.0 == ch)) m
  mail_step (sends project logs) m = change project (map (put logs)) m
  mail_step (reads ch) m = record m { boxes = λ q. map (taken_from ch) (m.boxes q) }
  mail_step shuts m = record m { boxes = λ q. [] }

  unfoldable pub mail_run : List (BrokerCall A) → Mailboxes A → Mailboxes A
  mail_run [] m = m
  mail_run (c ∷ cs) m = mail_run cs (mail_step c m)

  unfoldable pub no_mail : Mailboxes A
  no_mail = record { boxes = λ q. []; fresh = 0 }

  -- The mailboxes that a broker keeps.
  unfoldable pub mail_of : Broker A → Mailboxes A
  mail_of b = record {
    boxes = λ q. map (λ w. (w, (b.channels.chan w).buffer)) (subs_of q b);
    fresh = b.channels.next;
  }
