-- ===== src/Broker/Mailboxes/Joins.antt =====
-- `Subscribe` of pkg/sse/broker.go against mailboxes.
use code_scout.Common.{
  ℕ, suc, ◌<◌, ◌≡◌, refl, sym, ◌∙◌, ap, true, false, [], ◌∷◌, ◌++◌, inl, inr, arith, ◌==◌, leb,
  length, All-map, insert, nat_eq, Bool-cases,
}
use code_scout.Domain.LiveSession.{Uuid}
use code_scout.Live.Channel.{Store, make}
use code_scout.Broker.{Broker, max_per_project, subs_in, subscribe}
use code_scout.Broker.Steps.{joins}
use code_scout.Broker.Invariant.{BrokerOk, SubsOk, subs_of-SubsOk}
use code_scout.Broker.Mailboxes.{Mailboxes, change, mail_step, mail_of}
use code_scout.Broker.Mailboxes.Boxes.{box, map-box_same, map-append-one, length-map-box}
use code_scout.Broker.Mailboxes.Projects.{
  subs_in-insert, if-same, seen, boxes_of, on_project, same_mail,
}

module _ {A : Type 0} where
  old_channel : (p w : ℕ) (st : Store A) → w < st.next → (make p st).chan w ≡ st.chan w
  old_channel p w st made = ground (arith, made)

  -- Channels that were made are not the next one.
  make-seen :
      (p q : Uuid) (b : Broker A)
      → SubsOk b.channels q (subs_in q b.subscribers)
      → seen (make p b.channels) (subs_in q b.subscribers) ≡ boxes_of b q
  make-seen p q b s =
      map-box_same b.channels (make p b.channels) (subs_in q b.subscribers) (
        All-map _ _ (λ w o. old_channel p w b.channels o.made) (subs_in q b.subscribers)
          s.subs_open)

  new_box : (p : Uuid) (st : Store A) → box (make p st) st.next ≡ (st.next, [])
  new_box p st = ground arith

  joins_full :
      (p : Uuid) (b : Broker A)
      → leb max_per_project (length (subs_in p b.subscribers)) ≡ true
      → (subscribe p b).1
        ≡ record b { subscribers = insert p (subs_in p b.subscribers) b.subscribers }
  unfolding subscribe
  joins_full p b h = rw h refl

  joins_room :
      (p : Uuid) (b : Broker A)
      → leb max_per_project (length (subs_in p b.subscribers)) ≡ false
      → (subscribe p b).1 ≡ record b {
        subscribers = insert p (subs_in p b.subscribers ++ b.channels.next ∷ []) b.subscribers;
        channels = make p b.channels;
      }
  unfolding subscribe
  joins_room p b h = rw h refl

  mail_full :
      (p : Uuid) (m : Mailboxes A)
      → leb max_per_project (length (m.boxes p)) ≡ true
      → mail_step (joins p) m ≡ m
  unfolding mail_step
  mail_full p m h = rw h refl

  mail_room :
      (p : Uuid) (m : Mailboxes A)
      → leb max_per_project (length (m.boxes p)) ≡ false
      → mail_step (joins p) m
        ≡ record (change p (λ bs. bs ++ (m.fresh, []) ∷ []) m) { fresh = suc m.fresh }
  unfolding mail_step
  mail_room p m h = rw h refl

  counted :
      (p : Uuid) (b : Broker A)
      → leb max_per_project (length (boxes_of b p))
        ≡ leb max_per_project (length (subs_in p b.subscribers))
  counted p b = ap (leb max_per_project) (length-map-box b.channels (subs_in p b.subscribers))

  pub joins-mail :
      (p : Uuid) (b : Broker A)
      → BrokerOk b
      → mail_of (subscribe p b).1 ≡ mail_step (joins p) (mail_of b)
  unfolding mail_of
  joins-mail p b h =
      let subs = subs_in p b.subscribers in
      elim (Bool-cases (leb max_per_project (length subs))) [
        | inl full ↦
            ap mail_of (joins_full p b full)
            ∙ same_mail _ (mail_of b)
                (λ q.
                  on_project p q subs b.channels b.channels b.subscribers
                    (insert p subs b.subscribers) (λ bs. bs) (subs_in-insert p q subs b.subscribers)
                    refl (λ n. refl)
                  ∙ if-same (p == q) (boxes_of b q))
                refl
            ∙ sym (mail_full p (mail_of b) (counted p b ∙ full))
        | inr room ↦
            ap mail_of (joins_room p b room)
            ∙ same_mail _ _
                (λ q.
                  on_project p q (subs ++ b.channels.next ∷ []) b.channels (make p b.channels)
                    b.subscribers (insert p (subs ++ b.channels.next ∷ []) b.subscribers)
                    (λ bs. bs ++ (b.channels.next, []) ∷ []) (subs_in-insert p q _ b.subscribers)
                    (map-append-one (make p b.channels) subs b.channels.next
                      ∙ ap (λ bs. bs ++ box (make p b.channels) b.channels.next ∷ [])
                          (make-seen p p b (subs_of-SubsOk p b h))
                      ∙ ap (λ x. boxes_of b p ++ x ∷ []) (new_box p b.channels))
                    (λ n. make-seen p q b (subs_of-SubsOk q b h)))
                refl
            ∙ sym (mail_room p (mail_of b) (counted p b ∙ room))
      ]
