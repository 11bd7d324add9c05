-- ===== src/Broker/Mailboxes/Sends.antt =====
-- `Publish` of pkg/sse/broker.go against mailboxes.
use code_scout.Common.{
  ℕ, ◌≡◌, ◌≢◌, refl, sym, ◌∙◌, ap, List, [], ◌∷◌, map, none, some, inl, inr, All, All-map, lookup,
  nat_eq, Option-cases,
}
use code_scout.Domain.LiveSession.{Uuid}
use code_scout.Live.Channel.{Store, fan_out}
use code_scout.Live.Channel.Safety.{IsOpen, fan_out-Keeps}
use code_scout.Live.Channel.Delivery.{fan_out_else}
use code_scout.Broker.{Broker, buffer_size, or_none, subs_in, broadcast}
use code_scout.Broker.Steps.{sends}
use code_scout.Broker.Invariant.{BrokerOk, SubsOk, subs_of-SubsOk}
use code_scout.Broker.Mailboxes.{put, mail_step, mail_of}
use code_scout.Broker.Mailboxes.Boxes.{map-box, map-box_same, fan_out-put}
use code_scout.Broker.Mailboxes.Projects.{found_again, nothing_left, seen, on_project, same_mail}

module _ {A : Type 0} where
  fan_out-next :
      (x : A) (ws : List ℕ) (st : Store A) (p : Uuid)
      → SubsOk st p ws
      → (fan_out buffer_size (x ∷ []) ws st).next ≡ st.next
  fan_out-next x ws st p s = (fan_out-Keeps buffer_size (x ∷ []) p ws st s.subs_open).next_same

  sent :
      (p : Uuid) (x : A) (b : Broker A) (subs : List ℕ)
      → lookup p b.subscribers ≡ some subs
      → broadcast p x b
        ≡ record b { channels = fan_out buffer_size (x ∷ []) (subs_in p b.subscribers) b.channels }
  unfolding broadcast
  sent p x b subs e = rw (broadcast, e) refl

  sent_unknown :
      (p : Uuid) (x : A) (b : Broker A) → lookup p b.subscribers ≡ none → broadcast p x b ≡ b
  unfolding broadcast
  sent_unknown p x b e = rw (broadcast, e) refl

  -- Channels of different projects are different.
  strangers :
      (p q : Uuid) (st : Store A) (ws : List ℕ) (v : ℕ)
      → p ≢ q
      → All (IsOpen st p) ws
      → IsOpen st q v
      → All (λ w. w ≢ v) ws
  strangers p q st ws v n h o =
      All-map _ _ (λ w k e. n (sym k.made_for ∙ ap (λ j. (st.chan j).owner) e ∙ o.made_for)) ws h

  pub sends-mail :
      (p : Uuid) (x : A) (b : Broker A)
      → BrokerOk b
      → mail_of (broadcast p x b) ≡ mail_step (sends p x) (mail_of b)
  unfolding mail_of mail_step
  sends-mail p x b h =
      let subs = subs_in p b.subscribers in
      let s = subs_of-SubsOk p b h in
      let st' = fan_out buffer_size (x ∷ []) subs b.channels in
      elim (Option-cases (lookup p b.subscribers)) [
        | inl e ↦
            ap mail_of (sent_unknown p x b e)
            ∙ same_mail _ _
                (λ q.
                  on_project p q [] b.channels b.channels b.subscribers b.subscribers (map (put x))
                    (nothing_left p q b.subscribers e)
                    (ap (λ ws. map (put x) (seen b.channels ws)) (sym (ap or_none e))) (λ n. refl))
                refl
        | inr (found, e) ↦
            ap mail_of (sent p x b found e)
            ∙ same_mail _ _
                (λ q.
                  on_project p q subs b.channels st' b.subscribers b.subscribers (map (put x))
                    (found_again p q b.subscribers)
                    (map-box b.channels st' (put x) subs (
                      fan_out-put x subs b.channels s.subs_distinct
                        (All-map _ _ (λ w o. o.opened) subs s.subs_open)))
                    (λ n. map-box_same b.channels st' (subs_in q b.subscribers) (
                      All-map _ _
                        (λ v o.
                          fan_out_else buffer_size (x ∷ []) subs v b.channels
                            (strangers p q b.channels subs v n s.subs_open o))
                        (subs_in q b.subscribers) (subs_of-SubsOk q b h).subs_open)))
                (fan_out-next x subs b.channels p s)
      ]
