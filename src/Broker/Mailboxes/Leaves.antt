-- ===== src/Broker/Mailboxes/Leaves.antt =====
-- `Unsubscribe` of pkg/sse/broker.go against mailboxes.
use code_scout.Common.{
  ℕ, ◌≡◌, refl, sym, ◌∙◌, ap, true, false, not, List, [], map, none, some, inl, inr, arith, ◌==◌,
  keep, any, lookup, nat_eq, Bool-cases, Option-cases,
}
use code_scout.Domain.LiveSession.{Uuid}
use code_scout.Live.Channel.{Store, close}
use code_scout.Broker.{Broker, or_none, subs_in, store_subs, unsubscribe}
use code_scout.Broker.Steps.{leaves}
use code_scout.Broker.Mailboxes.{mail_step, mail_of}
use code_scout.Broker.Mailboxes.Boxes.{box, keep-map, close-box, keep-absent}
use code_scout.Broker.Mailboxes.Projects.{
  subs_in-store_subs, left, nothing_left, seen, on_project, same_mail,
}

module _ {A : Type 0} where
  leaves_all :
      (p : Uuid) (ch : ℕ) (b : Broker A) (st : Store A)
      → ((w : ℕ) → box st w ≡ box b.channels w)
      → st.next ≡ b.channels.next
      → mail_of (record b {
        subscribers = store_subs p (left ch (subs_in p b.subscribers)) b.subscribers;
        channels = st;
      })
        ≡ mail_step (leaves p ch) (mail_of b)
  unfolding mail_of mail_step
  leaves_all p ch b st same next =
      let subs = subs_in p b.subscribers in
      same_mail _ _
        (λ q.
          on_project p q (left ch subs) b.channels st b.subscribers
            (store_subs p (left ch subs) b.subscribers) (keep (λ x. not (x.0 == ch)))
            (subs_in-store_subs p q (left ch subs) b.subscribers)
            (keep-map st ch subs
              ∙ ap (keep (λ x. not (x.0 == ch))) (ap (λ f. map f subs) (λ i w. same w i)))
            (λ n. ap (λ f. map f (subs_in q b.subscribers)) (λ i w. same w i)))
        next

  close-next : (ch : ℕ) (st : Store A) → (close ch st).next ≡ st.next
  unfolding close
  close-next ch st = ground arith

  leave_present :
      (p : Uuid) (ch : ℕ) (b : Broker A) (subs : List ℕ)
      → lookup p b.subscribers ≡ some subs
      → any (λ w. w == ch) subs ≡ true
      → unsubscribe p ch b ≡ record b {
        subscribers = store_subs p (left ch (subs_in p b.subscribers)) b.subscribers;
        channels = close ch b.channels;
      }
  unfolding unsubscribe
  leave_present p ch b subs e present = rw (unsubscribe, e, present) refl

  leave_absent :
      (p : Uuid) (ch : ℕ) (b : Broker A) (subs : List ℕ)
      → lookup p b.subscribers ≡ some subs
      → any (λ w. w == ch) subs ≡ false
      → unsubscribe p ch b
        ≡ record b { subscribers = store_subs p (left ch (subs_in p b.subscribers)) b.subscribers }
  unfolding unsubscribe
  leave_absent p ch b subs e absent = rw (unsubscribe, e, absent, keep-absent ch subs absent) refl

  leave_unknown :
      (p : Uuid) (ch : ℕ) (b : Broker A) → lookup p b.subscribers ≡ none → unsubscribe p ch b ≡ b
  unfolding unsubscribe
  leave_unknown p ch b e = rw (unsubscribe, e) refl

  pub leaves-mail :
      (p : Uuid) (ch : ℕ) (b : Broker A)
      → mail_of (unsubscribe p ch b) ≡ mail_step (leaves p ch) (mail_of b)
  unfolding mail_of mail_step
  leaves-mail p ch b = elim (Option-cases (lookup p b.subscribers)) [
    | inl e ↦
        ap mail_of (leave_unknown p ch b e)
        ∙ same_mail _ _
            (λ q.
              on_project p q [] b.channels b.channels b.subscribers b.subscribers
                (keep (λ x. not (x.0 == ch))) (nothing_left p q b.subscribers e)
                (ap (λ ws. keep (λ x. not (x.0 == ch)) (seen b.channels ws)) (sym (ap or_none e)))
                (λ n. refl))
            refl
    | inr (subs, e) ↦ elim (Bool-cases (any (λ w. w == ch) subs)) [
      | inl present ↦
          ap mail_of (leave_present p ch b subs e present)
          ∙ leaves_all p ch b (close ch b.channels) (λ w. close-box ch w b.channels)
              (close-next ch b.channels)
      | inr absent ↦
          ap mail_of (leave_absent p ch b subs e absent)
          ∙ leaves_all p ch b b.channels (λ w. refl) refl
    ]
  ]
