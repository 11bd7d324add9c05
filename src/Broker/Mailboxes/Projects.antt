-- ===== src/Broker/Mailboxes/Projects.antt =====
-- The map of projects of pkg/sse/broker.go, and operations on the channels of one project.
use code_scout.Common.{
  ℕ, ◌≡◌, ◌≢◌, refl, sym, ◌∙◌, ap, Bool, true, false, not, List, [], ◌∷◌, map, Option, none, some,
  inl, inr, if◌then◌else◌, ◌==◌, ==_iff, keep, lookup, insert, delete, lookup-insert, lookup-delete,
  nat_eq, Bool-cases,
}
use code_scout.Domain.LiveSession.{Uuid}
use code_scout.Live.Channel.{Store}
use code_scout.Broker.{Broker, or_none, subs_in, store_subs}
use code_scout.Broker.Invariant.Keyed.{apart}
use code_scout.Broker.Mailboxes.{Mailboxes}
use code_scout.Broker.Mailboxes.Boxes.{box}

pub if-true : {B : Type 0} (b : Bool) (x y : B) → b ≡ true → (if b then x else y) ≡ x
if-true b x y h = rw h refl

pub if-false : {B : Type 0} (b : Bool) (x y : B) → b ≡ false → (if b then x else y) ≡ y
if-false b x y h = rw h refl

pub or_none-if :
    (b : Bool) (s : List ℕ) (o : Option (List ℕ))
    → or_none (if b then some s else o) ≡ (if b then s else or_none o)
or_none-if true s o = refl
or_none-if false s o = refl

pub subs_in-insert :
    (p q : Uuid) (s : List ℕ) (m : List (Uuid × List ℕ))
    → subs_in q (insert p s m) ≡ (if p == q then s else subs_in q m)
subs_in-insert p q s m = ap or_none (lookup-insert p q s m) ∙ or_none-if (p == q) s (lookup q m)

pub subs_in-delete :
    (p q : Uuid) (m : List (Uuid × List ℕ))
    → subs_in q (delete p m) ≡ (if p == q then [] else subs_in q m)
subs_in-delete p q m = ap or_none (lookup-delete p q m) ∙ none_if (p == q) (lookup q m)
  where
    none_if :
        (b : Bool) (o : Option (List ℕ))
        → or_none (if b then none else o) ≡ (if b then [] else or_none o)
    none_if true o = refl
    none_if false o = refl

pub subs_in-store_subs :
    (p q : Uuid) (s : List ℕ) (m : List (Uuid × List ℕ))
    → subs_in q (store_subs p s m) ≡ (if p == q then s else subs_in q m)
subs_in-store_subs p q [] m = subs_in-delete p q m
subs_in-store_subs p q (w ∷ ws) m = subs_in-insert p q (w ∷ ws) m

pub if-same : {B : Type 0} (b : Bool) (x : B) → (if b then x else x) ≡ x
if-same true x = refl
if-same false x = refl

-- The channels of a project without one of them.
abbrev pub left : ℕ → List ℕ → List ℕ
left ch subs = keep (λ w. not (w == ch)) subs

pub found_again :
    (p q : Uuid) (m : List (Uuid × List ℕ))
    → subs_in q m ≡ (if p == q then subs_in p m else subs_in q m)
found_again p q m = elim (Bool-cases (p == q)) [
  | inl same ↦ rw same (ap (λ j. subs_in j m) (sym ((==_iff p q).0 same)))
  | inr other ↦ rw other refl
]

pub nothing_left :
    (p q : Uuid) (m : List (Uuid × List ℕ))
    → lookup p m ≡ none
    → subs_in q m ≡ (if p == q then [] else subs_in q m)
nothing_left p q m e = elim (Bool-cases (p == q)) [
  | inl same ↦ rw same (ap (λ j. subs_in j m) (sym ((==_iff p q).0 same)) ∙ ap or_none e)
  | inr other ↦ rw other refl
]

module _ {A : Type 0} where
  -- What the broker's store and a list of channels amount to.
  abbrev pub seen : Store A → List ℕ → List (ℕ × List A)
  seen st ws = map (box st) ws

  abbrev pub boxes_of : Broker A → Uuid → List (ℕ × List A)
  boxes_of b q = seen b.channels (subs_in q b.subscribers)

  -- An operation on the channels of one project.
  pub on_project :
      (p q : Uuid) (s : List ℕ) (st st' : Store A) (m m' : List (Uuid × List ℕ))
      (f : List (ℕ × List A) → List (ℕ × List A))
      → subs_in q m' ≡ (if p == q then s else subs_in q m)
      → seen st' s ≡ f (seen st (subs_in p m))
      → (p ≢ q → seen st' (subs_in q m) ≡ seen st (subs_in q m))
      → seen st' (subs_in q m')
        ≡ (if p == q then f (seen st (subs_in q m)) else seen st (subs_in q m))
  on_project p q s st st' m m' f stored here away = elim (Bool-cases (p == q)) [
    | inl same ↦
        ap (seen st') (stored ∙ if-true (p == q) s (subs_in q m) same)
        ∙ here
        ∙ ap (λ j. f (seen st (subs_in j m))) ((==_iff p q).0 same)
        ∙ sym (if-true (p == q) (f (seen st (subs_in q m))) (seen st (subs_in q m)) same)
    | inr other ↦
        ap (seen st') (stored ∙ if-false (p == q) s (subs_in q m) other)
        ∙ away (apart p q other)
        ∙ sym (if-false (p == q) (f (seen st (subs_in q m))) (seen st (subs_in q m)) other)
  ]

  pub same_mail :
      (m m' : Mailboxes A) → ((q : Uuid) → m.boxes q ≡ m'.boxes q) → m.fresh ≡ m'.fresh → m ≡ m'
  same_mail m m' h k = λ i. record { boxes = λ q. h q i; fresh = k i }
