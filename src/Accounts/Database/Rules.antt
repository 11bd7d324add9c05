-- ===== src/Accounts/Database/Rules.antt =====
-- What holds of the tables before and after a run, whatever statements fail in it.
use code_scout.Common.{Bool, true, false, ◌≡◌, refl, Result, ok, err, if◌then◌else◌}
use code_scout.Accounts.Database.{
  Tables, Db, M, return, throw, proceed, ◌>>=◌, ◌>>◌, relabel, or_else, attempt, refuse_if,
}

module _ {E A : Type 0} where
  -- `Q` of a result and the tables behind it, `I` of the tables behind an error.
  abbrev pub Outcome : (A → Tables → Type 0) → (Tables → Type 0) → Result E A × Db → Type 0
  Outcome Q I (ok a, db) = Q a db.tables
  Outcome Q I (err e, db) = I db.tables

-- From tables with `P`, a result of `m` and the tables behind it have `Q`, those behind an error `I`.
pub record Triple {E A : Type 0} (P : Tables → Type 0) (m : M E A) (Q : A → Tables → Type 0)
    (I : Tables → Type 0) : Type 0 where
  pub runs : (db : Db) → P db.tables → Outcome Q I (m db)

module _ {E A : Type 0} {Q : A → Tables → Type 0} {I : Tables → Type 0} where
  pub return-Triple : (a : A) → Triple {E = E} (Q a) (return a) Q I
  unfolding return
  return-Triple a = record { runs = λ db p. p }

  pub throw-Triple :
      {P : Tables → Type 0} (e : E) → ((ts : Tables) → P ts → I ts) → Triple P (throw e) Q I
  unfolding throw
  throw-Triple e i = record { runs = λ db p. i db.tables p }

  pub if-Triple :
      {P : Tables → Type 0} (b : Bool) (m n : M E A)
      → (b ≡ true → Triple P m Q I)
      → (b ≡ false → Triple P n Q I)
      → Triple P (if b then m else n) Q I
  if-Triple true m n f g = f refl
  if-Triple false m n f g = g refl

weaken-Outcome :
    {E A : Type 0} (Q : A → Tables → Type 0) (I I' : Tables → Type 0) (r : Result E A × Db)
    → ((ts : Tables) → I ts → I' ts)
    → Outcome Q I r
    → Outcome Q I' r
weaken-Outcome Q I I' (ok a, db) h p = p
weaken-Outcome Q I I' (err e, db) h p = h db.tables p

-- More is assumed before, and less is asked of an error.
pub weaken-Triple :
    {E A : Type 0} {P P' : Tables → Type 0} {Q : A → Tables → Type 0} {I I' : Tables → Type 0}
    {m : M E A}
    → ((ts : Tables) → P' ts → P ts)
    → ((ts : Tables) → I ts → I' ts)
    → Triple P m Q I
    → Triple P' m Q I'
weaken-Triple {Q = Q} {I = I} {I' = I'} {m = m} f h t = record {
  runs = λ db p. weaken-Outcome Q I I' (m db) h (t.runs db (f db.tables p));
}

conclude-Outcome :
    {E A : Type 0} (Q Q' : A → Tables → Type 0) (I : Tables → Type 0) (r : Result E A × Db)
    → ((a : A) (ts : Tables) → Q a ts → Q' a ts)
    → Outcome Q I r
    → Outcome Q' I r
conclude-Outcome Q Q' I (ok a, db) f p = f a db.tables p
conclude-Outcome Q Q' I (err e, db) f p = p

pub conclude-Triple :
    {E A : Type 0} (Q : A → Tables → Type 0) {Q' : A → Tables → Type 0} {P I : Tables → Type 0}
    {m : M E A}
    → ((a : A) (ts : Tables) → Q a ts → Q' a ts)
    → Triple P m Q I
    → Triple P m Q' I
conclude-Triple Q {Q' = Q'} {I = I} {m = m} f t = record {
  runs = λ db p. conclude-Outcome Q Q' I (m db) f (t.runs db p);
}

-- Without assumptions on the tables, a fact that does not mention them moves out of the assumption.
pub given-Triple :
    {E A : Type 0} {Q : A → Tables → Type 0} {F : Type 0} {P I : Tables → Type 0} {m : M E A}
    → (F → Triple P m Q I)
    → Triple (λ ts. P ts × F) m Q I
given-Triple t = record { runs = λ db p. (t p.1).runs db p.0 }

first-Outcome :
    {E A : Type 0} (Q : A → Tables → Type 0) (P I : Tables → Type 0) (r : Result E A × Db)
    → Outcome (λ a ts. P ts × Q a ts) I r
    → Outcome (λ _. P) I r
first-Outcome Q P I (ok a, db) p = p.0
first-Outcome Q P I (err e, db) p = p

-- The part of the conclusion that is not about the result.
pub first-Triple :
    {E A : Type 0} {Q : A → Tables → Type 0} {P R I : Tables → Type 0} {m : M E A}
    → Triple R m (λ a ts. P ts × Q a ts) I
    → Triple R m (λ _. P) I
first-Triple {Q = Q} {P = P} {I = I} {m = m} t = record {
  runs = λ db p. first-Outcome Q P I (m db) (t.runs db p);
}

module _ {E A B : Type 0} {R : B → Tables → Type 0} {I : Tables → Type 0} where
  proceed-Outcome :
      (Q : A → Tables → Type 0) (k : A → M E B) (r : Result E A × Db)
      → Outcome Q I r
      → ((a : A) → Triple (Q a) (k a) R I)
      → Outcome R I (proceed k r)
  proceed-Outcome Q k (ok a, db) p t = (t a).runs db p
  proceed-Outcome Q k (err e, db) p t = p

  pub bind-Triple :
      {P : Tables → Type 0} (Q : A → Tables → Type 0) {m : M E A} {k : A → M E B}
      → Triple P m Q I
      → ((a : A) → Triple (Q a) (k a) R I)
      → Triple P (m >>= k) R I
  unfolding ◌>>=◌
  bind-Triple Q {m = m} {k = k} f g = record {
    runs = λ db p. proceed-Outcome Q k (m db) (f.runs db p) g;
  }

module _ {E B : Type 0} {R : B → Tables → Type 0} {I : Tables → Type 0} where
  pub then-Triple :
      {P : Tables → Type 0} (Q : Tables → Type 0) {m : M E (Unit {0})} {n : M E B}
      → Triple P m (λ _. Q) I
      → Triple Q n R I
      → Triple P (m >> n) R I
  unfolding ◌>>◌
  then-Triple Q f g = bind-Triple (λ _. Q) f (λ _. g)

  -- What a check leaves behind it, when it does not refuse.
  pub unless-Triple :
      {P : Tables → Type 0} (b : Bool) (e : E) {n : M E B}
      → ((ts : Tables) → P ts → I ts)
      → (b ≡ false → Triple P n R I)
      → Triple P (refuse_if b e >> n) R I
  unfolding ◌>>◌ ◌>>=◌ refuse_if throw return
  unless-Triple true e i t = record { runs = λ db p. i db.tables p }
  unless-Triple false e i t = record { runs = (t refl).runs }

pub refuse_if-Triple :
    {E : Type 0} {P I : Tables → Type 0} (b : Bool) (e : E)
    → ((ts : Tables) → P ts → I ts)
    → Triple P (refuse_if b e) (λ _. P) I
unfolding refuse_if throw return
refuse_if-Triple true e i = record { runs = λ db p. i db.tables p }
refuse_if-Triple false e i = record { runs = λ db p. p }

relabel-Outcome :
    {E F A : Type 0} (Q : A → Tables → Type 0) (I : Tables → Type 0) (f : F → E)
    (r : Result F A × Db)
    → Outcome Q I r
    → Outcome Q I (relabel f r)
relabel-Outcome Q I f (ok a, db) p = p
relabel-Outcome Q I f (err e, db) p = p

pub or_else-Triple :
    {E F A : Type 0} {Q : A → Tables → Type 0} {P I : Tables → Type 0} {m : M F A} (f : F → E)
    → Triple P m Q I
    → Triple P (or_else m f) Q I
unfolding or_else
or_else-Triple {Q = Q} {I = I} {m = m} f t = record {
  runs = λ db p. relabel-Outcome Q I f (m db) (t.runs db p);
}

attempt-Outcome :
    {F A : Type 0} (P : Tables → Type 0) (r : Result F A × Db)
    → Outcome (λ _. P) P r
    → P (r.1).tables
attempt-Outcome P (ok a, db) p = p
attempt-Outcome P (err e, db) p = p

pub attempt-Triple :
    {E F A : Type 0} {P I : Tables → Type 0} {m : M F A}
    → Triple P m (λ _. P) P
    → Triple {E = E} P (attempt m) (λ _. P) I
unfolding attempt
attempt-Triple {P = P} {m = m} t = record { runs = λ db p. attempt-Outcome P (m db) (t.runs db p) }

-- `Q` of a result that is a value, `I` of the tables behind one that is an error.
abbrev pub Looked :
    {F A : Type 0} → (A → Tables → Type 0) → (Tables → Type 0) → Result F A → Tables → Type 0
Looked Q I (ok a) ts = Q a ts
Looked Q I (err e) ts = I ts

Looked-Outcome :
    {F A : Type 0} (Q : A → Tables → Type 0) (I : Tables → Type 0) (r : Result F A × Db)
    → Outcome Q I r
    → Looked Q I r.0 (r.1).tables
Looked-Outcome Q I (ok a, db) p = p
Looked-Outcome Q I (err e, db) p = p

pub look-Triple :
    {E F A : Type 0} {Q : A → Tables → Type 0} {P I J : Tables → Type 0} {m : M F A}
    → Triple P m Q I
    → Triple {E = E} P (attempt m) (λ r. Looked Q I r) J
unfolding attempt
look-Triple {Q = Q} {I = I} {m = m} t = record {
  runs = λ db p. Looked-Outcome Q I (m db) (t.runs db p);
}
