-- ===== src/Ingest/Known.antt =====
-- Log rows whose ids the table has, in internal/services/log_service.go.
use code_scout.Common.{
  map, ◌≢◌, ◌≡◌, refl, sym, subst, Bool, true, false, List, [], ◌∷◌, ◌++◌, some, inl, inr, arith,
  ==_refl, any, All, Bool-cases,
}
use code_scout.Domain.LiveSession.{Uuid}
use code_scout.Storage.{LogRow}
use code_scout.Ingest.{IncomingLog, to_row, client_id_of, is_client, conflicts, insert_rows}

any-append : (p : LogRow → Bool) (xs ys : List LogRow) → any p xs ≡ true → any p (xs ++ ys) ≡ true
any-append p [] ys h = cc
any-append p (x ∷ xs) ys h = elim (Bool-cases (p x)) [
  | inl e ↦ rw e refl
  | inr e ↦ rw e (any-append p xs ys (rw e at h))
]

any-last :
    (p : LogRow → Bool) (xs : List LogRow) (y : LogRow) → p y ≡ true → any p (xs ++ y ∷ []) ≡ true
any-last p [] y h = rw h refl
any-last p (x ∷ xs) y h = elim (Bool-cases (p x)) [
  | inl e ↦ rw e refl
  | inr e ↦ rw e (any-last p xs y h)
]

-- The row has a client's id, and the table has it for the project.
pub Known : List LogRow → LogRow → Type 0
Known table row =
    (c : Uuid) × (row.client_id ≡ some c) × (any (is_client row.project_id c) table ≡ true)

Known-conflicts :
    (table : List LogRow) (row : LogRow) → Known table row → conflicts row table ≡ true
unfolding Known
Known-conflicts table row (c, e, h) = rw e h

Known-append :
    (table more : List LogRow) (row : LogRow) → Known table row → Known (table ++ more) row
unfolding Known
Known-append table more row (c, e, h) = (c, e, any-append _ table more h)

pub HasClient : LogRow → Type 0
HasClient row = (c : Uuid) × (row.client_id ≡ some c)

is_client_self :
    (row : LogRow) (c : Uuid) → row.client_id ≡ some c → is_client row.project_id c row ≡ true
is_client_self row c e = rw (e, ==_refl c, ==_refl row.project_id) refl

pub insert_rows-Known :
    (rows table : List LogRow) (row : LogRow)
    → Known table row
    → Known (insert_rows rows table).1 row
unfolding insert_rows
insert_rows-Known [] table row h = h
insert_rows-Known (r ∷ rows) table row h = elim (Bool-cases (conflicts r table)) [
  | inl e ↦ rw (insert_rows, e) (insert_rows-Known rows table row h)
  | inr e ↦
      rw (insert_rows, e)
        (insert_rows-Known rows (table ++ r ∷ []) row (Known-append table (r ∷ []) row h))
]

conflict-Known :
    (table : List LogRow) (row : LogRow)
    → HasClient row
    → conflicts row table ≡ true
    → Known table row
unfolding HasClient Known
conflict-Known table row (c, e) h = (c, e, rw e at h)

append-Known : (table : List LogRow) (row : LogRow) → HasClient row → Known (table ++ row ∷ []) row
unfolding HasClient Known
append-Known table row (c, e) = (c, e, any-last _ table row (is_client_self row c e))

skipped :
    (r : LogRow) (rows table : List LogRow)
    → conflicts r table ≡ true
    → (insert_rows (r ∷ rows) table).1 ≡ (insert_rows rows table).1
unfolding insert_rows
skipped r rows table e = rw (insert_rows, e) refl

written :
    (r : LogRow) (rows table : List LogRow)
    → conflicts r table ≡ false
    → (insert_rows (r ∷ rows) table).1 ≡ (insert_rows rows (table ++ r ∷ [])).1
unfolding insert_rows
written r rows table e = rw (insert_rows, e) refl

-- Once a batch is written, all its rows are known.
pub insert_rows-All :
    (rows table : List LogRow) → All HasClient rows → All (Known (insert_rows rows table).1) rows
insert_rows-All [] table h = tt
insert_rows-All (r ∷ rows) table (k, h) = elim (Bool-cases (conflicts r table)) [
  | inl e ↦
      subst (λ t. All (Known t) (r ∷ rows)) (sym (skipped r rows table e))
        (insert_rows-Known rows table r (conflict-Known table r k e), insert_rows-All rows table h)
  | inr e ↦
      subst (λ t. All (Known t) (r ∷ rows)) (sym (written r rows table e))
        (
          insert_rows-Known rows (table ++ r ∷ []) r (append-Known table r k),
          insert_rows-All rows (table ++ r ∷ []) h,
        )
]

-- Rows that are known are not written again.
pub insert-Known :
    (rows table : List LogRow) → All (Known table) rows → insert_rows rows table ≡ (0, table)
unfolding insert_rows
insert-Known [] table h = refl
insert-Known (r ∷ rows) table (k, h) =
    rw (insert_rows, Known-conflicts table r k) (insert-Known rows table h)

named_client : (id : Uuid) → id ≢ 0 → client_id_of id ≡ some id
named_client id h = ground (arith, h)

pub rows-HasClient :
    (project : Uuid) (logs : List IncomingLog)
    → All (λ l. l.id ≢ 0) logs
    → All HasClient (map (to_row project) logs)
unfolding HasClient
rows-HasClient project [] h = tt
rows-HasClient project (l ∷ logs) h =
    ((l.id, named_client l.id h.0), rows-HasClient project logs h.1)
