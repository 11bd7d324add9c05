-- ===== src/Domain/Pairing/Typed.antt =====
-- Pairing codes of internal/domain/live.go as a person types them.
use code_scout.Common.{
  ℕ, zero, suc, ◌+◌, ◌≤◌, ◌≡◌, ◌==◌, any, length, refl, ap, ◌∙◌, ◌⊎◌, inl, inr, true, [], ◌∷◌,
  Option, none, some, Option-cases, arith, All, Bytes,
}
use code_scout.Domain.Pairing.{
  pairing_alphabet, pairing_code_length, letter, drawn_letter, write_letter, draw_letters,
  new_pairing_code, to_upper, in_alphabet, normalise_pairing_code,
}

-- What was typed for a code: each letter in either case, with blanks and dashes anywhere.
pub data Typed : Bytes → Bytes → Type 0 where
  done : Typed [] []
  typed_letter :
      {c t : ℕ} {cs ts : Bytes}
      → (t ≡ c) ⊎ ((b'A' ≤ c) × (t ≡ c + 32))
      → Typed cs ts
      → Typed (c ∷ cs) (t ∷ ts)
  typed_blank : {t : ℕ} {cs ts : Bytes} → (t ≡ b' ') ⊎ (t ≡ b'-') → Typed cs ts → Typed cs (t ∷ ts)

letter-any : (n c : ℕ) (cs : Bytes) → letter n cs ≡ some c → any (λ a. a == c) cs ≡ true
unfolding letter
letter-any n c [] h = cc
letter-any zero c (x ∷ cs) h = ground arith
letter-any (suc n) c (x ∷ cs) h = ground (arith, letter-any n c cs h)

-- No letter of a code is in lower case.
in_alphabet_bounds : (c : ℕ) → in_alphabet c ≡ true → c ≤ b'Z'
in_alphabet_bounds c h = ground arith

upper_letter : (t c : ℕ) → c ≤ b'Z' → (t ≡ c) ⊎ ((b'A' ≤ c) × (t ≡ c + 32)) → to_upper t ≡ c
unfolding to_upper
upper_letter t c h k = ground arith

normalise-letter :
    (t c : ℕ) (ts : Bytes)
    → to_upper t ≡ c
    → in_alphabet c ≡ true
    → normalise_pairing_code (t ∷ ts) ≡ c ∷ normalise_pairing_code ts
unfolding normalise_pairing_code
normalise-letter t c ts e h = rw (e, h)

normalise-blank :
    (t : ℕ) (ts : Bytes)
    → (t ≡ b' ') ⊎ (t ≡ b'-')
    → normalise_pairing_code (t ∷ ts) ≡ normalise_pairing_code ts
unfolding normalise_pairing_code
normalise-blank t ts (inl e) = rw e
normalise-blank t ts (inr e) = rw e

abbrev InAlphabet : Bytes → Type 0
InAlphabet = All (λ c. in_alphabet c ≡ true)

abbrev Drawn : ℕ → Option Bytes → Type 0
Drawn n none = Unit
Drawn n (some code) = InAlphabet code × (length code ≡ n)

write_letter-Drawn :
    (n : ℕ) (r : Option ℕ) (rest : Option Bytes)
    → Drawn n rest
    → Drawn (suc n) (write_letter (drawn_letter r) rest)
unfolding write_letter drawn_letter
write_letter-Drawn n none rest d = tt
write_letter-Drawn n (some k) none d = ground arith
write_letter-Drawn n (some k) (some cs) d = elim (Option-cases (letter k pairing_alphabet)) [
  | inl e ↦ rw (e, write_letter) tt
  | inr (c, e) ↦ rw (e, write_letter) ((letter-any k c pairing_alphabet e, d.0), ap suc d.1)
]

draw_letters-Drawn : (left i : ℕ) (rand : ℕ → Option ℕ) → Drawn left (draw_letters left i rand)
unfolding draw_letters
draw_letters-Drawn zero i rand = (tt, refl)
draw_letters-Drawn (suc left) i rand =
    write_letter-Drawn left (rand i) _ (draw_letters-Drawn left (i + 1) rand)

normalise-Typed :
    {code typed : Bytes} → InAlphabet code → Typed code typed → normalise_pairing_code typed ≡ code
unfolding normalise_pairing_code
normalise-Typed h done = refl
normalise-Typed h (typed_letter {c} {t} {cs} {ts} k rest) =
    normalise-letter t c ts (upper_letter t c (in_alphabet_bounds c h.0) k) h.0
    ∙ ap (◌∷◌ c) (normalise-Typed h.1 rest)
normalise-Typed h (typed_blank {t} {cs} {ts} k rest) =
    normalise-blank t ts k ∙ normalise-Typed h rest

-- A minted code has six letters, and however it is typed, in either case and with blanks and dashes
-- in it, it is read as the code that was minted.
pub typing_keeps_code :
    (rand : ℕ → Option ℕ) {code typed : Bytes}
    → new_pairing_code rand ≡ some code
    → Typed code typed
    → (length code ≡ pairing_code_length) × (normalise_pairing_code typed ≡ code)
unfolding new_pairing_code
typing_keeps_code rand h t =
    let (good, size) = rw h at (draw_letters-Drawn pairing_code_length 0 rand) in
    (size, normalise-Typed good t)
