-- ===== src/Domain/Pairing.antt =====
-- internal/domain/live.go: pairing codes, from their random draws to what a person types.
-- A code is a list of code points. `strings.ToUpper` is its ASCII part: the letters outside ASCII
-- whose upper case is ASCII are ı and ſ, and neither I nor S is in the alphabet.
pub mod Typed
use code_scout.Common.{
  ℕ, zero, suc, ◌+◌, ◌-◌, Bool, ◌&&◌, List, [], ◌∷◌, Option, none, some, if◌then◌else◌, ◌==◌, leb,
  any, Bytes, codes,
}

abbrev pub pairing_alphabet : Bytes
pairing_alphabet = codes "234679ACDEFGHJKMNPQRTUVWXYZ"

abbrev pub pairing_code_length : ℕ
pairing_code_length = 6

-- `pairingAlphabet[n]`; an index out of range, which `rand.Int` never draws, reads as no letter.
unfoldable pub letter : ℕ → Bytes → Option ℕ
letter n [] = none
letter zero (c ∷ cs) = some c
letter (suc n) (c ∷ cs) = letter n cs

-- What one draw of `rand.Int` writes; `none` is an error of it.
unfoldable pub drawn_letter : Option ℕ → Option ℕ
drawn_letter none = none
drawn_letter (some n) = letter n pairing_alphabet

unfoldable pub write_letter : Option ℕ → Option Bytes → Option Bytes
write_letter (some c) (some cs) = some (c ∷ cs)
write_letter _ _ = none

-- The loop of `NewPairingCode`. `rand i` is the i-th draw.
unfoldable pub draw_letters : ℕ → ℕ → (ℕ → Option ℕ) → Option Bytes
draw_letters zero i rand = some []
draw_letters (suc left) i rand =
    write_letter (drawn_letter (rand i)) (draw_letters left (i + 1) rand)

unfoldable pub new_pairing_code : (ℕ → Option ℕ) → Option Bytes
unfolding draw_letters drawn_letter write_letter letter
new_pairing_code rand = draw_letters pairing_code_length 0 rand

unfoldable pub to_upper : ℕ → ℕ
to_upper c = if leb b'a' c && leb c b'z' then c - 32 else c

-- `strings.ContainsRune(pairingAlphabet, r)`
abbrev pub in_alphabet : ℕ → Bool
in_alphabet c = any (λ a. a == c) pairing_alphabet

unfoldable pub normalise_pairing_code : Bytes → Bytes
unfolding to_upper
normalise_pairing_code [] = []
normalise_pairing_code (c ∷ cs) =
    let rest = normalise_pairing_code cs in
    let r = to_upper c in if in_alphabet r then r ∷ rest else rest
