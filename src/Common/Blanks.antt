-- ===== src/Common/Blanks.antt =====
-- `strings.TrimSpace` on the bytes of a string in UTF-8.
use Prim.Native.Nat.{ℕ, zero, suc}
use mathlib.Core.Path.{◌≡◌, refl}
use mathlib.Core.Bool.{Bool, false, ◌&&◌, ◌||◌}
use mathlib.Core.List.{[], ◌∷◌, reverse}
use code_scout.Common.Tests.{leb, if◌then◌else◌, ◌==◌}
use code_scout.Common.Lists.{drop, length}
use code_scout.Common.Text.{Bytes}

-- White space in ASCII
abbrev pub is_blank : ℕ → Bool
is_blank c = c == 32 || leb 9 c && leb c 13

-- U+0085 and U+00A0
abbrev pub is_blank_pair : ℕ → ℕ → Bool
is_blank_pair a b = a == 194 && (b == 133 || b == 160)

-- U+1680, U+2000 to U+200A, U+2028, U+2029, U+202F, U+205F and U+3000
abbrev pub is_blank_triple : ℕ → ℕ → ℕ → Bool
is_blank_triple a b c =
    a == 225 && (b == 154 && c == 128)
    || (a == 226
          && (b == 128 && (leb 128 c && leb c 138 || (c == 168 || (c == 169 || c == 175)))
              || b == 129 && c == 159)
        || a == 227 && (b == 128 && c == 128))

-- The bytes of the white space beyond ASCII that a string begins with, or 0
unfoldable pub wide_front : Bytes → ℕ
wide_front [] = 0
wide_front (a ∷ []) = 0
wide_front (a ∷ b ∷ []) = if is_blank_pair a b then 2 else 0
wide_front (a ∷ b ∷ c ∷ s) = if is_blank_pair a b then 2 else if is_blank_triple a b c then 3 else 0

-- The same for the end of a string, which is given backwards
unfoldable pub wide_back : Bytes → ℕ
wide_back [] = 0
wide_back (b ∷ []) = 0
wide_back (b ∷ a ∷ []) = if is_blank_pair a b then 2 else 0
wide_back (c ∷ b ∷ a ∷ s) = if is_blank_pair b c then 2 else if is_blank_triple a b c then 3 else 0

-- The bytes of the white space at the front, with ASCII
abbrev pub front : (Bytes → ℕ) → Bytes → ℕ
front wide [] = 0
front wide (c ∷ s) = if is_blank c then 1 else wide (c ∷ s)

-- Cuts one character after the other, on fuel: each takes at least one byte.
unfoldable pub cut_front : (Bytes → ℕ) → ℕ → Bytes → Bytes
cut_front wide zero s = s
cut_front wide (suc n) s = elim (front wide s) [
  | zero ↦ s
  | suc k ↦ cut_front wide n (drop (suc k) s)
]

-- `strings.TrimSpace`
unfoldable pub trim_space : Bytes → Bytes
trim_space s =
    let t = cut_front wide_front (length s) s in
    reverse (cut_front wide_back (length t) (reverse t))

-- The string neither begins nor ends with white space beyond ASCII.
abbrev pub NarrowEnds : Bytes → Type 0
NarrowEnds s = (wide_front s ≡ 0) × (wide_back (reverse s) ≡ 0)

-- Nothing is cut off at a byte that is no white space.
pub cut_front-solid :
    (wide : Bytes → ℕ) (n c : ℕ) (s : Bytes)
    → is_blank c ≡ false
    → wide (c ∷ s) ≡ 0
    → cut_front wide n (c ∷ s) ≡ c ∷ s
unfolding cut_front
cut_front-solid wide zero c s h k = refl
cut_front-solid wide (suc n) c s h k = rw (cut_front, h, k) refl
