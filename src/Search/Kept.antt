-- ===== src/Search/Kept.antt =====
-- What a click on a control of internal/domain/search_query.go leaves alone: the tags, and the window.
use code_scout.Common.{
  ◌≡◌, inl, inr, refl, true, false, List, [], ◌∷◌, none, All, Bytes, equal, Bool-cases,
}
use code_scout.Search.Filter.{SearchFilter, contains, has_level}
use code_scout.Search.Fields.{window_labels}
use code_scout.Search.Toggles.{with_level_toggled, with_window, is_on, with_network_only}

-- No tag is both included and excluded.
abbrev pub Apart : SearchFilter → Type 0
Apart f = All (λ t. contains f.exclude_tags t ≡ false) f.tags

-- A filter without a window's label has no moment either.
abbrev pub Windowed : SearchFilter → Type 0
Windowed f = f.since_label ≡ [] → f.since ≡ none

-- The same tags as before.
abbrev pub SameTags : SearchFilter → SearchFilter → Type 0
SameTags f g = (g.tags ≡ f.tags) × (g.exclude_tags ≡ f.exclude_tags)

pub SameTags-Apart : (f g : SearchFilter) → SameTags f g → Apart f → Apart g
SameTags-Apart f g (e, k) h = rw (e, k) h

pub levels-SameTags :
    (f : SearchFilter) (l : Bytes) (ls : List Bytes)
    → SameTags (record f { levels = ls }) (with_level_toggled (record f { levels = ls }) l)
unfolding with_level_toggled has_level
levels-SameTags f l [] = (refl, refl)
levels-SameTags f l (x ∷ xs) = elim (Bool-cases (contains (x ∷ xs) l)) [
  | inl on ↦ rw on (refl, refl)
  | inr off ↦ rw off (refl, refl)
]

pub window-SameTags : (f : SearchFilter) (w : Bytes) → SameTags f (with_window f w)
unfolding with_window
window-SameTags f w = elim (Bool-cases (equal f.since_label w)) [
  | inl e ↦ rw e (refl, refl)
  | inr e ↦ rw e (refl, refl)
]

pub network-SameTags : (f : SearchFilter) → SameTags f (with_network_only f)
unfolding with_network_only
network-SameTags f = elim (Bool-cases (is_on f.is_network)) [
  | inl e ↦ rw e (refl, refl)
  | inr e ↦ rw e (refl, refl)
]

pub levels-Windowed :
    (f : SearchFilter) (l : Bytes) (ls : List Bytes)
    → Windowed f
    → Windowed (with_level_toggled (record f { levels = ls }) l)
unfolding with_level_toggled has_level
levels-Windowed f l [] h = h
levels-Windowed f l (x ∷ xs) h = elim (Bool-cases (contains (x ∷ xs) l)) [
  | inl on ↦ rw on h
  | inr off ↦ rw off h
]

pub window-Windowed :
    (f : SearchFilter) (w : Bytes)
    → contains window_labels w ≡ true
    → Windowed f
    → Windowed (with_window f w)
unfolding with_window equal
window-Windowed f w offered h = elim (Bool-cases (equal f.since_label w)) [
  | inl e ↦ rw e (λ _. refl)
  | inr e ↦ rw e (λ blank. let clash : false ≡ true = rw blank at offered in cc)
]

pub network-Windowed : (f : SearchFilter) → Windowed f → Windowed (with_network_only f)
unfolding with_network_only
network-Windowed f h = elim (Bool-cases (is_on f.is_network)) [ inl e ↦ rw e h | inr e ↦ rw e h ]
