-- ===== src/Search/Clicks.antt =====
-- What a click on a control of the toolbar does to a filter that can be written as text: the methods of
-- internal/domain/search_query.go that begin with `With`.
use code_scout.Common.{◌≡◌, true, Bytes}
use code_scout.Search.Filter.{SearchFilter, contains}
use code_scout.Search.Fields.{valid_level, window_labels}
use code_scout.Search.Toggles.{
  with_level_toggled, with_tag_cycled, with_window, with_network_only, without_session_field,
}
use code_scout.Search.Sections.{PlainTag}
use code_scout.Search.Printable.{Printable}
use code_scout.Search.Kept.{Apart, Windowed}

-- One click.
pub data Click : SearchFilter → SearchFilter → Type 0 where
  level_click :
      (f : SearchFilter) (l : Bytes) → valid_level l ≡ true → Click f (with_level_toggled f l)
  tag_click : (f : SearchFilter) (t : Bytes) → PlainTag t → Click f (with_tag_cycled f t)
  window_click :
      (f : SearchFilter) (w : Bytes) → contains window_labels w ≡ true → Click f (with_window f w)
  network_click : (f : SearchFilter) → Click f (with_network_only f)
  chip_click : (f : SearchFilter) (name : Bytes) → Click f (without_session_field f name)

pub record Ready (f : SearchFilter) : Type 0 where
  pub printable : Printable f
  pub apart : Apart f
  pub windowed : Windowed f
