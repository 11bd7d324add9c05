-- ===== src/Search/Toggles.antt =====
-- The controls of the toolbar, in internal/domain/search_query.go and internal/domain/search.go: each
-- gives the filter that a click leads to. A slice of Go that is copied is the same list.
use code_scout.Common.{
  Bool, true, false, not, List, [], ◌∷◌, ◌++◌, Option, none, some, if◌then◌else◌, keep, Bytes,
  codes, equal,
}
use code_scout.Search.Filter.{
  SessionScope, SearchFilter, has_level, TagState, neutral, included, excluded, state_for_tag,
}

-- `without`
abbrev pub without : List Bytes → Bytes → List Bytes
without xs drop = keep (λ s. not (equal s drop)) xs

-- `WithLevelToggled`. With no level in the filter, every level is shown.
unfoldable pub with_level_toggled : SearchFilter → Bytes → SearchFilter
with_level_toggled f level =
    if not (has_level f level)
    then record f { levels = f.levels ++ level ∷ [] }
    else elim f.levels [
      | [] ↦ record f { levels = level ∷ [] }
      | _ ∷ _ ↦ record f { levels = without f.levels level }
    ]

abbrev pub cycled : TagState → SearchFilter → Bytes → SearchFilter
cycled neutral f tag = record f { tags = f.tags ++ tag ∷ [] }
cycled included f tag = record f {
  tags = without f.tags tag;
  exclude_tags = f.exclude_tags ++ tag ∷ [];
}
cycled excluded f tag = record f { exclude_tags = without f.exclude_tags tag }

-- `WithTagCycled`
unfoldable pub with_tag_cycled : SearchFilter → Bytes → SearchFilter
with_tag_cycled f tag = cycled (state_for_tag f tag) f tag

-- `WithWindow`, which leaves the moment of the window to the next parse
unfoldable pub with_window : SearchFilter → Bytes → SearchFilter
with_window f label =
    if equal f.since_label label
    then record f { since_label = []; since = none }
    else record f { since_label = label }

abbrev pub is_on : Option Bool → Bool
is_on (some true) = true
is_on _ = false

-- `WithNetworkOnly`
unfoldable pub with_network_only : SearchFilter → SearchFilter
with_network_only f =
    if is_on f.is_network
    then record f { is_network = none }
    else record f { is_network = some true }

abbrev pub cleared : Bytes → SessionScope → SessionScope
cleared name s =
    if equal name (codes "user")
    then record s { user = [] }
    else if equal name (codes "device")
    then record s { device = [] }
    else if equal name (codes "os")
    then record s { os = [] }
    else if equal name (codes "app_version")
    then record s { app_version = [] }
    else if equal name (codes "sdk_version")
    then record s { sdk_version = [] }
    else if equal name (codes "installation")
    then record s { installation = [] }
    else s

-- `WithoutSessionField`
unfoldable pub without_session_field : SearchFilter → Bytes → SearchFilter
without_session_field f name = record f { session = cleared name f.session }
