-- ===== src/Search/Fields.antt =====
-- The names that pkg/search/parser.go takes in a query: levels, fields and windows of time.
use code_scout.Common.{
  ℕ, ◌*◌, Bool, true, false, List, [], ◌∷◌, Option, none, some, if◌then◌else◌, Bytes, codes, equal,
}
use code_scout.Domain.LiveSession.{minute}
use code_scout.Search.Filter.{contains}

abbrev pub valid_levels : List Bytes
valid_levels =
    codes "info"
    ∷ codes "debug"
    ∷ codes "warning"
    ∷ codes "error"
    ∷ codes "fatal"
    ∷ codes "verbose"
    ∷ codes "system"
    ∷ []

unfoldable pub valid_level : Bytes → Bool
valid_level = contains valid_levels

-- The members of `validFields`, which are the cases of the switch in `Parse`.
pub data Field : Type 0 where
  level tag is last session request fingerprint : Field
  user device os app_version sdk_version installation : Field

abbrev pub field_named : Bytes → List (Bytes × Field) → Option Field
field_named name [] = none
field_named name ((n, field) ∷ fs) = if equal name n then some field else field_named name fs

abbrev pub valid_fields : List (Bytes × Field)
valid_fields =
    (codes "level", Field.level)
    ∷ (codes "tag", Field.tag)
    ∷ (codes "is", Field.is)
    ∷ (codes "session", Field.session)
    ∷ (codes "request", Field.request)
    ∷ (codes "last", Field.last)
    ∷ (codes "fingerprint", Field.fingerprint)
    ∷ (codes "user", Field.user)
    ∷ (codes "device", Field.device)
    ∷ (codes "os", Field.os)
    ∷ (codes "app_version", Field.app_version)
    ∷ (codes "sdk_version", Field.sdk_version)
    ∷ (codes "installation", Field.installation)
    ∷ []

-- `validFields[name]`, with the case of the switch that the name leads to
abbrev pub field_of : Bytes → Option Field
field_of name = field_named name valid_fields

-- `negated && field != "tag"` looks at this.
abbrev pub is_tag : Field → Bool
is_tag Field.tag = true
is_tag _ = false

abbrev pub valid_field_list : Bytes
valid_field_list =
    codes
      "level, tag, is, last, session, request, fingerprint, user, device, os, app_version, sdk_version, installation"

abbrev pub hour : ℕ
hour = 60 * minute

-- `windows`
unfoldable pub window : Bytes → Option ℕ
window value =
    if equal value (codes "1h")
    then some hour
    else if equal value (codes "24h")
    then some (24 * hour)
    else if equal value (codes "7d")
    then some (7 * (24 * hour))
    else if equal value (codes "30d")
    then some (30 * (24 * hour))
    else none

-- `WindowLabels`
abbrev pub window_labels : List Bytes
window_labels = codes "1h" ∷ codes "24h" ∷ codes "7d" ∷ codes "30d" ∷ []
