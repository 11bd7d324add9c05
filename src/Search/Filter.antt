-- ===== src/Search/Filter.antt =====
-- internal/domain/search.go: what a search asks for.
use code_scout.Common.{
  Bool, true, not, ◌||◌, List, [], ◌∷◌, Option, none, if◌then◌else◌, any, Bytes, codes, equal,
  is_empty,
}
use code_scout.Domain.LiveSession.{Uuid, Time}

pub record SessionScope : Type 0 where
  pub user : Bytes
  pub installation : Bytes
  pub app_version : Bytes
  pub sdk_version : Bytes
  pub device : Bytes
  pub os : Bytes

-- A nil pointer is `none`.
pub record SearchFilter : Type 0 where
  pub levels : List Bytes
  pub tags : List Bytes
  pub exclude_tags : List Bytes
  pub text_query : Bytes
  pub is_network : Option Bool
  pub session_id : Option Uuid
  pub request_id : Option Uuid
  pub fingerprint : Option Bytes
  pub since : Option Time
  pub since_label : Bytes
  pub session : SessionScope

abbrev pub no_scope : SessionScope
no_scope = record {
  user = [];
  installation = [];
  app_version = [];
  sdk_version = [];
  device = [];
  os = [];
}

-- `SearchFilter{}`
abbrev pub no_filter : SearchFilter
no_filter = record {
  levels = [];
  tags = [];
  exclude_tags = [];
  text_query = [];
  is_network = none;
  session_id = none;
  request_id = none;
  fingerprint = none;
  since = none;
  since_label = [];
  session = no_scope;
}

-- `SessionScope.Any`
abbrev pub scope_any : SessionScope → Bool
scope_any s =
    not (is_empty s.user)
    || not (is_empty s.installation)
    || not (is_empty s.app_version)
    || not (is_empty s.sdk_version)
    || not (is_empty s.device)
    || not (is_empty s.os)

-- `SessionScope.fields`
abbrev pub fields : SessionScope → List (Bytes × Bytes)
fields s =
    (codes "user", s.user)
    ∷ (codes "device", s.device)
    ∷ (codes "os", s.os)
    ∷ (codes "app_version", s.app_version)
    ∷ (codes "sdk_version", s.sdk_version)
    ∷ (codes "installation", s.installation)
    ∷ []

-- A loop that looks for `x` in a slice of strings.
abbrev pub contains : List Bytes → Bytes → Bool
contains xs x = any (λ y. equal y x) xs

-- `SearchFilter.HasLevel`
unfoldable pub has_level : SearchFilter → Bytes → Bool
has_level f level = elim f.levels [ [] ↦ true | _ ∷ _ ↦ contains f.levels level ]

pub data TagState : Type 0 where
  neutral included excluded : TagState

-- `SearchFilter.StateForTag`
unfoldable pub state_for_tag : SearchFilter → Bytes → TagState
state_for_tag f tag =
    if contains f.tags tag
    then included
    else if contains f.exclude_tags tag
    then excluded
    else neutral
