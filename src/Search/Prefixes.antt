-- ===== src/Search/Prefixes.antt =====
-- The names that internal/domain/search_query.go writes, each with the case of the switch in
-- pkg/search/parser.go that takes it.
use code_scout.Common.{refl, true, false, codes, equal}
use code_scout.Search.Fields.{Field}
use code_scout.Search.Parser.{minus, cut, take_field, take_word, take_token}
use code_scout.Search.Words.{Prefix}

pub level-Prefix : Prefix (codes "level:") false Field.level
unfolding equal minus cut take_field take_word take_token
level-Prefix = record {
  starts = record { head = b'l'; behind = codes "evel:"; is_head = refl; head_solid = refl };
  bare = refl;
  unquoted = λ w. refl;
  taken = λ parse_uuid now start c v r. refl;
}

pub tag-Prefix : Prefix (codes "tag:") false Field.tag
unfolding equal minus cut take_field take_word take_token
tag-Prefix = record {
  starts = record { head = b't'; behind = codes "ag:"; is_head = refl; head_solid = refl };
  bare = refl;
  unquoted = λ w. refl;
  taken = λ parse_uuid now start c v r. refl;
}

pub excluded_tag-Prefix : Prefix (codes "-tag:") true Field.tag
unfolding equal minus cut take_field take_word take_token
excluded_tag-Prefix = record {
  starts = record { head = b'-'; behind = codes "tag:"; is_head = refl; head_solid = refl };
  bare = refl;
  unquoted = λ w. refl;
  taken = λ parse_uuid now start c v r. refl;
}

pub is-Prefix : Prefix (codes "is:") false Field.is
unfolding equal minus cut take_field take_word take_token
is-Prefix = record {
  starts = record { head = b'i'; behind = codes "s:"; is_head = refl; head_solid = refl };
  bare = refl;
  unquoted = λ w. refl;
  taken = λ parse_uuid now start c v r. refl;
}

pub last-Prefix : Prefix (codes "last:") false Field.last
unfolding equal minus cut take_field take_word take_token
last-Prefix = record {
  starts = record { head = b'l'; behind = codes "ast:"; is_head = refl; head_solid = refl };
  bare = refl;
  unquoted = λ w. refl;
  taken = λ parse_uuid now start c v r. refl;
}

pub session-Prefix : Prefix (codes "session:") false Field.session
unfolding equal minus cut take_field take_word take_token
session-Prefix = record {
  starts = record { head = b's'; behind = codes "ession:"; is_head = refl; head_solid = refl };
  bare = refl;
  unquoted = λ w. refl;
  taken = λ parse_uuid now start c v r. refl;
}

pub request-Prefix : Prefix (codes "request:") false Field.request
unfolding equal minus cut take_field take_word take_token
request-Prefix = record {
  starts = record { head = b'r'; behind = codes "equest:"; is_head = refl; head_solid = refl };
  bare = refl;
  unquoted = λ w. refl;
  taken = λ parse_uuid now start c v r. refl;
}

pub fingerprint-Prefix : Prefix (codes "fingerprint:") false Field.fingerprint
unfolding equal minus cut take_field take_word take_token
fingerprint-Prefix = record {
  starts = record { head = b'f'; behind = codes "ingerprint:"; is_head = refl; head_solid = refl };
  bare = refl;
  unquoted = λ w. refl;
  taken = λ parse_uuid now start c v r. refl;
}

pub user-Prefix : Prefix (codes "user:") false Field.user
unfolding equal minus cut take_field take_word take_token
user-Prefix = record {
  starts = record { head = b'u'; behind = codes "ser:"; is_head = refl; head_solid = refl };
  bare = refl;
  unquoted = λ w. refl;
  taken = λ parse_uuid now start c v r. refl;
}

pub device-Prefix : Prefix (codes "device:") false Field.device
unfolding equal minus cut take_field take_word take_token
device-Prefix = record {
  starts = record { head = b'd'; behind = codes "evice:"; is_head = refl; head_solid = refl };
  bare = refl;
  unquoted = λ w. refl;
  taken = λ parse_uuid now start c v r. refl;
}

pub os-Prefix : Prefix (codes "os:") false Field.os
unfolding equal minus cut take_field take_word take_token
os-Prefix = record {
  starts = record { head = b'o'; behind = codes "s:"; is_head = refl; head_solid = refl };
  bare = refl;
  unquoted = λ w. refl;
  taken = λ parse_uuid now start c v r. refl;
}

pub app_version-Prefix : Prefix (codes "app_version:") false Field.app_version
unfolding equal minus cut take_field take_word take_token
app_version-Prefix = record {
  starts = record { head = b'a'; behind = codes "pp_version:"; is_head = refl; head_solid = refl };
  bare = refl;
  unquoted = λ w. refl;
  taken = λ parse_uuid now start c v r. refl;
}

pub sdk_version-Prefix : Prefix (codes "sdk_version:") false Field.sdk_version
unfolding equal minus cut take_field take_word take_token
sdk_version-Prefix = record {
  starts = record { head = b's'; behind = codes "dk_version:"; is_head = refl; head_solid = refl };
  bare = refl;
  unquoted = λ w. refl;
  taken = λ parse_uuid now start c v r. refl;
}

pub installation-Prefix : Prefix (codes "installation:") false Field.installation
unfolding equal minus cut take_field take_word take_token
installation-Prefix = record {
  starts = record { head = b'i'; behind = codes "nstallation:"; is_head = refl; head_solid = refl };
  bare = refl;
  unquoted = λ w. refl;
  taken = λ parse_uuid now start c v r. refl;
}
