-- ===== src/Live/Hub/Listing.antt =====
-- `Get` and `List` of internal/live/hub.go.
use code_scout.Common.{
  List, [], ◌∷◌, map, Option, none, some, if◌then◌else◌, ltb, keep, lookup, nat_eq,
}
use mathlib.Core.List.{reverse}
use code_scout.Domain.LiveSession.{Uuid, Time, LiveSession}
use code_scout.Live.Hub.{Hub, sweep_locked}
use code_scout.Live.Hub.Pairing.{is_live_in}

-- `(*Hub).Get`
unfoldable pub get : Time → Uuid → Hub → Hub × Option LiveSession
get now id h =
    let h' = sweep_locked now h in
    (h', elim (lookup id h'.sessions) [ none ↦ none | some s ↦ some s.meta ])

-- The inner loop of `List`: `s` moves towards the front past every session that is older. The
-- sessions before it are given with the nearest first.
unfoldable pub sift : LiveSession → List LiveSession → List LiveSession
sift s [] = s ∷ []
sift s (r ∷ rs) =
    let rest = sift s rs in if ltb r.created_at s.created_at then r ∷ rest else s ∷ r ∷ rs

unfoldable pub sift_all : List LiveSession → List LiveSession → List LiveSession
sift_all before [] = before
sift_all before (s ∷ ss) = sift_all (sift s before) ss

-- `(*Hub).List`
unfoldable pub list : Time → Uuid → Hub → Hub × List LiveSession
list now project h =
    let h' = sweep_locked now h in
    let out = map (λ p. (p.1).meta) (keep (is_live_in project) h'.sessions) in
    (h', reverse (sift_all [] out))
