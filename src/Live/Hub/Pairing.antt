-- ===== src/Live/Hub/Pairing.antt =====
-- `Mint` and `Claim` of internal/live/hub.go.
use code_scout.Common.{
  ℕ, zero, suc, ◌+◌, Bool, true, false, not, ◌&&◌, List, [], Option, none, some, Result, ok, err,
  if◌then◌else◌, ◌==◌, leb, length, keep, Bytes, lookup, insert, delete, nat_eq, bytes_eq,
}
use code_scout.Domain.Pairing.{new_pairing_code, normalise_pairing_code}
use code_scout.Domain.LiveSession.{
  Uuid, Time, pairing_code_ttl, LiveSession, LiveSessionState, is_waiting, is_ended, LiveDevice,
  no_device,
}
use code_scout.Live.Session.{Session, max_sessions_per_project}
use code_scout.Live.Hub.{
  Hub, HubError, no_such_code, too_many_sessions, no_unused_code, no_random, sweep_locked,
}

-- The sessions of a project that have not ended: what `Mint` counts.
abbrev pub is_live_in : Uuid → Uuid × Session → Bool
is_live_in project p = (p.1).meta.project_id == project && not (is_ended (p.1).meta.state)

abbrev pub live_count : Uuid → List (Uuid × Session) → ℕ
live_count project ss = length (keep (is_live_in project) ss)

abbrev pub is_taken : Bytes → List (Bytes × Uuid) → Bool
is_taken c by_code = elim (lookup c by_code) [ none ↦ false | some _ ↦ true ]

-- One round of the loop in `Mint`, `again` being the rounds behind it.
unfoldable pub try_code :
    Option Bytes → List (Bytes × Uuid) → Result HubError Bytes → Result HubError Bytes
try_code none by_code again = err no_random
try_code (some c) by_code again = if is_taken c by_code then again else ok c

-- `left` is the number of rounds behind this one: `attempt == 8` is the last.
unfoldable pub draw_code : ℕ → ℕ → (ℕ → ℕ → Option ℕ) → List (Bytes × Uuid) → Result HubError Bytes
draw_code zero attempt rands by_code =
    try_code (new_pairing_code (rands attempt)) by_code (err no_unused_code)
draw_code (suc left) attempt rands by_code =
    try_code (new_pairing_code (rands attempt)) by_code (draw_code left (attempt + 1) rands by_code)

abbrev pub minted : Time → Uuid → Uuid → Uuid → Bytes → Session
minted now id project created_by code = record {
  meta = record {
    id = id;
    project_id = project;
    code = code;
    state = LiveSessionState.waiting;
    created_by = created_by;
    device = no_device;
    created_at = now;
    expires_at = now + pairing_code_ttl;
    claimed_at = 0;
    last_seen = 0;
    ended_at = 0;
    watchers = 0;
  };
  seq = 0;
  watchers = [];
  recent = [];
  dropped = 0;
  send = none;
  hang_up = none;
  pending = [];
}

-- The part of `Mint` behind the sweep.
unfoldable pub mint_swept :
    Time → Uuid → (ℕ → ℕ → Option ℕ) → Uuid → Uuid → Hub → Hub × Result HubError LiveSession
mint_swept now id rands project created_by h =
    if leb max_sessions_per_project (live_count project h.sessions)
    then (h, err too_many_sessions)
    else elim (draw_code 8 0 rands h.by_code) [
      | err e ↦ (h, err e)
      | ok code ↦
          let s = minted now id project created_by code in
          (
            record h { sessions = insert id s h.sessions; by_code = insert code id h.by_code },
            ok s.meta,
          )
    ]

-- `(*Hub).Mint`. `id` is what `uuid.New()` returns, `rands k` are the draws of the k-th round.
unfoldable pub mint :
    Time → Uuid → (ℕ → ℕ → Option ℕ) → Uuid → Uuid → Hub → Hub × Result HubError LiveSession
mint now id rands project created_by h =
    mint_swept now id rands project created_by (sweep_locked now h)

abbrev pub claimed : Time → LiveDevice → Session → Session
claimed now device s = record s {
  meta = record s.meta {
    state = LiveSessionState.connected;
    device = device;
    claimed_at = now;
    last_seen = now;
  };
}

-- `Claim` once the session under the code is found.
unfoldable pub claim_found :
    Time → Uuid → LiveDevice → Uuid → Option Session → Hub → Hub × Result HubError LiveSession
claim_found now project device id none h = (h, err no_such_code)
claim_found now project device id (some s) h =
    if not (is_waiting s.meta.state)
    then (h, err no_such_code)
    else if not (s.meta.project_id == project)
    then (h, err no_such_code)
    else (
      record h {
        sessions = insert id (claimed now device s) h.sessions;
        by_code = delete s.meta.code h.by_code;
      },
      ok (claimed now device s).meta,
    )

-- The part of `Claim` behind the sweep.
unfoldable pub claim_swept :
    Time → Uuid → Bytes → LiveDevice → Hub → Hub × Result HubError LiveSession
claim_swept now project code device h = elim (lookup (normalise_pairing_code code) h.by_code) [
  | none ↦ (h, err no_such_code)
  | some id ↦ claim_found now project device id (lookup id h.sessions) h
]

-- `(*Hub).Claim`
unfoldable pub claim : Time → Uuid → Bytes → LiveDevice → Hub → Hub × Result HubError LiveSession
claim now project code device h = claim_swept now project code device (sweep_locked now h)
