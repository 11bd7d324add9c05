-- ===== src/Live/Hub/Stream.antt =====
-- `Publish`, `Watch` with its `Cancel`, and `announceWatchers` of internal/live/hub.go. A walk over
-- the watchers goes in the order of the list, where Go's map has none.
use code_scout.Common.{
  ℕ, suc, ◌+◌, Bool, true, false, not, List, [], ◌∷◌, ◌++◌, Option, none, some, Result, ok, err,
  if◌then◌else◌, ◌==◌, leb, length, keep, any, lookup, insert, nat_eq,
}
use code_scout.Domain.LiveSession.{Uuid, Time, is_ended, LiveEvent, LiveEventKind, LiveLog}
use code_scout.Live.Channel.{make, fan_out, close}
use code_scout.Live.Session.{Session, event_buffer, max_watchers_per_session, remember_all, since}
use code_scout.Live.Hub.{Hub, HubError, no_such_session, too_many_watchers}

abbrev pub stream_event : LiveEventKind → Time → ℕ → Option LiveLog → LiveEvent
stream_event kind now seq log = record {
  kind = kind;
  at = now;
  seq = seq;
  log = log;
  reason = [];
  watchers = 0;
}

unfoldable pub number_logs : LiveEventKind → Time → ℕ → List LiveLog → List LiveEvent
number_logs kind now seq [] = []
number_logs kind now seq (l ∷ ls) =
    stream_event kind now (suc seq) (some l) ∷ number_logs kind now (suc seq) ls

-- The events that one call of `Publish` makes: one without a log where there are none.
unfoldable pub publish_events : LiveEventKind → Time → ℕ → List LiveLog → List LiveEvent
publish_events kind now seq [] = stream_event kind now (suc seq) none ∷ []
publish_events kind now seq (l ∷ ls) = number_logs kind now seq (l ∷ ls)

abbrev pub published : Time → List LiveEvent → Session → Session
published now evs s =
    remember_all evs
      (record s { meta = record s.meta { last_seen = now }; seq = s.seq + length evs })

-- `(*Hub).Publish`
unfoldable pub publish : Time → Uuid → LiveEventKind → List LiveLog → Hub → Hub
publish now id kind logs h = elim (lookup id h.sessions) [
  | none ↦ h
  | some s ↦
      if is_ended s.meta.state
      then h
      else let evs = publish_events kind now s.seq logs in
        record h {
          sessions = insert id (published now evs s) h.sessions;
          events = fan_out event_buffer evs s.watchers h.events;
        }
]

abbrev pub watcher_event : Time → ℕ → LiveEvent
watcher_event now count = record {
  kind = LiveEventKind.watcher_event;
  at = now;
  seq = 0;
  log = none;
  reason = [];
  watchers = count;
}

-- `(*Hub).announceWatchers`
unfoldable pub announce_watchers : Time → Uuid → ℕ → Hub → Hub
announce_watchers now id count h = elim (lookup id h.sessions) [
  | none ↦ h
  | some s ↦ record h {
    events = fan_out event_buffer (watcher_event now count ∷ []) s.watchers h.events;
  }
]

-- `Subscription`, with what its `Cancel` closes over: the session, the watcher and the `sync.Once`.
pub record Subscription : Type 0 where
  pub backlog : List LiveEvent
  pub missed : ℕ
  pub session_id : Uuid
  pub watcher : ℕ
  pub cancelled : Bool

abbrev pub set_watchers : List ℕ → Session → Session
set_watchers ws s = record s { meta = record s.meta { watchers = length ws }; watchers = ws }

-- The critical section of `Watch`.
unfoldable pub subscribe : Uuid → ℕ → Hub → Hub × Result HubError Subscription
subscribe id after h = elim (lookup id h.sessions) [
  | none ↦ (h, err no_such_session)
  | some s ↦
      if is_ended s.meta.state
      then (h, err no_such_session)
      else if leb max_watchers_per_session (length s.watchers)
      then (h, err too_many_watchers)
      else let w = h.events.next in
        (
          record h {
            sessions = insert id (set_watchers (s.watchers ++ w ∷ []) s) h.sessions;
            events = make id h.events;
          },
          ok (record {
            backlog = (since s after).0;
            missed = (since s after).1;
            session_id = id;
            watcher = w;
            cancelled = false;
          }),
        )
]

abbrev pub watcher_count : Uuid → Hub → ℕ
watcher_count id h = elim (lookup id h.sessions) [ none ↦ 0 | some s ↦ s.meta.watchers ]

-- `(*Hub).Watch`, with nothing between its two critical sections.
unfoldable pub watch : Time → Uuid → ℕ → Hub → Hub × Result HubError Subscription
watch now id after h =
    let (h', r) = subscribe id after h in
    elim r [
      | err e ↦ (h', err e)
      | ok sub ↦ (announce_watchers now id (watcher_count id h') h', ok sub)
    ]

abbrev pub remove : ℕ → List ℕ → List ℕ
remove w = keep λ v. not (v == w)

-- The critical section of `Cancel`; the number is that of the watchers left, if it is announced.
unfoldable pub unsubscribe : Uuid → ℕ → Hub → Hub × Option ℕ
unsubscribe id w h = elim (lookup id h.sessions) [
  | none ↦ (h, none)
  | some s ↦ if not (any (λ v. v == w) s.watchers) then (h, none) else (
    record h {
      sessions = insert id (set_watchers (remove w s.watchers) s) h.sessions;
      events = close w h.events;
    },
    some (length (remove w s.watchers)),
  )
]

-- `Cancel`, with nothing between its two critical sections.
unfoldable pub cancel : Time → Subscription → Hub → Hub × Subscription
cancel now sub h =
    if sub.cancelled
    then (h, sub)
    else let (h', left) = unsubscribe sub.session_id sub.watcher h in
      (
        elim left [ none ↦ h' | some n ↦ announce_watchers now sub.session_id n h' ],
        record sub { cancelled = true },
      )
