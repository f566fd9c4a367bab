-- ===== src/StaleScan.antt =====
-- apps/decision-engine/src/services/stale-scanner.service.ts: scan, which gives the sessions that fell
-- silent to `decide`. The prefetch of features into a cache is an argument that may throw.
pub mod Manual
mod Tests
use Prim.Native.String.{String}
use wince_backend.Prelude.{
  ℕ, ◌-◌, ℤ, Bool, true, false, Option, none, some, List, [], ◌∷◌, is_some, ltb, if◌then◌else◌,
}
use wince_backend.Types.{EnrichedEvent}
use wince_backend.Redis.{Redis, Entry, scan_lock, active_sessions, flag}
use wince_backend.World.{World}
use wince_backend.World.Monad.{M, ◌>>=◌, ◌>>◌, pure, gets, try_catch, redis_call}
use wince_backend.Lock
use wince_backend.SessionFeatures.{SessionContext, get_session_context, to_enriched_event}
use wince_backend.Scheduler.{range_by_score}
use wince_backend.Orchestrator.{Readers}
use wince_backend.Orchestrator.Decide.{Scorers, decide}

abbrev pub stale_threshold_ms : ℕ
stale_threshold_ms = 120000

abbrev pub scan_batch_limit : ℕ
scan_batch_limit = 500

-- The contexts that are there.
abbrev pub present : List (Option SessionContext) → List SessionContext
present [] = []
present (none ∷ cs) = present cs
present (some c ∷ cs) = c ∷ present cs

module _ (R : Redis) (rd : Readers) (sc : Scorers) (show_eid : String → String)
    (prefetch : List SessionContext → M R Unit) where
  open R use {get, setex, del, zset}

  -- The event of a stale session, whose tab is taken to be closed.
  abbrev pub stale_event : SessionContext → EnrichedEvent
  stale_event ctx = record (to_enriched_event show_eid ctx) { session_available = false }

  -- whether the customer of the session already got an intervention
  unfoldable pub got_intervention : Option ℤ → M R Bool
  got_intervention none = pure false
  got_intervention (some c) = Lock.is_sent R c

  unfoldable pub process_context : SessionContext → M R Unit
  process_context ctx = do
    sent ← got_intervention ctx.customer_id
    if sent then pure tt else decide R rd sc (stale_event ctx)

  unfoldable pub process_stale_session : Option SessionContext → M R Unit
  process_stale_session none = pure tt
  process_stale_session (some ctx) = try_catch (process_context ctx) (pure tt)

  unfoldable pub get_contexts : List String → M R (List (Option SessionContext))
  get_contexts [] = pure []
  get_contexts (sid ∷ sids) = do
    ctx ← get_session_context R sid
    rest ← get_contexts sids
    pure (ctx ∷ rest)

  unfoldable pub process_all : List (Option SessionContext) → M R Unit
  process_all [] = pure tt
  process_all (ctx ∷ ctxs) = process_stale_session ctx >> process_all ctxs

  -- the sessions up to the threshold, none of which is before 0
  abbrev silent_since : ℕ → List Entry → List String
  silent_since now entries =
      if ltb now stale_threshold_ms
      then []
      else range_by_score 0 (now - stale_threshold_ms) scan_batch_limit entries

  unfoldable pub stale_sessions : M R (List String)
  stale_sessions = redis_call {R = R} (λ now s. (silent_since now (zset active_sessions s), s))

  unfoldable pub scan_contexts : List (Option SessionContext) → M R Unit
  scan_contexts ctxs = prefetch (present ctxs) >> process_all ctxs

  unfoldable pub scan_sessions : M R Unit
  scan_sessions = do sids ← stale_sessions; ctxs ← get_contexts sids; scan_contexts ctxs

  -- SET with NX and EX
  unfoldable pub acquire_scan_lock : M R Bool
  acquire_scan_lock =
      try_catch
        (redis_call {R = R} (λ now s.
          if is_some (get now scan_lock s)
          then (false, s)
          else (true, setex now scan_lock 240 flag s)))
        (pure false)

  abbrev pub under_lock : Bool → M R Unit
  under_lock false = pure tt
  under_lock true = do
    try_catch scan_sessions (pure tt)
    try_catch (redis_call {R = R} (λ _ s. (tt, del scan_lock s))) (pure tt)

  unfoldable pub scan : M R Unit
  scan = acquire_scan_lock >>= under_lock
