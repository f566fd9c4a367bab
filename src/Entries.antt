-- ===== src/Entries.antt =====
-- The ways into `decide` of the decision engine besides Kafka: the tick of
-- apps/decision-engine/src/scheduler/scheduler.worker.ts, the handler of trigger/trigger.handler.ts,
-- and the recalculation of internal/internal-handler.ts. The sessions of a tick run one after the
-- other, and one that takes longer than its five seconds, which the code lets go on unobserved, runs
-- to its end. JSON.parse is a parameter: its result is an argument.
pub mod Manual
mod Tests
use Prim.Native.String.{String}
use text.Mathlib.Text.{◌==◌ as str_eq}
use wince_backend.Prelude.{ℕ, Option, none, some, List, [], ◌∷◌, if◌then◌else◌}
use wince_backend.Types.{EnrichedEvent}
use wince_backend.Redis.{Redis}
use wince_backend.World.Monad.{M, ◌>>=◌, ◌>>◌, pure, try_catch}
use wince_backend.SessionFeatures.{SessionContext, get_session_context, to_enriched_event}
use wince_backend.Scheduler.{pop_due}
use wince_backend.Orchestrator.{Readers}
use wince_backend.Orchestrator.Decide.{Scorers, decide}

pub data TriggerResponse : Type 0 where
  -- 401 and 202
  not_authorized accepted_trigger : TriggerResponse

pub data RecalculateResponse : Type 0 where
  -- 400, 404 and 200
  invalid_body : RecalculateResponse
  session_not_found recalculated : String → RecalculateResponse

-- the event of a trigger with the state of its session
abbrev pub freshened : EnrichedEvent → Option SessionContext → EnrichedEvent
freshened e none = e
freshened e (some ctx) = record e {
  cart_value = some ctx.cart_value;
  is_frustrated = ctx.is_frustrated;
  rage_click_count = some ctx.rage_click_count;
  session_available = ctx.session_available;
}

module _ (R : Redis) (rd : Readers) (sc : Scorers) (show_eid : String → String) where
  unfoldable pub decide_context : Option SessionContext → M R Unit
  decide_context none = pure tt
  decide_context (some ctx) = decide R rd sc (to_enriched_event show_eid ctx)

  unfoldable pub process_session : String → M R Unit
  process_session sid = try_catch (do ctx ← get_session_context R sid; decide_context ctx) (pure tt)

  unfoldable pub process_sessions : List String → M R Unit
  process_sessions [] = pure tt
  process_sessions (sid ∷ sids) = process_session sid >> process_sessions sids

  unfoldable pub tick : M R Unit
  tick = do sids ← pop_due R; process_sessions sids

  -- a body that is no JSON ends the handler
  unfoldable pub process_trigger : Option EnrichedEvent → M R Unit
  process_trigger none = pure tt
  process_trigger (some e) = do
    fresh ← try_catch (do ctx ← get_session_context R e.sid; pure (freshened e ctx)) (pure e)
    decide R rd sc fresh

  -- POST /v1/trigger: the answer is sent before the event is processed
  unfoldable pub handle_trigger : String → String → Option EnrichedEvent → M R TriggerResponse
  handle_trigger internal_secret secret body =
      if str_eq secret internal_secret
      then (do process_trigger body; pure accepted_trigger)
      else pure not_authorized

  unfoldable pub recalculate_context : String → Option SessionContext → M R RecalculateResponse
  recalculate_context sid none = pure (session_not_found sid)
  recalculate_context sid (some ctx) = do
    decide R rd sc (to_enriched_event show_eid ctx)
    pure (recalculated sid)

  -- POST /v1/internal/recalculate, with the session of the body if it has one
  unfoldable pub handle_recalculate : Option String → M R RecalculateResponse
  handle_recalculate none = pure invalid_body
  handle_recalculate (some sid) =
      if str_eq sid ""
      then pure invalid_body
      else (do ctx ← get_session_context R sid; recalculate_context sid ctx)
