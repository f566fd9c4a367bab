-- ===== src/Orchestrator/Decide.antt =====
-- `decide` in apps/decision-engine/src/services/intervention.service.ts: phase 1 of the pipeline,
-- from an enriched event to a recommendation, which the store's approval mode routes.
mod Tests
pub mod Modes
use Prim.Native.String.{String}
use wince_backend.Prelude.{ℕ, ℤ, Bool, Option, none, some, get_or, ◌||◌, ltb, if◌then◌else◌}
use wince_backend.Types.{
  InterventionType, InterventionChannel, EnrichedEvent, Policy, ApprovalMode, manual,
  auto_if_budget, auto_always, risk_threshold,
}
use wince_backend.Redis.{Redis}
use wince_backend.World.{World}
use wince_backend.World.Monad.{M, ◌>>=◌, ◌>>◌, pure, try_catch}
use wince_backend.Cooldown
use wince_backend.Budget
use wince_backend.Scheduler
use wince_backend.Recommendation
use wince_backend.Orchestrator.{Readers, daily_budget, execute_recommendation}

-- What `RiskScorerService.score` returns when it does not return null.
pub record RiskScore : Type 0 where
  pub score : ℕ
  pub should_intervene : Bool
  pub type : InterventionType
  pub channel : InterventionChannel
  pub value : ℕ

-- The scorers of a run: the rules and the models, which read the features of a customer.
pub record Scorers : Type 0 where
  pub risk_of : EnrichedEvent → Option Policy → ℤ → Option RiskScore
  -- `predictionProbability` of `PredictionService.predict`
  pub prediction_of : EnrichedEvent → ℕ

abbrev pub approval_mode : Option Policy → ApprovalMode
approval_mode none = manual
approval_mode (some p) = p.approval_mode

abbrev pub approval_timeout : Option Policy → ℕ
approval_timeout none = 600
approval_timeout (some p) = p.approval_timeout_seconds

module _ (R : Redis) (rd : Readers) (sc : Scorers) where
  abbrev pub params_of : EnrichedEvent → ℤ → RiskScore → Recommendation.GenerateParams
  params_of e c r = record {
    store_id = e.store_id;
    session_id = e.sid;
    distinct_id = get_or e.uid e.anon;
    customer_id = c;
    risk_score = r.score;
    type = r.type;
    channel = r.channel;
    value = r.value;
    trigger_reason = some e.t;
    approval_timeout_seconds = approval_timeout (rd.policy_of e.store_id);
  }

  -- the approval mode of a recommendation that was generated
  pub route_by_mode : EnrichedEvent → RiskScore → ApprovalMode → ℕ → M R Unit
  route_by_mode e r auto_always id = do execute_recommendation R rd id; pure tt
  route_by_mode e r auto_if_budget id = do
    budget_ok ← Budget.check_available R e.store_id r.value (daily_budget (rd.policy_of e.store_id))
    if budget_ok then (do execute_recommendation R rd id; pure tt) else pure tt
  route_by_mode e r manual id = pure tt

  pub with_score : EnrichedEvent → ℤ → Option RiskScore → M R Unit
  with_score e c none = pure tt
  with_score e c (some r) =
      if r.should_intervene || ltb risk_threshold (sc.prediction_of e)
      then (do
        id ← Recommendation.generate R rd.show_uuid (params_of e c r)
        route_by_mode e r (approval_mode (rd.policy_of e.store_id)) id)
      else Scheduler.schedule R e.sid r.score

  pub decide_for : EnrichedEvent → Option ℤ → M R Unit
  decide_for e none = pure tt
  decide_for e (some c) =
      try_catch
        (do
          on_cooldown ← Cooldown.is_on_cooldown R e.store_id c
          if on_cooldown
              then pure tt
              else with_score e c (sc.risk_of e (rd.policy_of e.store_id) c))
        (pure tt)

  pub decide : EnrichedEvent → M R Unit
  decide e = decide_for e e.customer_id
