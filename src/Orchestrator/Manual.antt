-- ===== src/Orchestrator/Manual.antt =====
-- `manualDecide` in apps/decision-engine/src/services/intervention.service.ts: an administrator's
-- intervention, which goes through the lock, the budget and the delivery without a recommendation.
mod Tests
pub mod Timers
use Prim.Native.String.{String}
use wince_backend.Prelude.{ℕ, ℤ, Bool, true, false, not, Option, none, some, ◌++◌, if◌then◌else◌}
use wince_backend.Types.{InterventionType, InterventionChannel}
use wince_backend.Redis.{Redis}
use wince_backend.World.{World, Intervention}
use wince_backend.World.Monad.{M, Error, ◌>>=◌, ◌>>◌, pure, throw, gets, try_with}
use wince_backend.Lock
use wince_backend.Cooldown
use wince_backend.Budget
use wince_backend.Outbound
use wince_backend.Orchestrator.{
  Readers, SkipReason, cooldown_active, already_sent, lock_contention, budget_exhausted,
  manual_order, daily_budget, cooldown_seconds, start_heartbeat, discount_code, delivery_of, let_go,
}

pub record ManualParams : Type 0 where
  pub session_id : String
  pub store_id : ℕ
  pub customer_id : ℤ
  pub distinct_id : String
  pub email_consent : Bool
  pub sms_consent : Bool
  pub type : InterventionType
  pub channel : InterventionChannel
  pub value : ℕ
  pub override_cooldown : Bool

pub data ManualResult : Type 0 where
  sent : String → ManualResult
  refused : SkipReason → ManualResult
  errored : Error → ManualResult

module _ (R : Redis) (rd : Readers) where
  abbrev pub manual_intervention : ManualParams → ℕ → Option String → Intervention
  manual_intervention p now code = record {
    intervention_id =
        rd.intervention_id (manual_order p.session_id now p.customer_id) p.distinct_id;
    session_id = p.session_id;
    store_id = p.store_id;
    type = p.type;
    channel = p.channel;
    value = p.value;
    discount_code = code;
    variant = "control";
    delivered = false;
  }

  -- the cooldown and sent guards
  pub guard_order : ManualParams → M R (Option SkipReason)
  guard_order p = if p.override_cooldown then pure none else do
    on_cooldown ← Cooldown.is_on_cooldown R p.store_id p.customer_id
    if on_cooldown then pure (some cooldown_active) else (do
      was_sent ← Lock.is_sent R p.customer_id
      if was_sent then pure (some already_sent) else pure none)

  -- from the budget gate on; a refusal by the budget returns past `clearInterval` and
  -- `releaseUserLock`
  pub order_locked : ManualParams → ℕ → M R ManualResult
  order_locked p token = do
    start_heartbeat R rd p.customer_id token
    budget_ok ←
        Budget.check_and_reserve R p.store_id p.value (daily_budget (rd.policy_of p.store_id))
    if budget_ok
        then (do
          now ← gets (λ (w : World R). w.now)
          code ← discount_code R rd p.type p.channel p.store_id
          let i = manual_intervention p now code
          Outbound.write R i
          Outbound.route R (delivery_of R rd i p.email_consent p.sms_consent)
          Outbound.mark_delivered R i.intervention_id
          Cooldown.set_cooldown R p.store_id p.customer_id
              (cooldown_seconds (rd.policy_of p.store_id))
          Lock.mark_sent R p.customer_id
          let_go R rd p.customer_id p.customer_id token
          pure (sent i.intervention_id))
        else pure (refused budget_exhausted)

  pub with_order_token : ManualParams → Option ℕ → M R ManualResult
  with_order_token p none = pure (refused lock_contention)
  with_order_token p (some token) =
      try_with (order_locked p token)
        (λ e. do let_go R rd p.customer_id p.customer_id token; throw e)

  pub after_guard : ManualParams → Option SkipReason → M R ManualResult
  after_guard p (some r) = pure (refused r)
  after_guard p none = do token ← Lock.acquire_user_lock R p.customer_id; with_order_token p token

  pub manual_decide : ManualParams → M R ManualResult
  manual_decide p = try_with (do r ← guard_order p; after_guard p r) (λ e. pure (errored e))
