-- ===== src/Orchestrator.antt =====
-- apps/decision-engine/src/services/intervention.service.ts: phase 2 of the decision pipeline, in
-- which an approved recommendation, or an administrator's order, becomes an intervention.
mod Tests
pub mod Quiet
pub mod Once
pub mod Execute
pub mod Recorded
pub mod Decide
pub mod Manual
use Prim.Native.String.{String}
use wince_backend.Prelude.{
  ℕ, zero, suc, ℤ, negsuc, int_eq, Bool, true, false, not, ◌&&◌, ◌||◌, Option, none, some, get_or,
  List, [], ◌∷◌, filter, ltb, ◌==◌, if◌then◌else◌,
}
use wince_backend.Types.{
  InterventionType, InterventionChannel, Policy, free_shipping, price_reduction, in_shop, off_shop,
}
use wince_backend.Redis.{Redis}
use wince_backend.World.{
  World, Recommendation, Status, Heartbeat, Intervention, Delivery, pending, approved,
}
use wince_backend.World.Monad.{M, Error, ◌>>=◌, ◌>>◌, pure, gets, try_with, modify}
use wince_backend.Lock
use wince_backend.Cooldown
use wince_backend.Budget
use wince_backend.Outbound
use wince_backend.Recommendation
use wince_backend.SessionFeatures
use wince_backend.SessionFeatures.{SessionContext}

-- `{eid}` of `deterministicInterventionId`: a recommendation, or a manual order of a session at a
-- time for a customer
pub data Source : Type 0 where
  recommendation : ℕ → Source
  manual_order : String → ℕ → ℤ → Source

-- What the orchestrator reads through services that keep their own caches, and the hashes and
-- random texts of `node:crypto`.
pub record Readers : Type 0 where
  -- `PolicyService.getPolicy`, null on failure
  pub policy_of : ℕ → Option Policy
  -- `ExperimentService.getVariant`
  pub variant_of : ℕ → ℤ → String
  -- `deterministicInterventionId(eid, distinctId)`
  pub intervention_id : Source → String → String
  -- the code made of the n-th random bytes for a store
  pub code_of : ℕ → ℕ → String
  pub show_uuid : ℕ → String

pub data SkipReason : Type 0 where
  recommendation_not_found recommendation_expired customer_not_resolved : SkipReason
  recommendation_status : Status → SkipReason
  already_sent lock_contention budget_exhausted cooldown_active : SkipReason
  failed : Error → SkipReason

pub data ExecuteResult : Type 0 where
  executed : String → ExecuteResult
  skipped : SkipReason → ExecuteResult

-- What is known of the recommendation once it is validated.
pub record Plan : Type 0 where
  pub recommendation_id : ℕ
  pub rec : Recommendation
  pub customer_id : ℤ
  pub ctx : Option SessionContext
  pub pol : Option Policy

pub data Validated : Type 0 where
  stop : SkipReason → Validated
  proceed : Plan → Validated

-- `NEEDS_DISCOUNT_CODE.has(type) && channel === 'in_shop'`
abbrev pub needs_code : InterventionType → InterventionChannel → Bool
needs_code price_reduction in_shop = true
needs_code free_shipping in_shop = true
needs_code _ _ = false

abbrev pub daily_budget : Option Policy → ℕ
daily_budget none = 10000
daily_budget (some p) = p.max_daily_budget_amount

abbrev pub cooldown_seconds : Option Policy → ℕ
cooldown_seconds none = 3600
cooldown_seconds (some p) = p.cooldown_seconds

-- `ctx?.emailConsent ?? false`, `ctx?.smsConsent ?? false`
abbrev pub email_consent : Option SessionContext → Bool
email_consent none = false
email_consent (some c) = c.email_consent

abbrev pub sms_consent : Option SessionContext → Bool
sms_consent none = false
sms_consent (some c) = c.sms_consent

abbrev pub is_open : Status → Bool
is_open pending = true
is_open approved = true
is_open _ = false

abbrev pub same_timer : ℤ → ℕ → Heartbeat → Bool
same_timer user token h = int_eq h.user user && h.token == token

module _ (R : Redis) (rd : Readers) where
  open rd use {policy_of, variant_of, intervention_id, code_of, show_uuid}

  -- `setInterval` of the renewals, and its `clearInterval`
  pub start_heartbeat : ℤ → ℕ → M R Unit
  start_heartbeat user token =
      modify (λ w. record w { heartbeats = record { user = user; token = token } ∷ w.heartbeats })

  pub clear_heartbeat : ℤ → ℕ → M R Unit
  clear_heartbeat user token =
      modify
        (λ w. record w { heartbeats = filter (λ h. not (same_timer user token h)) w.heartbeats })

  pub discount_code : InterventionType → InterventionChannel → ℕ → M R (Option String)
  discount_code type channel store_id =
      if needs_code type channel then Outbound.generate_code R code_of store_id else pure none

  -- the expiry, customer and sent guards of `executeRecommendation`
  pub unless_sent : ℕ → Recommendation → ℤ → M R Validated
  unless_sent id rec c = do
    ctx ← SessionFeatures.get_session_context R rec.session_id
    sent ← Lock.is_sent R c
    if sent
        then pure (stop already_sent)
        else pure (
            proceed (record {
              recommendation_id = id;
              rec = rec;
              customer_id = c;
              ctx = ctx;
              pol = policy_of rec.store_id;
            }))

  pub with_customer : ℕ → Recommendation → Option ℤ → M R Validated
  with_customer id rec none = pure (stop customer_not_resolved)
  with_customer id rec (some c) = unless_sent id rec c

  pub unless_expired : ℕ → Recommendation → ℕ → M R Validated
  unless_expired id rec now =
      if ltb rec.expires_at now
      then (do
        Recommendation.mark_expired R show_uuid id rec.store_id
        pure (stop recommendation_expired))
      else with_customer id rec rec.customer_id

  pub validate_row : ℕ → Option Recommendation → M R Validated
  validate_row id none = pure (stop recommendation_not_found)
  validate_row id (some rec) =
      if is_open rec.status
      then (do now ← gets (λ (w : World R). w.now); unless_expired id rec now)
      else pure (stop (recommendation_status rec.status))

  pub validate : ℕ → M R Validated
  validate id = do row ← Recommendation.get R id; validate_row id row

  abbrev pub intervention_of : Plan → Option String → Intervention
  intervention_of p code = record {
    intervention_id = intervention_id (recommendation p.recommendation_id) p.rec.distinct_id;
    session_id = p.rec.session_id;
    store_id = p.rec.store_id;
    type = p.rec.type;
    channel = p.rec.channel;
    value = get_or p.rec.value 0;
    discount_code = code;
    variant = variant_of p.rec.store_id p.customer_id;
    delivered = false;
  }

  abbrev pub delivery_of : Intervention → Bool → Bool → Delivery
  delivery_of i email sms = record {
    channel = i.channel;
    session_id = i.session_id;
    intervention_id = i.intervention_id;
    type = i.type;
    value = i.value;
    discount_code = i.discount_code;
    email_consent = email;
    sms_consent = sms;
  }

  -- from the experiment to `markExecuted`
  pub deliver : Plan → M R (Unit {0})
  deliver p = do
    code ← discount_code p.rec.type p.rec.channel p.rec.store_id
    let i = intervention_of p code
    Outbound.write R i
    Outbound.route R (delivery_of i (email_consent p.ctx) (sms_consent p.ctx))
    Outbound.mark_delivered R i.intervention_id
    Cooldown.set_cooldown R p.rec.store_id p.customer_id (cooldown_seconds p.pol)
    Lock.mark_sent R p.customer_id
    Recommendation.mark_executed R p.recommendation_id i.intervention_id

  -- `clearInterval` and `releaseUserLock`
  pub let_go : ℤ → ℤ → ℕ → M R (Unit {0})
  let_go timer_user lock_user token = do
    clear_heartbeat timer_user token
    Lock.release_user_lock R lock_user token

  -- the pipeline under the lock
  pub run_locked : Plan → ℕ → M R ExecuteResult
  run_locked p token = do
    start_heartbeat p.customer_id token
    budget_ok ←
        Budget.check_and_reserve R p.rec.store_id (get_or p.rec.value 0) (daily_budget p.pol)
    if budget_ok
        then (do
          deliver p
          let_go p.customer_id p.customer_id token
          pure (executed (intervention_id (recommendation p.recommendation_id) p.rec.distinct_id)))
        else (do let_go p.customer_id p.customer_id token; pure (skipped budget_exhausted))

  -- The `catch` of a run that holds a token releases the lock of user -1.
  pub with_token : Plan → Option ℕ → M R ExecuteResult
  with_token p none = pure (skipped lock_contention)
  with_token p (some token) =
      try_with (run_locked p token)
        (λ e. do let_go p.customer_id (negsuc 0) token; pure (skipped (failed e)))

  pub after_validation : Validated → M R ExecuteResult
  after_validation (stop r) = pure (skipped r)
  after_validation (proceed p) = do
    token ← Lock.acquire_user_lock R p.customer_id
    with_token p token

  -- Nothing is held before the lock is acquired, so the `catch` has nothing to let go there.
  pub execute_recommendation : ℕ → M R ExecuteResult
  execute_recommendation id =
      try_with (do v ← validate id; after_validation v) (λ e. pure (skipped (failed e)))
