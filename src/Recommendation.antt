-- ===== src/Recommendation.antt =====
-- apps/decision-engine/src/services/recommendation.service.ts: the rows of
-- `intervention_recommendations`, their mirror in a sorted set for each store, and the audit topic.
use Prim.Native.String.{String}
use wince_backend.Prelude.{ℕ, ◌+◌, ◌*◌, ℤ, Option, none, some, ◌==◌, if◌then◌else◌}
use wince_backend.Types.{InterventionType, InterventionChannel}
use wince_backend.Redis.{Redis, pending_store}
use wince_backend.World.{
  World, Recommendation, pending, approved, rejected, executed, expired, recommendation_generated,
}
use wince_backend.World.Monad.{
  M, ◌>>=◌, ◌>>◌, pure, gets, try_catch, redis_call, db_call, send, random_uuid,
}

pub record GenerateParams : Type 0 where
  pub store_id : ℕ
  pub session_id : String
  pub distinct_id : String
  pub customer_id : ℤ
  pub risk_score : ℕ
  pub type : InterventionType
  pub channel : InterventionChannel
  pub value : ℕ
  pub trigger_reason : Option String
  pub approval_timeout_seconds : ℕ

module _ (R : Redis) where
  open R use {zadd, zrem, expire}

  -- INSERT of the row
  abbrev insert_row : Recommendation → World R → World R
  insert_row row w = record w {
    recommendations = λ j. if j == row.id then some row else w.recommendations j;
  }

  abbrev pub update_option :
      (Recommendation → Recommendation) → Option Recommendation → Option Recommendation
  update_option f none = none
  update_option f (some r) = some (f r)

  -- UPDATE of the row with the identifier, if there is one
  abbrev pub update_row : ℕ → (Recommendation → Recommendation) → World R → World R
  update_row id f w = record w {
    recommendations =
        λ j. if j == id then update_option f (w.recommendations j) else w.recommendations j;
  }

  abbrev new_row : GenerateParams → ℕ → ℕ → Recommendation
  new_row p id expires_at = record {
    id = id;
    store_id = p.store_id;
    session_id = p.session_id;
    distinct_id = p.distinct_id;
    customer_id = some p.customer_id;
    risk_score = p.risk_score;
    type = p.type;
    channel = p.channel;
    value = some p.value;
    status = pending;
    expires_at = expires_at;
    trigger_reason = p.trigger_reason;
    intervention_id = none;
  }

  module _ (show_uuid : ℕ → String) where
    unfoldable pub generate : GenerateParams → M R ℕ
    generate p = do
      id ← random_uuid
      expires_at ← gets (λ (w : World R). w.now + p.approval_timeout_seconds * 1000)
      db_call (λ w. (tt, insert_row (new_row p id expires_at) w))
      redis_call {R = R}
          (λ now s. (tt, zadd (pending_store p.store_id) expires_at (show_uuid id) s))
      redis_call {R = R}
          (λ now s. (tt, expire now (pending_store p.store_id) (p.approval_timeout_seconds * 2) s))
      try_catch (send (recommendation_generated id)) (pure tt)
      pure id

    unfoldable pub mark_rejected : ℕ → ℕ → M R Unit
    mark_rejected id store_id = do
      db_call (λ w. (tt, update_row id (λ r. record r { status = rejected }) w))
      try_catch (redis_call (λ _ s. (tt, zrem (pending_store store_id) (show_uuid id) s))) (pure tt)

    unfoldable pub mark_expired : ℕ → ℕ → M R Unit
    mark_expired id store_id = do
      db_call (λ w. (tt, update_row id (λ r. record r { status = expired }) w))
      try_catch (redis_call (λ _ s. (tt, zrem (pending_store store_id) (show_uuid id) s))) (pure tt)

  unfoldable pub get : ℕ → M R (Option Recommendation)
  get id = db_call (λ w. (w.recommendations id, w))

  unfoldable pub mark_approved : ℕ → M R Unit
  mark_approved id = db_call (λ w. (tt, update_row id (λ r. record r { status = approved }) w))

  unfoldable pub mark_executed : ℕ → String → M R Unit
  mark_executed id intervention_id = db_call (λ w. (
    tt,
    update_row id (λ r. record r { status = executed; intervention_id = some intervention_id }) w,
  ))
