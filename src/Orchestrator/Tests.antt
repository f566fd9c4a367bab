-- ===== src/Orchestrator/Tests.antt =====
-- Runs of intervention.service.ts on a pending recommendation.
use wince_backend.Prelude.{◌≡◌, refl, ◌⊎◌}
use wince_backend.Redis.Memory.{memory}
use wince_backend.World.{World}
use wince_backend.World.Monad.{ok, ◌>>=◌}
use wince_backend.Orchestrator.{
  executed, execute_recommendation, validate, validate_row, unless_expired, with_customer,
  unless_sent, after_validation, with_token, run_locked, deliver, let_go, start_heartbeat,
  clear_heartbeat, discount_code,
}
use wince_backend.Lock
use wince_backend.Cooldown
use wince_backend.Budget
use wince_backend.Outbound
use wince_backend.Recommendation
use wince_backend.SessionFeatures
use wince_backend.Orchestrator.Quiet.{Sent}
use wince_backend.Orchestrator.Execute.{DueDelivery, execute_recommendation-DueDelivery}
use wince_backend.Orchestrator.Recorded.{
  IsRecorded, execute_recommendation-IsRecorded, execute_recommendation-once,
}
use wince_backend.Fixture.{readers, world}

abbrev after : World memory
after = (execute_recommendation memory readers 7 world).1

execute_recommendation-DueDelivery_example :
    Sent world.deliveries after ⊎ DueDelivery memory readers world 7 after
execute_recommendation-DueDelivery_example =
    execute_recommendation-DueDelivery memory readers world 7

runs : (execute_recommendation memory readers 7 world).0 ≡ ok (executed "rec")
unfolding execute_recommendation validate validate_row unless_expired with_customer unless_sent
    Recommendation.get SessionFeatures.get_session_context Lock.is_sent Lock.acquire_user_lock
    Lock.acquire_script Lock.release_user_lock Lock.mark_sent Cooldown.set_cooldown
    Budget.check_and_reserve Budget.reserve_script Budget.initialise Budget.check_and_increment
    Outbound.write Outbound.route Outbound.mark_delivered Outbound.generate_code
    Recommendation.mark_executed after_validation with_token run_locked deliver let_go
    start_heartbeat clear_heartbeat discount_code ◌>>=◌
runs = refl

execute_recommendation-IsRecorded_example : IsRecorded memory readers world 7 "rec" after
execute_recommendation-IsRecorded_example =
    execute_recommendation-IsRecorded memory readers world 7 "rec" runs

execute_recommendation-once_example :
    (execute_recommendation memory readers 7 after).1.deliveries ≡ after.deliveries
execute_recommendation-once_example =
    execute_recommendation-once memory readers world 7 "rec" after runs refl
