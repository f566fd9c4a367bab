-- ===== src/Orchestrator/Manual/Tests.antt =====
-- An administrator's order that the budget refuses.
use wince_backend.Prelude.{pos, ◌≡◌, refl, false}
use wince_backend.Types.{price_reduction, in_shop}
use wince_backend.Redis.Memory.{memory}
use wince_backend.World.Monad.{ok, ◌>>=◌}
use wince_backend.Lock
use wince_backend.Cooldown
use wince_backend.Budget
use wince_backend.Orchestrator.{budget_exhausted, start_heartbeat}
use wince_backend.Orchestrator.Manual.{
  ManualParams, refused, manual_decide, guard_order, after_guard, with_order_token, order_locked,
}
use wince_backend.Orchestrator.Manual.Timers.{LeavesTimers, manual_decide-LeavesTimers}
use wince_backend.Fixture.{readers, world}

-- an order of more than the daily budget
abbrev order : ManualParams
order = record {
  session_id = "s1";
  store_id = 1;
  customer_id = pos 42;
  distinct_id = "d1";
  email_consent = false;
  sms_consent = false;
  type = price_reduction;
  channel = in_shop;
  value = 20000;
  override_cooldown = false;
}

is_refused : (manual_decide memory readers order world).0 ≡ ok (refused budget_exhausted)
unfolding manual_decide guard_order after_guard with_order_token order_locked start_heartbeat
    Lock.is_sent Lock.acquire_user_lock Lock.acquire_script Cooldown.is_on_cooldown
    Budget.check_and_reserve Budget.reserve_script Budget.initialise Budget.check_and_increment
    ◌>>=◌
is_refused = refl

manual_decide-LeavesTimers_example :
    LeavesTimers {R = memory}
      (pos 42)
      world.heartbeats
      (refused budget_exhausted)
      (manual_decide memory readers order world).1
manual_decide-LeavesTimers_example =
    manual_decide-LeavesTimers memory readers world order (refused budget_exhausted) is_refused
