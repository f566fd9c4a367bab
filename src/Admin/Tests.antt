-- ===== src/Admin/Tests.antt =====
-- An administrator's orders on a pending recommendation.
use wince_backend.Prelude.{ℕ, suc, ◌==◌, if◌then◌else◌, ◌≡◌, ◌⊎◌, refl, true, [], ◌∷◌}
use wince_backend.Redis.Memory.{memory}
use wince_backend.World.{World, rejected, reject_recommendation}
use wince_backend.World.Monad.{ok, ◌>>=◌}
use wince_backend.Orchestrator.{execute_recommendation}
use wince_backend.Orchestrator.Quiet.{Sent}
use wince_backend.Retry.{execute_with_retry}
use wince_backend.Retry.Attempts.{execute_with_retry-Calls}
use wince_backend.Admin.{
  RetryPolicy, Exchange, Link, lost_reply, done, not_pending, replies, unreachable, failed_to_reach,
  call_execute, log, get, reject_row, entry, after_execute, approve_row, approve, reject_found,
  reject,
}
use wince_backend.Admin.Series.{IsPolicy}
use wince_backend.Admin.Approval.{ApprovedDeliveries, reject-stops, approve-ApprovedDeliveries}
use wince_backend.Fixture.{readers, world}

abbrev after_reject : World memory
after_reject = (reject memory readers 1 7 world).1

rejects : (reject memory readers 1 7 world).0 ≡ ok done
unfolding reject get reject_found reject_row log ◌>>=◌
rejects = refl

reject-stops_example :
    (execute_recommendation memory readers 7 after_reject).1.deliveries ≡ world.deliveries
reject-stops_example = reject-stops memory readers world 1 7 rejects

rejection_logged :
    after_reject.audit_logs ≡ entry memory readers 1 reject_recommendation 7 true ∷ []
unfolding reject get reject_found reject_row log ◌>>=◌
rejection_logged = refl

-- three retries, without the breaker
abbrev policy : RetryPolicy memory
policy max = execute_with_retry (suc max)

policy-IsPolicy : IsPolicy memory policy
policy-IsPolicy = record { calls = λ max. execute_with_retry-Calls (suc max) }

-- what becomes of every request
abbrev always : Link → ℕ → Exchange
always link n = record { after = 0; link = link }

-- an approval after the rejection
too_late :
    (approve memory readers policy (always replies) 1 7 after_reject).0 ≡ ok (not_pending rejected)
unfolding approve approve_row reject get reject_found reject_row log ◌>>=◌
too_late = refl

engine_down : (approve memory readers policy (always unreachable) 1 7 world).0 ≡ ok failed_to_reach
unfolding approve approve_row get call_execute after_execute log execute_with_retry ◌>>=◌
engine_down = refl

-- the reply to the first request is lost
abbrev exchanges : ℕ → Exchange
exchanges n =
    if n == 0
    then record { after = 0; link = lost_reply }
    else record { after = 10500; link = replies }

approve-ApprovedDeliveries_example :
    let w' = (approve memory readers policy exchanges 1 7 world).1 in
    Sent world.deliveries w' ⊎ ApprovedDeliveries memory readers world 7 w'
approve-ApprovedDeliveries_example =
    approve-ApprovedDeliveries memory readers policy policy-IsPolicy world exchanges 1 7
