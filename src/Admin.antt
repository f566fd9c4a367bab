-- ===== src/Admin.antt =====
-- apps/admin-api/src: the routes that approve and reject a recommendation, with
-- services/recommendation.ts, services/audit.ts and clients/decision-engine.ts, and the handler of
-- apps/decision-engine/src/internal/internal-handler.ts that the approval calls. The admin API has
-- its own connection to the same database. A throw that a route does not catch is the answer 500.
-- The retry policy of the cockatiel package, through which packages/http-client sends every POST, is
-- a parameter; a request whose reply is late ends before the next begins, and time passes between
-- the two.
-- Authentication is done before the routes, and is left out; so are the columns `rejected_by`,
-- `rejected_at` and `updated_at`.
pub mod Series
pub mod Approval
mod Tests
use Prim.Native.String.{len}
use wince_backend.Prelude.{
  ℕ, suc, ◌+◌, Bool, true, false, Option, none, some, List, ◌∷◌, ltb, if◌then◌else◌,
}
use wince_backend.Redis.{Redis}
use wince_backend.World.{
  World, Recommendation, Status, rejected, Action, approve_recommendation, reject_recommendation,
  AuditEntry,
}
use wince_backend.Retry.{Attempt, resolved, rejected as attempt_rejected, RetryResult, success}
use wince_backend.World.Monad.{M, Outcome, ok, ◌>>=◌, ◌>>◌, pure, gets, try_catch, db_call}
use wince_backend.Expiry.{is_pending}
use wince_backend.Recommendation.{update_row}
use wince_backend.Orchestrator.{Readers, ExecuteResult, executed, skipped, execute_recommendation}

pub data Response : Type 0 where
  -- 404, 409 and 410
  not_found : Response
  not_pending : Status → Response
  expired : Response
  -- 500 for an engine that cannot be reached, or what the engine answered
  failed_to_reach : Response
  result : ExecuteResult → Response
  -- 200
  done : Response

-- Whether a request comes to the engine, and its reply back in time.
pub data Link : Type 0 where
  unreachable lost_reply replies : Link

-- What becomes of a request, and the time that passes before it is sent.
pub record Exchange : Type 0 where
  pub after : ℕ
  pub link : Link

pub data ExecuteReply : Type 0 where
  invalid_recommendation_id internal_error : ExecuteReply
  executed_or_skipped : ExecuteResult → ExecuteReply

abbrev pub is_executed : ExecuteResult → Bool
is_executed (executed id) = true
is_executed (skipped r) = false

-- the client's promise rejects on a status that is no success
abbrev pub attempt_of : Outcome ExecuteReply → Attempt ExecuteResult
attempt_of (ok (executed_or_skipped r)) = resolved (some r)
attempt_of _ = attempt_rejected

abbrev pub data_of : RetryResult ExecuteResult → Option ExecuteResult
data_of (success r) = some r
data_of _ = none

-- The client with the world that it calls, and the number of the requests so far.
pub record Client (R : Redis) : Type 0 where
  pub requests : ℕ
  pub world : World R

-- `retryWithBreaker.execute` of `executeWithRetry`, by the number of its retries.
abbrev pub RetryPolicy : Redis → Type 0
RetryPolicy R =
    ℕ
    → (Client R → Attempt ExecuteResult × Client R)
    → Client R
    → RetryResult ExecuteResult × Client R

module _ (R : Redis) (rd : Readers) where
  -- `handleExecute` of the decision engine
  pub handle_execute : ℕ → M R ExecuteReply
  handle_execute id =
      if ltb (len (rd.show_uuid id)) 10
      then pure invalid_recommendation_id
      else try_catch (do r ← execute_recommendation R rd id; pure (executed_or_skipped r))
          (pure internal_error)

  abbrev pub send_request : Link → ℕ → M R ExecuteReply → World R → Attempt ExecuteResult × World R
  send_request unreachable id run w = (attempt_rejected, w)
  send_request lost_reply id run w = (attempt_rejected, (run w).1)
  send_request replies id run w = let (o, w') = run w in (attempt_of o, w')

  abbrev pub pass : ℕ → World R → World R
  pass t w = record w { now = w.now + t }

  -- one POST to the engine
  abbrev pub request : (ℕ → Exchange) → ℕ → Client R → Attempt ExecuteResult × Client R
  request exchanges id c =
      let x = exchanges c.requests in
      let (a, w) = send_request x.link id (handle_execute id) (pass x.after c.world) in
      (a, record { requests = suc c.requests; world = w })

  -- `executeRecommendation` of the client, `none` where it throws
  pub call_execute : RetryPolicy R → (ℕ → Exchange) → ℕ → M R (Option ExecuteResult)
  call_execute policy exchanges id w =
      let (r, c) = policy 3 (request exchanges id) (record { requests = 0; world = w }) in
      (ok (data_of r), c.world)

  pub log : AuditEntry → M R (Unit {0})
  log e = db_call (λ w. (tt, record w { audit_logs = e ∷ w.audit_logs }))

  pub get : ℕ → M R (Option Recommendation)
  get id = db_call (λ w. (w.recommendations id, w))

  -- the UPDATE has no condition on the status
  pub reject_row : ℕ → M R (Unit {0})
  reject_row id = db_call (λ w. (tt, update_row R id (λ r. record r { status = rejected }) w))

  abbrev pub entry : ℕ → Action → ℕ → Bool → AuditEntry
  entry admin action id worked = record {
    admin_user_id = admin;
    action = action;
    target = id;
    success = worked;
  }

  pub after_execute : ℕ → ℕ → Option ExecuteResult → M R Response
  after_execute admin id none = do
    log (entry admin approve_recommendation id false)
    pure failed_to_reach
  after_execute admin id (some r) = do
    log (entry admin approve_recommendation id (is_executed r))
    pure (result r)

  pub approve_row :
      RetryPolicy R → (ℕ → Exchange) → ℕ → ℕ → Option Recommendation → ℕ → M R Response
  approve_row policy exchanges admin id none now = pure not_found
  approve_row policy exchanges admin id (some rec) now =
      if is_pending rec.status
      then (if ltb rec.expires_at now
          then pure expired
          else (do r ← call_execute policy exchanges id; after_execute admin id r))
      else pure (not_pending rec.status)

  -- POST /admin/interventions/recommendations/:id/approve
  pub approve : RetryPolicy R → (ℕ → Exchange) → ℕ → ℕ → M R Response
  approve policy exchanges admin id = do
    rec ← get id
    now ← gets (λ (w : World R). w.now)
    approve_row policy exchanges admin id rec now

  pub reject_found : ℕ → ℕ → Option Recommendation → M R Response
  reject_found admin id none = pure not_found
  reject_found admin id (some rec) =
      if is_pending rec.status
      then (do reject_row id; log (entry admin reject_recommendation id true); pure done)
      else pure (not_pending rec.status)

  -- POST /admin/interventions/recommendations/:id/reject
  pub reject : ℕ → ℕ → M R Response
  reject admin id = do rec ← get id; reject_found admin id rec
