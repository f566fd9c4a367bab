-- ===== src/Scheduler.antt =====
-- apps/decision-engine/src/services/scheduler.service.ts: the queue of sessions that wait for
-- another evaluation, a sorted set whose scores are the times at which they are due.
mod Tests
pub mod Due
use Prim.Native.String.{String}
use wince_backend.Prelude.{
  ℕ, ◌+◌, ◌*◌, ℤ, Bool, List, [], ◌∷◌, map, filter, take, leb, if◌then◌else◌,
}
use wince_backend.Redis.{Redis, Entry, in_range, eval_queue, active_risk, risk_user, user_sessions}
use wince_backend.World.{World}
use wince_backend.World.Monad.{M, ◌>>=◌, ◌>>◌, pure, gets, try_catch, redis_call}

-- the backoff in seconds for a score in millionths
unfoldable pub delay_sec : ℕ → ℕ
delay_sec score = if leb 500000 score then 30 else if leb 300000 score then 120 else 300

-- ZRANGEBYSCORE key lo hi LIMIT 0 count
abbrev pub range_by_score : ℕ → ℕ → ℕ → List Entry → List String
range_by_score lo hi count l = map (λ e. e.member) (take count (filter (in_range lo hi) l))

abbrev pub pop_limit : ℕ
pop_limit = 100

module _ (R : Redis) where
  open R use {Store, del, zset, zadd, zrem, zrem_range}

  abbrev pub zrem_all : List String → Store → Store
  zrem_all [] s = s
  zrem_all (sid ∷ sids) s = zrem_all sids (zrem eval_queue sid s)

  -- `String(userId)`
  module _ (show_id : ℤ → String) where
    unfoldable pub clear_user_sessions : ℤ → ℕ → M R Unit
    clear_user_sessions user_id store_id =
        try_catch
          (do
            session_ids ←
                redis_call (λ now s. (map (λ e. e.member) (zset (user_sessions user_id) s), s))
            redis_call (λ now s. (
              tt,
              del (user_sessions user_id) (
                  zrem (active_risk store_id) (show_id user_id)
                    (del (risk_user user_id) (zrem_all session_ids s))),
            )))
          (pure tt)

  unfoldable pub schedule : String → ℕ → M R Unit
  unfolding delay_sec
  schedule session_id score = do
    eval_at ← gets (λ (w : World R). w.now + delay_sec score * 1000)
    try_catch (redis_call (λ now s. (tt, zadd eval_queue eval_at session_id s))) (pure tt)

  -- nothing to remove, or ZREMRANGEBYSCORE of the range that was fetched
  abbrev pub remove_fetched : ℕ → List String → M R (List String)
  remove_fetched now [] = pure []
  remove_fetched now (m ∷ ms) = do
    redis_call (λ _ s. (tt, zrem_range eval_queue 0 now s))
    pure (m ∷ ms)

  -- the two commands of `popDue`, between which no other runs
  unfoldable pub pop_due : M R (List String)
  pop_due = do
    now ← gets (λ (w : World R). w.now)
    try_catch
        (do
          members ← redis_call (λ _ s. (range_by_score 0 now pop_limit (zset eval_queue s), s))
          remove_fetched now members)
        (pure [])
