-- ===== src/Budget.antt =====
-- apps/decision-engine/src/services/budget.service.ts: the daily budget of a store, a counter in
-- Redis that a Lua script checks and increments atomically. Amounts are cents, so none is below 0.
mod Tests
pub mod Daily
use wince_backend.Prelude.{ℕ, ◌+◌, Bool, true, false, is_some, ltb, leb, ◌==◌, if◌then◌else◌}
use wince_backend.Redis.{Redis, Key, budget, Value, amount, number_or_zero}
use wince_backend.World.{World, today}
use wince_backend.World.Monad.{M, ◌>>=◌, pure, gets, try_catch, redis_call}

-- 48 hours, in seconds
abbrev pub budget_ttl : ℕ
budget_ttl = 172800

module _ (R : Redis) where
  open R use {Store, get, setex, incr_by}

  -- SET with NX and EX of the counter to 0
  unfoldable pub initialise : Key → ℕ → ℕ → Store → Store
  initialise key ttl now s = if is_some (get now key s) then s else setex now key ttl (amount 0) s

  unfoldable pub check_and_increment : Key → ℕ → ℕ → ℕ → Store → ℕ × Store
  check_and_increment key x max_amount now s =
      if ltb max_amount (number_or_zero (get now key s) + x)
      then (0, s)
      else (1, incr_by now key x s)

  unfoldable pub reserve_script : Key → ℕ → ℕ → ℕ → ℕ → Store → ℕ × Store
  unfolding initialise check_and_increment
  reserve_script key x max_amount ttl now s =
      check_and_increment key x max_amount now (initialise key ttl now s)

  unfoldable pub check_available : ℕ → ℕ → ℕ → M R Bool
  check_available store_id x max_amount = if leb x 0 then pure true else do
    day ← gets today
    try_catch
        (do
          raw ← redis_call (λ now s. (get now (budget store_id day) s, s))
          pure (leb (number_or_zero raw + x) max_amount))
        (pure true)

  unfoldable pub check_and_reserve : ℕ → ℕ → ℕ → M R Bool
  check_and_reserve store_id x max_amount = if leb x 0 then pure true else do
    day ← gets today
    try_catch
        (do
          result ← redis_call (reserve_script (budget store_id day) x max_amount budget_ttl)
          pure (result == 1))
        (pure true)
