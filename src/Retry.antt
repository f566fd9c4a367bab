-- ===== src/Retry.antt =====
-- `executeWithRetry` in packages/utils/src/lib/executeWithRetry.ts without the circuit breaker, which
-- is a policy of the cockatiel package: at most `maxRetries` attempts, with a growing delay between.
mod Tests
pub mod Attempts
use wince_backend.Prelude.{ℕ, zero, suc, ◌+◌, ◌*◌, ◌^◌, Option, none, some, List, [], ◌∷◌, map}

-- What one call of the operation comes to; a promise may resolve to undefined.
pub data Attempt (A : Type 0) : Type 0 where
  resolved : Option A → Attempt A
  rejected : Attempt A

pub data RetryResult (A : Type 0) : Type 0 where
  success : A → RetryResult A
  -- `failed after … attempts` and `returned undefined`
  exhausted returned_undefined : RetryResult A

-- the delay after an attempt, before the jitter
abbrev pub backoff_delay : ℕ → ℕ → ℕ
backoff_delay retry_delay attempt = retry_delay * 2 ^ attempt

abbrev pub checked : {A : Type 0} → Option A → RetryResult A
checked none = returned_undefined
checked (some a) = success a

module _ {S A : Type 0} where
  -- The end of the loop after an attempt, of which `left` remain.
  abbrev pub after_attempt : ℕ → Attempt A → (S → RetryResult A × S) → S → RetryResult A × S
  after_attempt left (resolved a) again s = (checked a, s)
  after_attempt zero rejected again s = (exhausted, s)
  after_attempt (suc left) rejected again s = again s

  -- `maxRetries` attempts; with none, the result is still undefined
  unfoldable pub execute_with_retry : ℕ → (S → Attempt A × S) → S → RetryResult A × S
  execute_with_retry zero op s = (returned_undefined, s)
  execute_with_retry (suc left) op s =
      let (r, s') = op s in after_attempt left r (execute_with_retry left op) s'
