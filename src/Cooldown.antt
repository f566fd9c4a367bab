-- ===== src/Cooldown.antt =====
-- apps/decision-engine/src/services/cooldown.service.ts: a marker for each store and customer.
use wince_backend.Prelude.{ℕ, ℤ, Bool, false, is_some}
use wince_backend.Redis.{Redis, cooldown, flag}
use wince_backend.World.Monad.{M, ◌>>=◌, pure, try_catch, redis_call}

module _ (R : Redis) where
  open R use {get, setex, del}

  unfoldable pub is_on_cooldown : ℕ → ℤ → M R Bool
  is_on_cooldown store_id customer_id =
      try_catch
        (do
          result ← redis_call (λ now s. (get now (cooldown store_id customer_id) s, s))
          pure (is_some result))
        (pure false)

  unfoldable pub set_cooldown : ℕ → ℤ → ℕ → M R Unit
  set_cooldown store_id customer_id ttl =
      try_catch (redis_call (λ now s. (tt, setex now (cooldown store_id customer_id) ttl flag s)))
        (pure tt)

  unfoldable pub clear_cooldown : ℕ → ℤ → M R Unit
  clear_cooldown store_id customer_id =
      try_catch (redis_call (λ now s. (tt, del (cooldown store_id customer_id) s))) (pure tt)
