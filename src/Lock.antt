-- ===== src/Lock.antt =====
-- apps/decision-engine/src/services/lock.service.ts: the user lock with fencing tokens and the
-- marker of a sent intervention. The Lua scripts run atomically in Redis.
mod Tests
pub mod Fencing
use wince_backend.Prelude.{
  ℕ, ℤ, Bool, true, false, Option, none, some, is_some, ◌==◌, if◌then◌else◌,
}
use wince_backend.Redis.{Redis, Key, lock_user, sent_user, Value, uuid, flag, value_eq}
use wince_backend.World.Monad.{M, ◌>>=◌, ◌>>◌, pure, try_catch, redis_call, random_uuid}

-- seconds
abbrev pub user_lock_ttl : ℕ
user_lock_ttl = 30

abbrev pub sent_ttl : ℕ
sent_ttl = 600

-- `redis.call('get', key) == token`
abbrev pub holds : Option Value → ℕ → Bool
holds none token = false
holds (some v) token = value_eq v (uuid token)

module _ (R : Redis) where
  open R use {Store, get, setex, expire, del}

  -- SET with NX and EX, which writes only where the key is absent; `none` is the reply `''`
  unfoldable pub acquire_script : Key → ℕ → ℕ → ℕ → Store → Option ℕ × Store
  acquire_script key token ttl now s =
      if is_some (get now key s) then (none, s) else (some token, setex now key ttl (uuid token) s)

  unfoldable pub renew_script : Key → ℕ → ℕ → ℕ → Store → ℕ × Store
  renew_script key token ttl now s =
      if holds (get now key s) token then (1, expire now key ttl s) else (0, s)

  unfoldable pub release_script : Key → ℕ → ℕ → Store → ℕ × Store
  release_script key token now s = if holds (get now key s) token then (1, del key s) else (0, s)

  abbrev replied : ℕ → Option ℕ → Option ℕ
  replied token none = none
  replied token (some r) = if r == token then some token else none

  -- A token, or `none` on contention. A Redis error fails open.
  unfoldable pub acquire_user_lock : ℤ → M R (Option ℕ)
  acquire_user_lock user = do
    token ← random_uuid
    try_catch
        (do
          result ← redis_call (acquire_script (lock_user user) token user_lock_ttl)
          pure (replied token result))
        (pure (some token))

  unfoldable pub renew_user_lock : ℤ → ℕ → M R Bool
  renew_user_lock user token =
      try_catch
        (do
          result ← redis_call (renew_script (lock_user user) token user_lock_ttl)
          pure (result == 1))
        (pure true)

  unfoldable pub release_user_lock : ℤ → ℕ → M R Unit
  release_user_lock user token =
      try_catch (do redis_call (release_script (lock_user user) token); pure tt) (pure tt)

  unfoldable pub is_sent : ℤ → M R Bool
  is_sent user =
      try_catch (do val ← redis_call (λ now s. (get now (sent_user user) s, s)); pure (is_some val))
        (pure false)

  unfoldable pub mark_sent : ℤ → M R Unit
  mark_sent user =
      try_catch (redis_call (λ now s. (tt, setex now (sent_user user) sent_ttl flag s))) (pure tt)

  unfoldable pub clear_user_sent : ℤ → M R Unit
  clear_user_sent user = try_catch (redis_call (λ now s. (tt, del (sent_user user) s))) (pure tt)
