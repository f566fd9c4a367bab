-- ===== src/Expiry.antt =====
-- apps/decision-engine/src/services/stale-scanner.service.ts: expireRecommendations, which every
-- minute expires the recommendations that waited too long. The walk of SCAN over the keys
-- `pending:store:*` is one command, whose answer is an argument.
pub mod Pending
mod Tests
use Prim.Native.String.{String}
use text.Mathlib.Text.{◌==◌ as str_eq}
use wince_backend.Prelude.{
  ℕ, Bool, true, false, not, Option, none, some, is_some, List, [], ◌∷◌, if◌then◌else◌,
}
use wince_backend.Redis.{Redis, pending_store, expiry_scan_lock, flag}
use wince_backend.World.{
  World, Recommendation, Status, pending, approved, rejected, executed, expired,
}
use wince_backend.World.Monad.{M, ◌>>=◌, ◌>>◌, pure, gets, try_catch, redis_call, db_call}
use wince_backend.Scheduler.{range_by_score}

abbrev pub expiry_batch_limit : ℕ
expiry_batch_limit = 200

abbrev pub is_pending : Status → Bool
is_pending pending = true
is_pending _ = false

-- a row by the conditions of the UPDATE
abbrev pub expire_row : Option Recommendation → Option Recommendation
expire_row none = none
expire_row (some r) = if is_pending r.status then some (record r { status = expired }) else some r

module _ (R : Redis) (show_uuid : ℕ → String) (stores_of : R.Store → List ℕ) where
  open R use {get, setex, del, zset, zrem}

  abbrev pub expire_rows : String → World R → World R
  expire_rows rec_id w = record w {
    recommendations = λ j.
        if str_eq (show_uuid j) rec_id
        then expire_row (w.recommendations j)
        else w.recommendations j;
  }

  unfoldable pub expire_one : ℕ → String → M R Unit
  expire_one store_id rec_id =
      try_catch
        (do
          db_call (λ w. (tt, expire_rows rec_id w))
          redis_call {R = R} (λ _ s. (tt, zrem (pending_store store_id) rec_id s)))
        (pure tt)

  unfoldable pub expire_all : ℕ → List String → M R Unit
  expire_all store_id [] = pure tt
  expire_all store_id (rec_id ∷ rec_ids) = expire_one store_id rec_id >> expire_all store_id rec_ids

  -- ZRANGEBYSCORE with a limit
  unfoldable pub due_in : ℕ → ℕ → M R (List String)
  due_in now store_id =
      redis_call {R = R}
        (λ _ s. (range_by_score 0 now expiry_batch_limit (zset (pending_store store_id) s), s))

  unfoldable pub expire_stores : ℕ → List ℕ → M R Unit
  expire_stores now [] = pure tt
  expire_stores now (store_id ∷ store_ids) = do
    due ← due_in now store_id
    expire_all store_id due
    expire_stores now store_ids

  -- SET with NX and EX
  unfoldable pub acquire_expiry_lock : M R Bool
  acquire_expiry_lock =
      try_catch
        (redis_call {R = R} (λ now s.
          if is_some (get now expiry_scan_lock s)
          then (false, s)
          else (true, setex now expiry_scan_lock 90 flag s)))
        (pure false)

  unfoldable pub scan_expired : M R Unit
  scan_expired = do
    now ← gets (λ (w : World R). w.now)
    store_ids ← redis_call {R = R} (λ _ s. (stores_of s, s))
    expire_stores now store_ids

  -- the scan under the lock, and its release whatever the scan did
  abbrev pub scan_locked : Bool → M R Unit
  scan_locked false = pure tt
  scan_locked true = do
    try_catch scan_expired (pure tt)
    try_catch (redis_call {R = R} (λ _ s. (tt, del expiry_scan_lock s))) (pure tt)

  unfoldable pub expire_recommendations : M R Unit
  expire_recommendations = acquire_expiry_lock >>= scan_locked
