-- ===== src/CacheLock.antt =====
-- packages/cache/src/utils/CacheOperationLockManager.ts: locks on the operations of a cache, in one
-- process. A wait, an operation and the timer of the cleanup come between the handlers' parts; an
-- operation takes no lock before its first await. Logs and statistics are left out.
pub mod Runs
pub mod Unleaked
pub mod Single
mod Tests
use Prim.Native.String.{String, ◌++◌}
use wince_backend.Prelude.{
  ℕ, ◌+◌, Bool, true, false, Option, none, some, is_some, List, [], ◌∷◌, ltb, if◌then◌else◌,
}
use wince_backend.StringMap.{find, insert, erase}

pub record LockInfo : Type 0 where
  pub key : String
  pub acquired_at : ℕ
  pub expires_at : ℕ
  pub operation_type : String

-- `locks` has the promises of the operations, here their numbers.
pub record Manager : Type 0 where
  pub locks : List (String × ℕ)
  pub lock_info : List (String × LockInfo)

abbrev pub lock_key : String → String → String
lock_key operation_type key = operation_type ++ ":" ++ key

pub data LockAttempt : Type 0 where
  timed_out retries acquired : LockAttempt

abbrev pub store_lock : ℕ → String → String → ℕ → ℕ → Manager → Manager
store_lock operation operation_type key timeout now m = record {
  locks = insert (lock_key operation_type key) operation m.locks;
  lock_info =
      insert (lock_key operation_type key)
        (record {
          key = key;
          acquired_at = now;
          expires_at = now + timeout;
          operation_type = operation_type;
        })
        m.lock_info;
}

abbrev pub try_lock_on :
    Option ℕ → ℕ → String → String → ℕ → ℕ → ℕ → Manager → LockAttempt × Manager
try_lock_on (some holder) operation operation_type key timeout started now m =
    if ltb (started + timeout) now then (timed_out, m) else (retries, m)
try_lock_on none operation operation_type key timeout started now m =
    (acquired, store_lock operation operation_type key timeout now m)

-- One turn of the loop of `acquireLock`, for a call that started at `started`. A turn that finds no
-- lock starts the operation and stores it.
unfoldable pub try_lock : ℕ → String → String → ℕ → ℕ → ℕ → Manager → LockAttempt × Manager
try_lock operation operation_type key timeout started now m =
    try_lock_on (find (lock_key operation_type key) m.locks) operation operation_type key timeout
      started now m

-- the `finally` of `acquireLock`
abbrev pub free_lock : String → Manager → Manager
free_lock k m = record { locks = erase k m.locks; lock_info = erase k m.lock_info }

unfoldable pub has_lock : String → String → Manager → Bool
has_lock key operation_type m = is_some (find (lock_key operation_type key) m.locks)

-- `||` leaves the second map as it is when the first had the key
unfoldable pub force_release_lock : String → String → Manager → Bool × Manager
force_release_lock key operation_type m =
    if is_some (find (lock_key operation_type key) m.locks)
    then (true, record m { locks = erase (lock_key operation_type key) m.locks })
    else (
      is_some (find (lock_key operation_type key) m.lock_info),
      record m { lock_info = erase (lock_key operation_type key) m.lock_info },
    )

abbrev pub clean_entry : ℕ → String → Option LockInfo → Manager → Manager
clean_entry now k none m = m
clean_entry now k (some i) m = if ltb i.expires_at now then free_lock k m else m

-- the loop over the entries, each as it is when the loop comes to it
unfoldable pub clean_entries : ℕ → List (String × LockInfo) → Manager → Manager
clean_entries now [] m = m
clean_entries now ((k, i) ∷ es) m = clean_entries now es (clean_entry now k (find k m.lock_info) m)

unfoldable pub cleanup_expired_locks : ℕ → Manager → Manager
cleanup_expired_locks now m = clean_entries now m.lock_info m

unfoldable pub destroy : Manager → Manager
destroy m = record { locks = []; lock_info = [] }
