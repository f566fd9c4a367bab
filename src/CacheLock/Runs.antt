-- ===== src/CacheLock/Runs.antt =====
-- Calls of CacheOperationLockManager.ts, their operations and its cleanups, in any order.
use Prim.Native.String.{String}
use text.Mathlib.Text.{◌==◌ as str_eq}
use wince_backend.Prelude.{
  ℕ, suc, ◌+◌, ◌≡◌, arith, Option, none, some, List, [], ◌∷◌, ◌==◌, if◌then◌else◌,
}
use wince_backend.CacheLock.{
  Manager, lock_key, LockAttempt, timed_out, retries, acquired, try_lock, free_lock,
  force_release_lock, cleanup_expired_locks, destroy,
}

-- An operation that has started and has not settled, with its lock and when that expires.
pub record Running : Type 0 where
  pub operation : ℕ
  pub lock : String
  pub expires_at : ℕ

pub record State : Type 0 where
  pub manager : Manager
  pub running : List Running
  pub next : ℕ

pub data Event : Type 0 where
  attempts : (operation_type key : String) (timeout started : ℕ) → Event
  settles : ℕ → Event
  cleans : Event
  forces : (key operation_type : String) → Event
  destroys : Event

-- how many operations run under a lock
unfoldable pub count : String → List Running → ℕ
count k [] = 0
count k (r ∷ l) = let rest = count k l in if str_eq k r.lock then suc rest else rest

unfoldable pub find_running : ℕ → List Running → Option Running
find_running operation [] = none
find_running operation (r ∷ l) =
    if operation == r.operation then some r else find_running operation l

unfoldable pub drop_running : ℕ → List Running → List Running
drop_running operation [] = []
drop_running operation (r ∷ l) =
    let rest = drop_running operation l in if operation == r.operation then l else r ∷ rest

abbrev pub after_turn : String → ℕ → LockAttempt × Manager → State → State
after_turn k expires_at (timed_out, m) s = record s { manager = m }
after_turn k expires_at (retries, m) s = record s { manager = m }
after_turn k expires_at (acquired, m) s = record {
  manager = m;
  running = record { operation = s.next; lock = k; expires_at = expires_at } ∷ s.running;
  next = suc s.next;
}

abbrev pub settle : Option Running → ℕ → State → State
settle none operation s = s
settle (some r) operation s = record s {
  manager = free_lock r.lock s.manager;
  running = drop_running operation s.running;
}

unfoldable pub step : ℕ → Event → State → State
step now (attempts operation_type key timeout started) s =
    after_turn (lock_key operation_type key) (now + timeout)
      (try_lock s.next operation_type key timeout started now s.manager) s
step now (settles operation) s = settle (find_running operation s.running) operation s
step now cleans s = record s { manager = cleanup_expired_locks now s.manager }
step now (forces key operation_type) s = record s {
  manager = (force_release_lock key operation_type s.manager).1;
}
step now destroys s = record s { manager = destroy s.manager }

unfoldable pub run : List (ℕ × Event) → State → State
run [] s = s
run ((now, e) ∷ es) s = run es (step now e s)

abbrev pub starting : State
starting = record { manager = record { locks = []; lock_info = [] }; running = []; next = 0 }

pub count-drop :
    (k : String) (operation : ℕ) (r : Running) (l : List Running)
    → find_running operation l ≡ some r
    → count k (drop_running operation l) + (if str_eq k r.lock then 1 else 0) ≡ count k l
unfolding count drop_running find_running
count-drop k operation r [] e = ground arith
count-drop k operation r (x ∷ l) e = ground (arith, count-drop k operation r l)
