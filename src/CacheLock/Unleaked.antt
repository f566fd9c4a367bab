-- ===== src/CacheLock/Unleaked.antt =====
-- A lock of CacheOperationLockManager.ts is held by an operation.
use Prim.Native.String.{String}
use wince_backend.Prelude.{
  ℕ, ◌+◌, ◌≤◌, ◌≡◌, refl, arith, inl, inr, Bool, true, false, Option, none, some, is_some, List, [],
  ◌∷◌, ltb, Bool-cases, if◌then◌else◌,
}
use wince_backend.StringMap.{find, find-insert, find-erase}
use wince_backend.CacheLock.{
  LockInfo, Manager, lock_key, timed_out, retries, try_lock, try_lock_on, free_lock,
  force_release_lock, clean_entry, clean_entries, cleanup_expired_locks, destroy,
}
use wince_backend.CacheLock.Runs.{
  Running, State, Event, attempts, settles, cleans, forces, destroys, count, find_running,
  after_turn, settle, step, run, starting, count-drop,
}

-- Each lock that the manager has is that of an operation that runs.
abbrev Unleaked : State → Type 0
Unleaked s = (k : String) → is_some (find k s.manager.locks) ≡ true → 1 ≤ count k s.running

-- a manager with no lock that `m` has not
abbrev Fewer : Manager → Manager → Type 0
Fewer m m' = (k : String) → is_some (find k m'.locks) ≡ true → is_some (find k m.locks) ≡ true

free_lock-Fewer : (k : String) (m : Manager) → Fewer m (free_lock k m)
free_lock-Fewer k m j h = ground (arith, find-erase j k m.locks)

clean_entry-Fewer :
    (now : ℕ) (k : String) (o : Option LockInfo) (m : Manager) → Fewer m (clean_entry now k o m)
clean_entry-Fewer now k none m j h = h
clean_entry-Fewer now k (some i) m j h = elim (Bool-cases (ltb i.expires_at now)) [
  | inl q ↦ free_lock-Fewer k m j (ground (arith, h))
  | inr q ↦ ground (arith, h)
]

clean_entries-Fewer :
    (now : ℕ) (es : List (String × LockInfo)) (m : Manager) → Fewer m (clean_entries now es m)
unfolding clean_entries
clean_entries-Fewer now [] m j h = h
clean_entries-Fewer now ((k, i) ∷ es) m j h =
    clean_entry-Fewer now k (find k m.lock_info) m j
      (clean_entries-Fewer now es (clean_entry now k (find k m.lock_info) m) j h)

force_release_lock-Fewer :
    (key operation_type : String) (m : Manager)
    → Fewer m (force_release_lock key operation_type m).1
unfolding force_release_lock
force_release_lock-Fewer key operation_type m j h =
    ground (arith, find-erase j (lock_key operation_type key) m.locks)

-- a call that throws or goes on waiting
waits-Unleaked :
    (late : Bool) (k : String) (expires_at : ℕ) (s : State)
    → Unleaked s
    → Unleaked
        (after_turn k expires_at (if late then (timed_out, s.manager) else (retries, s.manager)) s)
waits-Unleaked true k expires_at s u = u
waits-Unleaked false k expires_at s u = u

try_lock_on-Unleaked :
    (o : Option ℕ) (operation_type key : String) (timeout started now : ℕ) (s : State)
    → Unleaked s
    → Unleaked (
        after_turn
          (lock_key operation_type key)
          (now + timeout)
          (try_lock_on o s.next operation_type key timeout started now s.manager)
          s)
unfolding count
try_lock_on-Unleaked none operation_type key timeout started now s u j h =
    ground (arith, u j, find-insert j (lock_key operation_type key) s.next s.manager.locks)
try_lock_on-Unleaked (some holder) operation_type key timeout started now s u j h =
    waits-Unleaked (ltb (started + timeout) now) (lock_key operation_type key) (now + timeout) s u j
      h

settle-Unleaked :
    (operation : ℕ) (o : Option Running) (s : State)
    → find_running operation s.running ≡ o
    → Unleaked s
    → Unleaked (settle o operation s)
settle-Unleaked operation none s e u k h = u k h
settle-Unleaked operation (some r) s e u k h =
    ground (arith, u k, find-erase k r.lock s.manager.locks, count-drop k operation r s.running e)

step-Unleaked : (now : ℕ) (e : Event) (s : State) → Unleaked s → Unleaked (step now e s)
unfolding step try_lock cleanup_expired_locks destroy find
step-Unleaked now (attempts operation_type key timeout started) s u =
    try_lock_on-Unleaked (find (lock_key operation_type key) s.manager.locks) operation_type key
      timeout started now s u
step-Unleaked now (settles operation) s u =
    settle-Unleaked operation (find_running operation s.running) s refl u
step-Unleaked now cleans s u =
    λ k h. u k (clean_entries-Fewer now s.manager.lock_info s.manager k h)
step-Unleaked now (forces key operation_type) s u =
    λ k h. u k (force_release_lock-Fewer key operation_type s.manager k h)
step-Unleaked now destroys s u = λ k h. ground (arith, h)

run_from-Unleaked : (es : List (ℕ × Event)) (s : State) → Unleaked s → Unleaked (run es s)
unfolding run
run_from-Unleaked [] s u = u
run_from-Unleaked ((now, e) ∷ es) s u =
    run_from-Unleaked es (step now e s) (step-Unleaked now e s u)

starting-Unleaked : Unleaked starting
unfolding find
starting-Unleaked k h = ground (arith, h)

-- In any run, whatever is cleaned, forced or destroyed, a lock that the manager has is that of an
-- operation that runs.
pub run-Unleaked :
    (es : List (ℕ × Event)) (k : String)
    → is_some (find k (run es starting).manager.locks) ≡ true
    → 1 ≤ count k (run es starting).running
run-Unleaked es k h = run_from-Unleaked es starting starting-Unleaked k h
