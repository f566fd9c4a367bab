-- ===== src/CacheLock/Tests.antt =====
-- Two calls for a key, and one that takes longer than its lock.
use wince_backend.Prelude.{ℕ, ◌≤◌, ◌≡◌, refl, true, List, [], ◌∷◌, is_some, length}
use wince_backend.StringMap.{find, insert, erase}
use wince_backend.CacheLock.{try_lock, cleanup_expired_locks, clean_entries, force_release_lock}
use wince_backend.CacheLock.Runs.{
  Event, attempts, settles, cleans, forces, count, find_running, drop_running, step, run, starting,
}
use wince_backend.CacheLock.Unleaked.{run-Unleaked}
use wince_backend.CacheLock.Single.{all_orderly, timely, count-run}

-- The second call waits and takes the lock once the first's operation settles.
abbrev one_after_other : List (ℕ × Event)
one_after_other =
    (0, attempts "get" "k" 100 0)
    ∷ (10, attempts "get" "k" 100 10)
    ∷ (20, cleans)
    ∷ (30, settles 0)
    ∷ (40, attempts "get" "k" 100 10)
    ∷ []

orderly : all_orderly one_after_other starting ≡ true
unfolding all_orderly timely step try_lock find insert erase find_running drop_running
    cleanup_expired_locks clean_entries
orderly = refl

count-run_example : count "get:k" (run one_after_other starting).running ≤ 1
count-run_example = count-run one_after_other "get:k" orderly

second_holds : is_some (find "get:k" (run one_after_other starting).manager.locks) ≡ true
unfolding run step try_lock find insert erase find_running drop_running cleanup_expired_locks
    clean_entries
second_holds = refl

run-Unleaked_example : 1 ≤ count "get:k" (run one_after_other starting).running
run-Unleaked_example = run-Unleaked one_after_other "get:k" second_holds

-- The first operation outlives its lock. A cleanup removes it, a second operation starts, the first's
-- end removes the second's lock, and a third starts.
abbrev outlived : List (ℕ × Event)
outlived =
    (0, attempts "get" "k" 100 0)
    ∷ (200, cleans)
    ∷ (210, attempts "get" "k" 100 210)
    ∷ (220, settles 0)
    ∷ (230, attempts "get" "k" 100 230)
    ∷ []

two_at_once : count "get:k" (run outlived starting).running ≡ 2
unfolding run step try_lock find insert erase find_running drop_running cleanup_expired_locks
    clean_entries count
two_at_once = refl

-- A lock that was forced stays in the list of the active ones.
still_listed :
    length
      (run ((0, attempts "get" "k" 100 0) ∷ (10, forces "k" "get") ∷ []) starting).manager.lock_info
    ≡ 1
unfolding run step try_lock find insert erase force_release_lock
still_listed = refl
