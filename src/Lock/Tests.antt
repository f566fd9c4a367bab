-- ===== src/Lock/Tests.antt =====
-- A worker that takes a user's lock, and another that fails to.
use wince_backend.Prelude.{ℕ, pos, ◌+◌, ◌≡◌, ◌<◌, refl, arith}
use wince_backend.Redis.Memory.{memory, empty}
use wince_backend.Lock.{acquire_script}
use wince_backend.Lock.Fencing.{
  Cluster, Reach, here, next, acquire_step, tick, acquire, mutual_exclusion,
}

abbrev start : Cluster memory
start = record { now = 5; store = empty; deadline = λ _ _. 0 }

abbrev taken : Cluster memory
taken = acquire start (pos 42) 7

-- the attempt of another worker, a second later
abbrev later : Cluster memory
later = record taken { now = taken.now + 1000 }

abbrev contended : Cluster memory
contended = acquire later (pos 42) 9

run : Reach start contended
run =
    next (next (next here (acquire_step start (pos 42) 7)) (tick taken 1000))
      (acquire_step later (pos 42) 9)

abbrev holder : ℕ
holder = 7

runs_on : contended.now < contended.deadline (pos 42) 7
unfolding acquire acquire_script
runs_on = omega arith

mutual_exclusion_example : holder ≡ holder
mutual_exclusion_example =
    mutual_exclusion start contended (λ _ _. refl) run (pos 42) holder holder runs_on runs_on
