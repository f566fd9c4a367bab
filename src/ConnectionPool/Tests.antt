-- ===== src/ConnectionPool/Tests.antt =====
-- A pool of at most one connection, two clients, and two that come at once.
use wince_backend.Prelude.{
  ℕ, ◌+◌, ◌≤◌, ◌≡◌, ◌⊎◌, refl, arith, Bool, true, false, List, [], ◌∷◌, length,
}
use wince_backend.ConnectionPool.{
  Config, create_initial, initialize, create_connection, acquire_connection, take_available,
  find_available, finish_create, release_connection, release_to, change,
}
use wince_backend.ConnectionPool.Lists.{has_idle}
use wince_backend.ConnectionPool.Runs.{
  Event, acquires, created, releases, max_of, run, step, holds, drop_holding, starting,
}
use wince_backend.ConnectionPool.Holders.{holders}
use wince_backend.ConnectionPool.Exclusive.{run-exclusive}
use wince_backend.ConnectionPool.Bounds.{run-bounds}

abbrev config : Config
config = record {
  min_connections = 1;
  max_connections = 1;
  idle_timeout = 300000;
  retry_attempts = 3;
}

abbrev up : ℕ → ℕ → Bool
up _ _ = true

abbrev down : ℕ → ℕ → Bool
down _ _ = false

-- The second client waits until the first gives the connection back.
abbrev handed_over : List (ℕ × Event)
handed_over = (10, acquires 1) ∷ (20, acquires 2) ∷ (30, releases 1 0) ∷ []

run-exclusive_example :
    let s = run config handed_over (starting (initialize config up 0)) in
    (holders 0 s.held ≤ 1) × ((has_idle 0 s.pool.pool ≡ false) ⊎ (holders 0 s.held ≡ 0))
run-exclusive_example = run-exclusive config up 0 handed_over 0

second_holds : holds 2 0 (run config handed_over (starting (initialize config up 0))).held ≡ true
unfolding run step initialize create_initial create_connection acquire_connection take_available
    find_available release_connection release_to change drop_holding holds
second_holds = refl

run-bounds_example :
    let s = run config handed_over (starting (initialize config up 0)) in
    (s.pool.active_connections ≡ length s.pool.pool + s.dropping)
    × (length s.pool.pool + 1 ≤ config.max_connections + max_of 1 s.peak)
run-bounds_example = run-bounds config up 0 handed_over (omega arith) refl

-- Two clients that find the pool empty make two connections, one past the maximum.
abbrev at_once : List (ℕ × Event)
at_once =
    (10, acquires 1) ∷ (10, acquires 2) ∷ (20, created 1 10 (up 0)) ∷ (20, created 2 10 (up 0)) ∷ []

past_maximum : length (run config at_once (starting (initialize config down 0))).pool.pool ≡ 2
unfolding run step initialize create_initial create_connection acquire_connection take_available
    find_available finish_create
past_maximum = refl
