-- ===== src/ConnectionPool/Runs.antt =====
-- Clients of ConnectionPoolManager.ts and the parts of its handlers, in any order.
use wince_backend.Prelude.{
  suc, any, ℕ, ◌+◌, ◌-◌, Bool, true, false, ◌&&◌, List, [], ◌∷◌, ltb, ◌==◌, if◌then◌else◌,
}
use wince_backend.ConnectionPool.{
  Config, Pool, Acquired, rejected, creating, waiting, granted, Released, handed_to, kept, closed,
  acquire_connection, finish_create, acquire_timeout, last_used_of, release_connection, ping_failed,
  connections_to_create, replace, begin_shutdown, end_shutdown, drop_unhealthy, count_off, has_id,
  create_connection,
}

-- A client, by the ticket of its call, has a connection.
pub record Holding : Type 0 where
  pub client : ℕ
  pub connection : ℕ

-- The pool with what the clients hold and the connections that are being made; `peak` is the most
-- that were being made at one time.
pub record State : Type 0 where
  pub pool : Pool
  pub held : List Holding
  pub creating : ℕ
  pub peak : ℕ
  pub dropping : ℕ

-- The parts of the handlers. A check of health may drop or fail any connection at any time here,
-- more than the code does.
pub data Event : Type 0 where
  acquires : ℕ → Event
  created : (ticket started : ℕ) → (ℕ → Bool) → Event
  timed_out : ℕ → Event
  releases : (client connection : ℕ) → Event
  ping_fails : Bool → ℕ → Event
  drops : ℕ → Event
  counts_off : Event
  start_replacing : ℕ → Event
  replaced : (ℕ → Bool) → Event
  begins_shutdown ends_shutdown : Event

abbrev pub max_of : ℕ → ℕ → ℕ
max_of a b = if ltb a b then b else a

abbrev pub is_holding : ℕ → ℕ → Holding → Bool
is_holding client k h = client == h.client && k == h.connection

unfoldable pub holds : ℕ → ℕ → List Holding → Bool
holds client k [] = false
holds client k (h ∷ hs) = if is_holding client k h then true else holds client k hs

unfoldable pub drop_holding : ℕ → ℕ → List Holding → List Holding
drop_holding client k [] = []
drop_holding client k (h ∷ hs) =
    let rest = drop_holding client k hs in if is_holding client k h then hs else h ∷ rest

abbrev hold : ℕ → ℕ → List Holding → List Holding
hold client k held = record { client = client; connection = k } ∷ held

abbrev pub start_creating : ℕ → State → State
start_creating n s = record s { creating = s.creating + n; peak = max_of s.peak (s.creating + n) }

-- what the client gets
abbrev pub after_acquire : ℕ → Acquired × Pool → State → State
after_acquire client (rejected, p) s = record s { pool = p }
after_acquire client (waiting, p) s = record s { pool = p }
after_acquire client (granted k, p) s = record s { pool = p; held = hold client k s.held }
after_acquire client (creating, p) s = start_creating 1 (record s { pool = p })

abbrev pub after_release : ℕ → Released × Pool → State → State
after_release k (handed_to client, p) s = record s { pool = p; held = hold client k s.held }
after_release k (kept, p) s = record s { pool = p }
after_release k (closed, p) s = record s { pool = p }

module _ (cfg : Config) where
  -- The event at the time `now`. One that cannot be, such as the release of a connection that is not
  -- held, changes nothing.
  unfoldable pub step : ℕ → Event → State → State
  step now (acquires client) s = after_acquire client (acquire_connection cfg client now s.pool) s
  step now (created client started pings) s =
      if ltb 0 s.creating
      then after_acquire client
          (finish_create cfg (create_connection pings cfg.retry_attempts 0) client started now
            s.pool)
          (record s { creating = s.creating - 1 })
      else s
  step now (timed_out client) s = record s { pool = acquire_timeout cfg client s.pool }
  step now (releases client k) s =
      if holds client k s.held
      then after_release k (release_connection cfg k (last_used_of cfg k s.pool.pool) now s.pool)
          (record s { held = drop_holding client k s.held })
      else s
  step now (ping_fails threw k) s = record s { pool = ping_failed cfg threw k s.pool }
  step now (drops k) s =
      if any (has_id k) s.pool.pool
      then record s { pool = drop_unhealthy cfg k s.pool; dropping = suc s.dropping }
      else s
  step now counts_off s =
      if ltb 0 s.dropping
      then record s { pool = count_off cfg s.pool; dropping = s.dropping - 1 }
      else s
  step now (start_replacing unhealthy) s =
      start_creating (connections_to_create cfg unhealthy s.pool) s
  step now (replaced pings) s =
      if ltb 0 s.creating
      then record s {
        pool = replace cfg (create_connection pings cfg.retry_attempts 0) now s.pool;
        creating = s.creating - 1;
      }
      else s
  step now begins_shutdown s = record s { pool = (begin_shutdown cfg s.pool).1 }
  step now ends_shutdown s = record s { pool = end_shutdown cfg s.pool }

  unfoldable pub run : List (ℕ × Event) → State → State
  run [] s = s
  run ((now, e) ∷ es) s = run es (step now e s)

abbrev pub starting : Pool → State
starting p = record { pool = p; held = []; creating = 0; peak = 0; dropping = 0 }

abbrev pub is_shutdown : ℕ × Event → Bool
is_shutdown (now, begins_shutdown) = true
is_shutdown (now, ends_shutdown) = true
is_shutdown _ = false
