-- ===== src/ConnectionPool.antt =====
-- packages/clickhouse_client/src/lib/ConnectionPoolManager.ts: the pool of connections. A handler is
-- cut at its awaits into parts that run whole; ConnectionPool.Runs lets any parts follow one another.
-- Pings are a parameter, and a disconnect is what takes a connection out of the pool.
pub mod Runs
pub mod Lists
pub mod Holders
pub mod Exclusive
pub mod Growth
pub mod Bounds
mod Tests
use wince_backend.Prelude.{
  ℕ, zero, suc, ◌+◌, ◌-◌, ◌*◌, ◌/◌, Bool, true, false, not, ◌&&◌, ◌||◌, Option, none, some, List,
  [], ◌∷◌, ◌++◌, map, filter, any, length, ltb, ◌==◌, if◌then◌else◌,
}

pub record Config : Type 0 where
  pub min_connections : ℕ
  pub max_connections : ℕ
  pub idle_timeout : ℕ
  pub retry_attempts : ℕ

-- `id` stands for the identity of the object.
pub record Connection : Type 0 where
  pub id : ℕ
  pub last_used : ℕ
  pub connection_healthy : Bool
  pub checked_out : Bool

-- `ticket` stands for the callbacks and the timer of one call of acquireConnection.
pub record PendingAcquire : Type 0 where
  pub ticket : ℕ
  pub started_at : ℕ

pub record Pool : Type 0 where
  pub pool : List Connection
  pub active_connections : ℕ
  pub pending_acquires : List PendingAcquire
  pub is_shutting_down : Bool
  pub connection_errors : ℕ
  pub health_check_failures : ℕ
  pub total_wait_time : ℕ
  pub total_waits : ℕ
  -- the identity of the next connection that is made
  pub next_id : ℕ

-- What a part of acquireConnection ends with: an error, a connection, a connection that is being
-- made, or a place in the queue.
pub data Acquired : Type 0 where
  rejected creating waiting : Acquired
  granted : ℕ → Acquired

-- What a release does: it hands the connection to the oldest waiter, keeps it, or closes it.
pub data Released : Type 0 where
  handed_to : ℕ → Released
  kept closed : Released

pub record PoolStats : Type 0 where
  pub total_connections : ℕ
  pub active_connections : ℕ
  pub idle_connections : ℕ
  pub pending_acquires : ℕ
  -- in whole percent
  pub pool_utilization : ℕ
  pub connection_errors : ℕ
  pub health_check_failures : ℕ

abbrev pub is_available : Connection → Bool
is_available c = c.connection_healthy && not c.checked_out

abbrev pub has_id : ℕ → Connection → Bool
has_id k c = k == c.id

-- `this.pool.find(…)`
unfoldable pub find_available : List Connection → Option ℕ
find_available [] = none
find_available (c ∷ cs) = if is_available c then some c.id else find_available cs

-- a write to one object, wherever it is
unfoldable pub change : ℕ → (Connection → Connection) → List Connection → List Connection
change k f [] = []
change k f (c ∷ cs) = (if has_id k c then f c else c) ∷ change k f cs

abbrev pub check_out : ℕ → Connection → Connection
check_out now c = record c { checked_out = true; last_used = now }

abbrev pub mark_available : Connection → Connection
mark_available c = record c { checked_out = false }

abbrev pub mark_unhealthy : Connection → Connection
mark_unhealthy c = record c { connection_healthy = false }

-- `splice` at `indexOf`
unfoldable pub remove_first : ℕ → List Connection → List Connection
remove_first k [] = []
remove_first k (c ∷ cs) = let rest = remove_first k cs in if has_id k c then cs else c ∷ rest

unfoldable pub remove_connection_from_pool : ℕ → Pool → Pool
remove_connection_from_pool k s =
    if any (has_id k) s.pool
    then record s { pool = remove_first k s.pool; active_connections = s.active_connections - 1 }
    else s

-- the pings of `createConnection`, of which the n-th answers or not
unfoldable pub create_connection : (ℕ → Bool) → (attempts n : ℕ) → Bool
create_connection pings zero n = pings n
create_connection pings (suc attempts) n =
    let again = create_connection pings attempts (suc n) in if pings n then true else again

abbrev pub record_wait_time : ℕ → Pool → Pool
record_wait_time waited s = record s {
  total_wait_time = s.total_wait_time + waited;
  total_waits = suc s.total_waits;
}

abbrev pub new_connection : ℕ → Bool → ℕ → Connection
new_connection k out now = record {
  id = k;
  last_used = now;
  connection_healthy = true;
  checked_out = out;
}

abbrev pub push_connection : Connection → Pool → Pool
push_connection c s = record s {
  pool = s.pool ++ c ∷ [];
  active_connections = suc s.active_connections;
  next_id = suc s.next_id;
}

abbrev pub enqueue : ℕ → ℕ → Pool → Pool
enqueue ticket started s = record s {
  pending_acquires = s.pending_acquires ++ record { ticket = ticket; started_at = started } ∷ [];
}

module _ (cfg : Config) where
  -- an idle connection, or else a new one, or else a place in the queue
  unfoldable pub take_available : Option ℕ → (ticket now : ℕ) → Pool → Acquired × Pool
  take_available (some k) ticket now s =
      (granted k, record_wait_time 0 (record s { pool = change k (check_out now) s.pool }))
  take_available none ticket now s =
      if ltb s.active_connections cfg.max_connections
      then (creating, s)
      else (waiting, enqueue ticket now s)

  -- `acquireConnection` up to its first await
  unfoldable pub acquire_connection : (ticket now : ℕ) → Pool → Acquired × Pool
  acquire_connection ticket now s =
      if s.is_shutting_down
      then (rejected, s)
      else take_available (find_available s.pool) ticket now s

  -- `acquireConnection` after `createConnection`, which made a connection or threw
  unfoldable pub finish_create : Bool → (ticket started now : ℕ) → Pool → Acquired × Pool
  finish_create true ticket started now s = (
    granted s.next_id,
    record_wait_time (now - started) (push_connection (new_connection s.next_id true now) s),
  )
  finish_create false ticket started now s =
      (waiting, enqueue ticket started (record s { connection_errors = suc s.connection_errors }))

  -- the timer of a waiting call
  unfoldable pub remove_pending : ℕ → List PendingAcquire → List PendingAcquire
  remove_pending ticket [] = []
  remove_pending ticket (p ∷ ps) =
      let rest = remove_pending ticket ps in if ticket == p.ticket then ps else p ∷ rest

  abbrev pub acquire_timeout : ℕ → Pool → Pool
  acquire_timeout ticket s = record s {
    pending_acquires = remove_pending ticket s.pending_acquires;
  }

  abbrev pub last_used_of : ℕ → List Connection → ℕ
  last_used_of k [] = 0
  last_used_of k (c ∷ cs) = if has_id k c then c.last_used else last_used_of k cs

  -- `releaseConnection` without a waiter
  unfoldable pub give_back : (k last_used now : ℕ) → Pool → Released × Pool
  give_back k last_used now s =
      let s' : Pool = record s { pool = change k mark_available s.pool } in
      if ltb (length s.pool) cfg.min_connections || ltb now (last_used + cfg.idle_timeout)
      then (kept, s')
      else (closed, remove_connection_from_pool k s')

  -- `releaseConnection` of a connection, which was last used at `last_used`
  unfoldable pub release_to : List PendingAcquire → (k last_used now : ℕ) → Pool → Released × Pool
  release_to (p ∷ ps) k last_used now s = (
    handed_to p.ticket,
    record_wait_time (now - p.started_at)
        (record s { pool = change k (check_out now) s.pool; pending_acquires = ps }),
  )
  release_to [] k last_used now s = give_back k last_used now s

  unfoldable pub release_connection : (k last_used now : ℕ) → Pool → Released × Pool
  release_connection k last_used now s =
      if s.is_shutting_down
      then (closed, remove_connection_from_pool k s)
      else release_to s.pending_acquires k last_used now s

  -- `performHealthChecks`: a ping that answered no, or threw
  unfoldable pub ping_failed : Bool → ℕ → Pool → Pool
  ping_failed threw k s = record s {
    pool = change k mark_unhealthy s.pool;
    health_check_failures = s.health_check_failures + (if threw then 1 else 0);
  }

  -- it takes the connection out before its disconnect, and counts it off after that
  unfoldable pub drop_unhealthy : ℕ → Pool → Pool
  drop_unhealthy k s = record s { pool = remove_first k s.pool }

  unfoldable pub count_off : Pool → Pool
  count_off s = record s { active_connections = s.active_connections - 1 }

  -- how many connections it makes up for
  abbrev pub connections_to_create : ℕ → Pool → ℕ
  connections_to_create unhealthy s =
      let room = cfg.max_connections - s.active_connections in
      if ltb unhealthy room then unhealthy else room

  -- one of them, which counts an error twice
  unfoldable pub replace : Bool → ℕ → Pool → Pool
  replace true now s = push_connection (new_connection s.next_id false now) s
  replace false now s = record s { connection_errors = s.connection_errors + 2 }

  -- the loop of `initialize`; the pings of its n-th connection are a parameter
  unfoldable pub create_initial : (ℕ → ℕ → Bool) → (n now : ℕ) → Pool → Pool
  create_initial pings zero now s = s
  create_initial pings (suc n) now s = create_initial pings n now (
      if create_connection (pings n) cfg.retry_attempts 0
      then push_connection (new_connection s.next_id false now) s
      else record s { connection_errors = suc s.connection_errors })

  abbrev pub empty_pool : Pool
  empty_pool = record {
    pool = [];
    active_connections = 0;
    pending_acquires = [];
    is_shutting_down = false;
    connection_errors = 0;
    health_check_failures = 0;
    total_wait_time = 0;
    total_waits = 0;
    next_id = 0;
  }

  unfoldable pub initialize : (ℕ → ℕ → Bool) → ℕ → Pool
  initialize pings now = create_initial pings cfg.min_connections now empty_pool

  -- `shutdown` up to its await: the tickets that are rejected, and the pool
  unfoldable pub begin_shutdown : Pool → List ℕ × Pool
  begin_shutdown s = (
    map (λ p. p.ticket) s.pending_acquires,
    record s { pending_acquires = []; is_shutting_down = true },
  )

  -- and after it, with every connection disconnected
  unfoldable pub end_shutdown : Pool → Pool
  end_shutdown s = record s { pool = []; active_connections = 0 }

  unfoldable pub get_pool_stats : Pool → PoolStats
  get_pool_stats s =
      let out = length (filter (λ c. c.checked_out) s.pool) in
      record {
        total_connections = length s.pool;
        active_connections = out;
        idle_connections = length s.pool - out;
        pending_acquires = length s.pending_acquires;
        pool_utilization = if ltb 0 (length s.pool) then out * 100 / length s.pool else 0;
        connection_errors = s.connection_errors;
        health_check_failures = s.health_check_failures;
      }
