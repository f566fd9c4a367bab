-- ===== src/Gateway/Runs.antt =====
-- The sockets, the pushes and the polls of one pod of apps/intervention-gateway, and what the other
-- pods write to the Redis they share, in any order. A poll may be on any pod.
use Prim.Native.String.{String}
use wince_backend.Prelude.{ℕ, suc, Bool, Option, none, some, List, [], ◌∷◌, ◌==◌, if◌then◌else◌}
use wince_backend.Types.{InShopPayload}
use wince_backend.Redis.{Redis, ws_active}
use wince_backend.Gateway.{
  Config, Socket, Pod, Message, ack, other, delivered_ws, Stage, awaiting_ack, asking, forwarding,
  storing, answered, handle, ack_timeout, route_remote, after_forward, take_message, announce,
  open_socket, close_socket, heartbeat, store_pending, fetch,
}

-- A push whose handler has begun, and how far it is.
pub record InFlight : Type 0 where
  pub push : ℕ
  pub session_id : String
  pub payload : InShopPayload
  pub stage : Stage

-- `acked` has the interventions of the acknowledgements that came, `forwarded` the pushes for which
-- a pod answered with success, and its address.
pub record State (R : Redis) : Type 0 where
  pub pod : Pod
  pub store : R.Store
  pub in_flight : List InFlight
  pub next : ℕ
  pub acked : List String
  pub forwarded : List (ℕ × String)

-- The parts of the handlers, each with what its environment answers: a Boolean for whether Redis
-- does, or whether a request comes back with success.
pub data Event : Type 0 where
  opens closes : Bool → Socket → Event
  receives : Bool → Socket → Message → Event
  beats : (Socket → Bool) → (String → Bool) → Event
  pushes : ℕ → String → InShopPayload → Event
  times_out : ℕ → Event
  reads forwards writes : Bool → ℕ → Event
  polls : Bool → String → Event
  -- on another pod: an open, a message or a heartbeat of a socket, a close, and the end of a push
  announces_elsewhere : Config → Bool → Socket → Event
  closes_elsewhere : Config → Bool → Socket → Event
  stores_elsewhere : Config → Bool → String → InShopPayload → Event

unfoldable pub find_push : ℕ → List InFlight → Option InFlight
find_push push [] = none
find_push push (f ∷ l) = if push == f.push then some f else find_push push l

unfoldable pub advance : ℕ → Stage → List InFlight → List InFlight
advance push g [] = []
advance push g (f ∷ l) =
    let rest = advance push g l in if push == f.push then record f { stage = g } ∷ l else f ∷ rest

abbrev pub acked_by : Message → List String → List String
acked_by (ack id) l = id ∷ l
acked_by other l = l

module _ {R : Redis} (cfg : Config) where
  abbrev pub begun : ℕ → String → InShopPayload → Stage × Pod → State R → State R
  begun push session_id p (g, pod) s = record s {
    pod = pod;
    in_flight =
        record { push = push; session_id = session_id; payload = p; stage = g } ∷ s.in_flight;
    next = suc push;
  }

  abbrev pub on_push : (Stage → InFlight → State R → State R) → Option InFlight → State R → State R
  on_push h none s = s
  on_push h (some f) s = h f.stage f s

  -- a promise that is resolved already stays as it is
  abbrev pub settle : Stage → InFlight → State R → State R
  settle awaiting_ack f s = record s {
    in_flight = advance f.push (answered delivered_ws) s.in_flight;
  }
  settle _ f s = s

  abbrev pub resolve : Option ℕ → State R → State R
  resolve none s = s
  resolve (some push) s = on_push settle (find_push push s.in_flight) s

  abbrev pub received : Bool → ℕ → Socket → Message → Option ℕ × Pod → State R → State R
  received up now ws m (push, pod) s = resolve push (record s {
    pod = pod;
    store = announce R cfg up now ws.session_id s.store;
    acked = acked_by m s.acked;
  })

  abbrev pub time_out : Stage → InFlight → State R → State R
  time_out awaiting_ack f s = record s {
    pod = (ack_timeout f.payload s.pod).1;
    in_flight = advance f.push (ack_timeout f.payload s.pod).0 s.in_flight;
  }
  time_out _ f s = s

  abbrev pub read : Bool → ℕ → Stage → InFlight → State R → State R
  read up now asking f s = record s {
    in_flight =
        advance f.push
          (route_remote cfg (if up then R.get now (ws_active f.session_id) s.store else none))
          s.in_flight;
  }
  read up now _ f s = s

  abbrev pub forward : Bool → Stage → InFlight → State R → State R
  forward ok (forwarding ip) f s = record s {
    in_flight = advance f.push (after_forward ok) s.in_flight;
    forwarded = if ok then (f.push, ip) ∷ s.forwarded else s.forwarded;
  }
  forward ok _ f s = s

  abbrev pub write : Bool → ℕ → Stage → InFlight → State R → State R
  write up now storing f s = record s {
    store = (store_pending R cfg up now f.session_id f.payload s.store).1;
    in_flight =
        advance f.push (store_pending R cfg up now f.session_id f.payload s.store).0 s.in_flight;
  }
  write up now _ f s = s

  abbrev pub with_sockets : Pod × R.Store → State R → State R
  with_sockets (pod, store) s = record s { pod = pod; store = store }

  unfoldable pub step : ℕ → Event → State R → State R
  step now (opens up ws) s = with_sockets (open_socket R cfg up now ws (s.pod, s.store)) s
  step now (closes up ws) s = with_sockets (close_socket R cfg up ws (s.pod, s.store)) s
  step now (receives up ws m) s = received up now ws m (take_message m s.pod) s
  step now (beats pings up) s = record s {
    store = heartbeat R cfg pings up now s.pod.socket_map s.store;
  }
  step now (pushes send_result session_id p) s =
      begun s.next session_id p (handle send_result s.next session_id p s.pod) s
  step now (times_out push) s = on_push time_out (find_push push s.in_flight) s
  step now (reads up push) s = on_push (read up now) (find_push push s.in_flight) s
  step now (forwards ok push) s = on_push (forward ok) (find_push push s.in_flight) s
  step now (writes up push) s = on_push (write up now) (find_push push s.in_flight) s
  step now (polls up session_id) s = record s { store = (fetch R cfg up now session_id s.store).1 }
  step now (announces_elsewhere pod up ws) s = record s {
    store = announce R pod up now ws.session_id s.store;
  }
  step now (closes_elsewhere pod up ws) s = record s {
    store = (close_socket R pod up ws (s.pod, s.store)).1;
  }
  step now (stores_elsewhere pod up session_id p) s = record s {
    store = (store_pending R pod up now session_id p s.store).1;
  }

  unfoldable pub run : List (ℕ × Event) → State R → State R
  run [] s = s
  run ((now, e) ∷ es) s = run es (step now e s)

abbrev pub starting : {R : Redis} → R.Store → State R
starting st = record {
  pod = record { socket_map = []; ack_registry = [] };
  store = st;
  in_flight = [];
  next = 0;
  acked = [];
  forwarded = [];
}
