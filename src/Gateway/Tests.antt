-- ===== src/Gateway/Tests.antt =====
-- Two pods, and a session that has a socket on the first.
use Prim.Native.String.{String}
use wince_backend.Prelude.{ℕ, ◌≡◌, refl, arith, true, false, none, some, List, [], ◌∷◌}
use wince_backend.Types.{InShopPayload, popup}
use wince_backend.Redis.{ws_active}
use wince_backend.Redis.Memory.{memory, empty}
use wince_backend.Gateway.{
  Config, Socket, ack, delivered_ws, stored_pending, storing, forwarding, answered, post_push,
  parsed, unauthorized, handle, send_with_ack, route_remote, take_message, open_socket,
  close_socket, store_pending, fetch,
}
use wince_backend.StringMap.{find, insert, erase}
use wince_backend.Gateway.Runs.{
  InFlight, State, Event, opens, closes, receives, beats, pushes, reads, writes,
  announces_elsewhere, stores_elsewhere, find_push, advance, step, run, starting,
}
use wince_backend.Gateway.Registered.{justified_by}
use wince_backend.Gateway.Answered.{run-answered}
use wince_backend.Gateway.Pending.{all_quiet, write-poll}
use wince_backend.Gateway.Announced.{beat-route}

abbrev config : String → Config
config ip = record {
  internal_secret = "secret";
  pod_ip = ip;
  ws_ttl_seconds = 60;
  pending_ttl_seconds = 1800;
}

abbrev first : Config
first = config "10.0.0.1"

abbrev offer : InShopPayload
offer = record {
  intervention_id = "i";
  type = popup;
  value = none;
  discount_code = none;
  expires_at = none;
}

abbrev socket : ℕ → Socket
socket n = record { session_id = "s"; id = n }

abbrev start : State memory
start = starting {R = memory} empty

-- A push over the socket, which the page acknowledges.
abbrev over_socket : List (ℕ × Event)
over_socket =
    (10, opens true (socket 0))
    ∷ (20, pushes 1 "s" offer)
    ∷ (30, receives true (socket 0) (ack "i"))
    ∷ []

abbrev acked_push : InFlight
acked_push = record { push = 0; session_id = "s"; payload = offer; stage = answered delivered_ws }

over_socket_answered : find_push 0 (run first over_socket start).in_flight ≡ some acked_push
unfolding find_push run step open_socket handle send_with_ack take_message find insert erase advance
over_socket_answered = refl

run-answered_example :
    let s = run first over_socket start in
    justified_by "10.0.0.1" s.acked s.forwarded (answered delivered_ws) "i" 0 ≡ true
run-answered_example = run-answered memory first empty over_socket 0 acked_push over_socket_answered

-- A push for a session without a socket.
abbrev without_socket : List (ℕ × Event)
without_socket = (10, pushes 1 "s" offer) ∷ (20, reads true 0) ∷ []

abbrev stored_push : InFlight
stored_push = record { push = 0; session_id = "s"; payload = offer; stage = storing }

without_socket_storing : find_push 0 (run first without_socket start).in_flight ≡ some stored_push
unfolding find_push run step handle route_remote find advance
without_socket_storing = refl

-- the page comes back before it polls
abbrev comes_back : List (ℕ × Event)
comes_back = (40, opens true (socket 0)) ∷ (50, beats (λ _. true) (λ _. true)) ∷ []

comes_back_quiet :
    all_quiet memory first "s" 60 comes_back
      (step first 30 (writes true 0) (run first without_socket start))
    ≡ true
unfolding all_quiet
comes_back_quiet = refl

write-poll_example :
    let poll =
      fetch memory first true 60 "s"
        (run first comes_back
          (step first 30 (writes true 0) (run first without_socket start))).store in
    (poll.0 ≡ some offer) × ((fetch memory first true 60 "s" poll.1).0 ≡ none)
write-poll_example =
    write-poll memory first (run first without_socket start) 30 60 0 stored_push comes_back
      without_socket_storing refl (omega arith) (omega arith) comes_back_quiet

has_socket :
    find "s" (run first ((10, opens true (socket 0)) ∷ []) start).pod.socket_map ≡ some (socket 0)
unfolding run step open_socket find insert
has_socket = refl

beat-route_example :
    route_remote (config "10.0.0.2") (
      memory.get 90
        (ws_active "s")
        (run first
          ((40, receives true (socket 0) (ack "i"))
            ∷ (50, stores_elsewhere (config "10.0.0.3") true "s" offer)
            ∷ [])
          (step first 30
            (beats (λ _. true) (λ _. true))
            (run first ((10, opens true (socket 0)) ∷ []) start))).store)
    ≡ forwarding "10.0.0.1"
beat-route_example =
    beat-route memory first (config "10.0.0.2") "s" 30 90 (socket 0) (λ _. true) (λ _. true)
      ((40, receives true (socket 0) (ack "i"))
        ∷ (50, stores_elsewhere (config "10.0.0.3") true "s" offer)
        ∷ [])
      (run first ((10, opens true (socket 0)) ∷ []) start) has_socket refl refl (omega arith)
      (omega arith) refl refl refl

-- The page reconnects, and then the pod sees the close of its old socket: the new one is forgotten.
old_close :
    let s =
      run first
        ((10, opens true (socket 0))
          ∷ (20, opens true (socket 1))
          ∷ (30, closes true (socket 0))
          ∷ [])
        start in
    (find "s" s.pod.socket_map ≡ none) × (memory.get 40 (ws_active "s") s.store ≡ none)
unfolding run step open_socket close_socket find insert erase
old_close = (refl, refl)

-- The session's page opens a socket on another pod, which Redis names from then on.
opened_elsewhere :
    let s =
      run first
        ((10, opens true (socket 0))
          ∷ (20, announces_elsewhere (config "10.0.0.2") true (socket 1))
          ∷ [])
        start in
    route_remote (config "10.0.0.3") (memory.get 40 (ws_active "s") s.store) ≡ forwarding "10.0.0.2"
unfolding run step open_socket insert route_remote
opened_elsewhere = refl

-- A push is answered as pending although Redis refused the write, and the poll finds nothing.
lost_push :
    let s =
      run first ((10, pushes 1 "s" offer) ∷ (20, reads true 0) ∷ (30, writes false 0) ∷ []) start in
    (find_push 0 s.in_flight ≡ some (record stored_push { stage = answered stored_pending }))
    × ((fetch memory first true 40 "s" s.store).0 ≡ none)
unfolding run step handle route_remote store_pending fetch find advance find_push
lost_push = (refl, refl)

wrong_secret : post_push first "guess" (parsed "s" offer) ≡ unauthorized
unfolding post_push
wrong_secret = refl
