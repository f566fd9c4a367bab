-- ===== src/Gateway.antt =====
-- apps/intervention-gateway/src: server.ts, push-handler.ts and poll-handler.ts on one pod. A
-- handler is cut at its awaits. uWebSockets, the HTTP request to another pod and Redis are
-- parameters: what they answer is an argument. A push's response is what it would answer; a request
-- that was aborted goes the same way and answers nothing. The metrics are left out.
pub mod Runs
pub mod Registered
pub mod Stages
pub mod Kept
pub mod Answered
pub mod Pending
pub mod Announced
mod Tests
use Prim.Native.String.{String}
use text.Mathlib.Text.{◌==◌ as str_eq}
use wince_backend.Prelude.{
  ℕ, Bool, true, false, not, ◌&&◌, Option, none, some, List, [], ◌∷◌, ◌==◌, if◌then◌else◌,
}
use wince_backend.Types.{InShopPayload}
use wince_backend.Redis.{Redis, ws_active, intervention_pending, Value, address, json}
use wince_backend.StringMap.{find, insert, erase}

pub record Config : Type 0 where
  pub internal_secret : String
  pub pod_ip : String
  pub ws_ttl_seconds : ℕ
  pub pending_ttl_seconds : ℕ

-- A socket with the session of its user data.
pub record Socket : Type 0 where
  pub session_id : String
  pub id : ℕ

-- `socketMap` by session, and `ackRegistry`, which has the push that waits for the acknowledgement
-- of an intervention.
pub record Pod : Type 0 where
  pub socket_map : List (String × Socket)
  pub ack_registry : List (String × ℕ)

pub data Message : Type 0 where
  ack : String → Message
  -- other JSON, and what is not JSON
  other : Message

pub data PushResponse : Type 0 where
  delivered_ws delivered_forwarded stored_pending : PushResponse

-- What a push waits for: the acknowledgement, the answer of Redis, that of another pod, or the write
-- to Redis.
pub data Stage : Type 0 where
  awaiting_ack asking : Stage
  forwarding : String → Stage
  storing : Stage
  answered : PushResponse → Stage

-- `POST /v1/push`: the body is missing, is not of the shape, or has a session and a payload
pub data Body : Type 0 where
  no_body invalid : Body
  parsed : String → InShopPayload → Body

pub data Accepted : Type 0 where
  unauthorized ignored bad_request : Accepted
  accepted : String → InShopPayload → Accepted

abbrev accept_body : Body → Accepted
accept_body no_body = ignored
accept_body invalid = bad_request
accept_body (parsed session_id p) = accepted session_id p

unfoldable pub post_push : Config → String → Body → Accepted
post_push cfg secret body =
    if str_eq secret cfg.internal_secret then accept_body body else unauthorized

-- `ws.send` answers 2 for a message that it dropped
unfoldable pub send_with_ack : ℕ → ℕ → InShopPayload → Pod → Stage × Pod
send_with_ack send_result push p pod = if send_result == 2 then (asking, pod) else (
  awaiting_ack,
  record pod { ack_registry = insert p.intervention_id push pod.ack_registry },
)

abbrev pub try_local : Option Socket → ℕ → ℕ → InShopPayload → Pod → Stage × Pod
try_local none send_result push p pod = (asking, pod)
try_local (some ws) send_result push p pod = send_with_ack send_result push p pod

-- `handle` up to its first await
unfoldable pub handle : ℕ → ℕ → String → InShopPayload → Pod → Stage × Pod
handle send_result push session_id p pod =
    try_local (find session_id pod.socket_map) send_result push p pod

-- the timer of `sendWithAck`, which an acknowledgement clears
unfoldable pub ack_timeout : InShopPayload → Pod → Stage × Pod
ack_timeout p pod = (asking, record pod { ack_registry = erase p.intervention_id pod.ack_registry })

abbrev route_to : Config → Option Value → Stage
route_to cfg (some (address ip)) =
    if not (str_eq ip "") && not (str_eq ip cfg.pod_ip) then forwarding ip else storing
route_to cfg _ = storing

-- the pod that Redis names, if it is another one; `none` for a key that is absent or an error
unfoldable pub route_remote : Config → Option Value → Stage
route_remote cfg remote = route_to cfg remote

-- `res.ok`, or false for a request that failed or took more than half a second
unfoldable pub after_forward : Bool → Stage
after_forward forwarded = if forwarded then answered delivered_forwarded else storing

-- The push that the acknowledgement resolves.
abbrev pub acknowledged : Message → Pod → Option ℕ
acknowledged (ack id) pod = if str_eq id "" then none else find id pod.ack_registry
acknowledged other pod = none

-- the callback clears its entry
abbrev pub clear_ack : Option ℕ → Message → Pod → Pod
clear_ack (some push) (ack id) pod = record pod { ack_registry = erase id pod.ack_registry }
clear_ack _ m pod = pod

-- `message` apart from its write to Redis
unfoldable pub take_message : Message → Pod → Option ℕ × Pod
take_message m pod = (acknowledged m pod, clear_ack (acknowledged m pod) m pod)

abbrev pub polled : Option Value → Option InShopPayload
polled (some (json p)) = some p
polled _ = none

module _ (R : Redis) (cfg : Config) where
  open R use {Store, get, setex, del}

  -- `void redis.setex(...)`, whose failure nothing waits for
  abbrev pub announce : Bool → ℕ → String → Store → Store
  announce up now session_id s =
      if up then setex now (ws_active session_id) cfg.ws_ttl_seconds (address cfg.pod_ip) s else s

  unfoldable pub open_socket : Bool → ℕ → Socket → Pod × Store → Pod × Store
  open_socket up now ws (pod, s) = (
    record pod { socket_map = insert ws.session_id ws pod.socket_map },
    announce up now ws.session_id s,
  )

  unfoldable pub close_socket : Bool → Socket → Pod × Store → Pod × Store
  close_socket up ws (pod, s) = (
    record pod { socket_map = erase ws.session_id pod.socket_map },
    if up then del (ws_active ws.session_id) s else s,
  )

  -- The heartbeat's loop over the sockets; a ping that throws leaves the session out.
  unfoldable pub heartbeat :
      (Socket → Bool) → (String → Bool) → ℕ → List (String × Socket) → Store → Store
  heartbeat pings up now [] s = s
  heartbeat pings up now ((session_id, ws) ∷ m) s =
      heartbeat pings up now m (if pings ws then announce (up session_id) now session_id s else s)

  -- `safeSetEx`, whose answer is dropped
  unfoldable pub store_pending : Bool → ℕ → String → InShopPayload → Store → Stage × Store
  store_pending up now session_id p s = (
    answered stored_pending,
    if up
        then setex now (intervention_pending session_id) cfg.pending_ttl_seconds (json p) s
        else s,
  )

  -- GETDEL; null on an error
  unfoldable pub fetch : Bool → ℕ → String → Store → Option InShopPayload × Store
  fetch up now session_id s =
      if up
      then (
        polled (get now (intervention_pending session_id) s),
        del (intervention_pending session_id) s,
      )
      else (none, s)
