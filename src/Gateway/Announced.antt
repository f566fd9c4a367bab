-- ===== src/Gateway/Announced.antt =====
-- The pod that Redis names for a session, from server.ts to another pod's push-handler.ts.
use Prim.Native.String.{String}
use text.Mathlib.Text.{◌==◌ as str_eq}
use text.Mathlib.TextEquality.{eq_iff}
use wince_backend.Prelude.{
  ℕ, ◌+◌, ◌*◌, ◌≤◌, ◌<◌, ◌≡◌, refl, ap, sym, ◌∙◌, arith, inl, inr, Bool, true, false, not, Option,
  none, some, List, [], ◌∷◌, leb, Bool-cases, if◌then◌else◌,
}
use wince_backend.Redis.{Redis, ws_active, intervention_pending, address, json}
use wince_backend.StringMap.{find}
use wince_backend.Gateway.{
  Config, Socket, Stage, awaiting_ack, asking, forwarding, storing, answered, announce, open_socket,
  close_socket, heartbeat, store_pending, fetch, take_message, route_remote,
}
use wince_backend.Gateway.Runs.{
  InFlight, State, Event, opens, closes, receives, beats, pushes, times_out, reads, forwards,
  writes, polls, announces_elsewhere, closes_elsewhere, stores_elsewhere, find_push, step, run,
  time_out, read, forward, write, on_push, acked_by,
}
use wince_backend.Gateway.Kept.{
  keeps_store, time_out-store, read-store, forward-store, resolve-store,
}

-- an event that neither closes a socket of the session, here or on another pod, nor announces one on
-- another pod
abbrev stays : String → Event → Bool
stays i (closes up ws) = not (str_eq ws.session_id i)
stays i (announces_elsewhere pod up ws) = not (str_eq ws.session_id i)
stays i (closes_elsewhere pod up ws) = not (str_eq ws.session_id i)
stays i _ = true

-- the events come between the two times, and all of them stay
abbrev pub all_stay : String → ℕ → ℕ → List (ℕ × Event) → Bool
all_stay i from t [] = true
all_stay i from t ((now, e) ∷ es) =
    let rest = all_stay i from t es in
    if leb from now
    then (if leb now t then (if stays i e then rest else false) else false)
    else false

module _ (R : Redis) (cfg : Config) (i : String) (from t : ℕ) where
  -- at `t` Redis names this pod for the session
  abbrev Named : R.Store → Type 0
  Named st = R.get t (ws_active i) st ≡ some (address cfg.pod_ip)

  announce-Named :
      (up : Bool) (now : ℕ) (j : String) (st : R.Store)
      → now ≤ t
      → t < now + cfg.ws_ttl_seconds * 1000
      → Named st
      → Named (announce R cfg up now j st)
  announce-Named true now j st h l n = ground (
    arith,
    R.get-setex now t (ws_active j) (ws_active i) cfg.ws_ttl_seconds (address cfg.pod_ip) st,
  )
  announce-Named false now j st h l n = n

  announced :
      (now : ℕ) (st : R.Store)
      → now ≤ t
      → t < now + cfg.ws_ttl_seconds * 1000
      → Named (announce R cfg true now i st)
  announced now st h l = ground (
    arith,
    eq_iff i i,
    R.get-setex now t (ws_active i) (ws_active i) cfg.ws_ttl_seconds (address cfg.pod_ip) st,
  )

  heartbeat-Named :
      (pings : Socket → Bool) (up : String → Bool) (now : ℕ) (m : List (String × Socket))
      (st : R.Store)
      → now ≤ t
      → t < now + cfg.ws_ttl_seconds * 1000
      → Named st
      → Named (heartbeat R cfg pings up now m st)
  unfolding heartbeat
  heartbeat-Named pings up now [] st h l n = n
  heartbeat-Named pings up now ((j, ws) ∷ m) st h l n = elim (Bool-cases (pings ws)) [
    | inl q ↦ rw q (
        heartbeat-Named pings up now m (announce R cfg (up j) now j st) h l
          (announce-Named (up j) now j st h l n))
    | inr q ↦ rw q (heartbeat-Named pings up now m st h l n)
  ]

  pinged-first :
      (pings : Socket → Bool) (j : String) (x ws : Socket) (m : List (String × Socket))
      → str_eq i j ≡ true
      → find i ((j, x) ∷ m) ≡ some ws
      → pings ws ≡ true
      → pings x ≡ true
  unfolding find
  pinged-first pings j x ws m q e p = ground arith

  -- A heartbeat that reaches a socket of the session and Redis names the pod.
  heartbeat_reached :
      (pings : Socket → Bool) (up : String → Bool) (now : ℕ) (ws : Socket)
      (m : List (String × Socket)) (st : R.Store)
      → now ≤ t
      → t < now + cfg.ws_ttl_seconds * 1000
      → find i m ≡ some ws
      → pings ws ≡ true
      → up i ≡ true
      → Named (heartbeat R cfg pings up now m st)
  unfolding heartbeat find
  heartbeat_reached pings up now ws [] st h l e p u = ground arith
  heartbeat_reached pings up now ws ((j, x) ∷ m) st h l e p u = elim (Bool-cases (str_eq i j)) [
    | inl q ↦ heartbeat-Named pings up now m _ h l (
        rw (pinged-first pings j x ws m q e p)
          (rw (sym ((eq_iff i j).0 q)) (rw u (announced now st h l))))
    | inr q ↦ heartbeat_reached pings up now ws m _ h l (ground arith) p u
  ]

  write-Named :
      (up : Bool) (now : ℕ) (g : Stage) (f : InFlight) (s : State R)
      → now ≤ t
      → Named s.store
      → Named (write cfg up now g f s).store
  unfolding store_pending
  write-Named up now storing f s h n = ground (
    arith,
    R.get-setex now t (intervention_pending f.session_id) (ws_active i) cfg.pending_ttl_seconds
        (json f.payload) s.store,
  )
  write-Named up now awaiting_ack f s h n = n
  write-Named up now asking f s h n = n
  write-Named up now (forwarding ip) f s h n = n
  write-Named up now (answered r) f s h n = n

  on_write-Named :
      (up : Bool) (now : ℕ) (o : Option InFlight) (s : State R)
      → now ≤ t
      → Named s.store
      → Named (on_push cfg (write cfg up now) o s).store
  on_write-Named up now none s h n = n
  on_write-Named up now (some f) s h n = write-Named up now f.stage f s h n

  step-Named :
      (now : ℕ) (e : Event) (s : State R)
      → now ≤ t
      → t < now + cfg.ws_ttl_seconds * 1000
      → stays i e ≡ true
      → Named s.store
      → Named (step cfg now e s).store
  unfolding step open_socket close_socket store_pending fetch take_message
  step-Named now (opens up ws) s h l q n = announce-Named up now ws.session_id s.store h l n
  step-Named now (closes up ws) s h l q n =
      ground (arith, R.get-del t (ws_active ws.session_id) (ws_active i) s.store)
  step-Named now (receives up ws m) s h l q n =
      ap (R.get t (ws_active i)) (
        resolve-store cfg (take_message m s.pod).0 (record s {
          pod = (take_message m s.pod).1;
          store = announce R cfg up now ws.session_id s.store;
          acked = acked_by m s.acked;
        }))
      ∙ announce-Named up now ws.session_id s.store h l n
  step-Named now (beats pings up) s h l q n =
      heartbeat-Named pings up now s.pod.socket_map s.store h l n
  step-Named now (pushes r j p) s h l q n = n
  step-Named now (times_out push) s h l q n =
      ap (R.get t (ws_active i))
        (keeps_store cfg (time_out cfg) (time_out-store cfg) (find_push push s.in_flight) s)
      ∙ n
  step-Named now (reads up push) s h l q n =
      ap (R.get t (ws_active i))
        (keeps_store cfg (read cfg up now) (read-store cfg up now) (find_push push s.in_flight) s)
      ∙ n
  step-Named now (forwards ok push) s h l q n =
      ap (R.get t (ws_active i))
        (keeps_store cfg (forward cfg ok) (forward-store cfg ok) (find_push push s.in_flight) s)
      ∙ n
  step-Named now (writes up push) s h l q n =
      on_write-Named up now (find_push push s.in_flight) s h n
  step-Named now (polls up j) s h l q n =
      ground (arith, R.get-del t (intervention_pending j) (ws_active i) s.store)
  step-Named now (announces_elsewhere pod up ws) s h l q n = ground (
    arith,
    R.get-setex now t (ws_active ws.session_id) (ws_active i) pod.ws_ttl_seconds
        (address pod.pod_ip) s.store,
  )
  step-Named now (closes_elsewhere pod up ws) s h l q n =
      ground (arith, R.get-del t (ws_active ws.session_id) (ws_active i) s.store)
  step-Named now (stores_elsewhere pod up j p) s h l q n = ground (
    arith,
    R.get-setex now t (intervention_pending j) (ws_active i) pod.pending_ttl_seconds (json p)
        s.store,
  )

  run-Named :
      (es : List (ℕ × Event)) (s : State R)
      → t < from + cfg.ws_ttl_seconds * 1000
      → all_stay i from t es ≡ true
      → Named s.store
      → Named (run cfg es s).store
  unfolding run
  run-Named [] s l q n = n
  run-Named ((now, e) ∷ es) s l q n =
      run-Named es (step cfg now e s) l (ground arith)
        (step-Named now e s (ground arith) (ground arith) (ground arith) n)

  route-Named :
      (sender : Config) (st : R.Store)
      → Named st
      → str_eq cfg.pod_ip "" ≡ false
      → str_eq cfg.pod_ip sender.pod_ip ≡ false
      → route_remote sender (R.get t (ws_active i) st) ≡ forwarding cfg.pod_ip
  unfolding route_remote
  route-Named sender st n a b = rw n (rw (a, b) refl)

-- After a heartbeat of a pod that reaches a session's socket and Redis, whatever happens on the pods
-- but a close of a socket of the session on any of them, and an open, a message or a heartbeat of one
-- on another than the pod, a push for the session on another pod that asks Redis before the end of
-- the time-to-live is forwarded to the pod, where its address is not empty and not the other's.
pub beat-route :
    (R : Redis) (cfg sender : Config) (i : String) (now t : ℕ) (ws : Socket) (pings : Socket → Bool)
    (up : String → Bool) (es : List (ℕ × Event)) (s : State R)
    → find i s.pod.socket_map ≡ some ws
    → pings ws ≡ true
    → up i ≡ true
    → now ≤ t
    → t < now + cfg.ws_ttl_seconds * 1000
    → all_stay i now t es ≡ true
    → str_eq cfg.pod_ip "" ≡ false
    → str_eq cfg.pod_ip sender.pod_ip ≡ false
    → route_remote sender
        (R.get t (ws_active i) (run cfg es (step cfg now (beats pings up) s)).store)
      ≡ forwarding cfg.pod_ip
unfolding step
beat-route R cfg sender i now t ws pings up es s e p u h l q a b =
    route-Named R cfg i now t sender _
      (run-Named R cfg i now t es _ l q
        (heartbeat_reached R cfg i now t pings up now ws s.pod.socket_map s.store h l e p u))
      a b
