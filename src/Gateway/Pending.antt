-- ===== src/Gateway/Pending.antt =====
-- The pending intervention of a session, from push-handler.ts to poll-handler.ts.
use Prim.Native.String.{String}
use text.Mathlib.Text.{◌==◌ as str_eq}
use text.Mathlib.TextEquality.{eq_iff}
use wince_backend.Prelude.{
  ℕ, ◌+◌, ◌*◌, ◌≤◌, ◌<◌, ◌≡◌, refl, ap, ◌∙◌, arith, inl, inr, Bool, true, false, not, Option, none,
  some, List, [], ◌∷◌, leb, Bool-cases, if◌then◌else◌,
}
use wince_backend.Types.{InShopPayload}
use wince_backend.Redis.{Redis, ws_active, intervention_pending, Value, address, json}
use wince_backend.Gateway.{
  Config, Socket, Stage, awaiting_ack, asking, forwarding, storing, answered, announce, open_socket,
  close_socket, heartbeat, store_pending, polled, fetch, take_message,
}
use wince_backend.Gateway.Runs.{
  InFlight, State, Event, opens, closes, receives, beats, pushes, times_out, reads, forwards,
  writes, polls, announces_elsewhere, closes_elsewhere, stores_elsewhere, find_push, step, run,
  time_out, read, forward, write, on_push, acked_by,
}
use wince_backend.Gateway.Kept.{
  keeps_store, time_out-store, read-store, forward-store, resolve-store,
}

abbrev is_other : String → Option InFlight → Bool
is_other session_id none = true
is_other session_id (some f) = not (str_eq f.session_id session_id)

abbrev waiting : (R : Redis) → String → ℕ → R.Store → Option Value
waiting R session_id t st = R.get t (intervention_pending session_id) st

module _ (R : Redis) (cfg : Config) (session_id : String) (t : ℕ) where
  -- an event that neither stores nor polls the session's pending intervention
  abbrev pub is_quiet : Event → State R → Bool
  is_quiet (writes up push) s = is_other session_id (find_push push s.in_flight)
  is_quiet (polls up i) s = not (str_eq i session_id)
  is_quiet (stores_elsewhere pod up i p) s = not (str_eq i session_id)
  is_quiet _ s = true

  -- no event after `t`, and each of them quiet
  unfoldable pub all_quiet : List (ℕ × Event) → State R → Bool
  all_quiet [] s = true
  all_quiet ((now, e) ∷ es) s =
      let rest = all_quiet es (step cfg now e s) in
      if leb now t then (if is_quiet e s then rest else false) else false

  announce-waiting :
      (pod : Config) (up : Bool) (now : ℕ) (i : String) (st : R.Store)
      → now ≤ t
      → waiting R session_id t (announce R pod up now i st) ≡ waiting R session_id t st
  announce-waiting pod true now i st h =
      R.get-setex now t (ws_active i) (intervention_pending session_id) pod.ws_ttl_seconds
        (address pod.pod_ip) st h
  announce-waiting pod false now i st h = refl

  store-waiting :
      (pod : Config) (up : Bool) (now : ℕ) (i : String) (p : InShopPayload) (st : R.Store)
      → now ≤ t
      → str_eq i session_id ≡ false
      → waiting R session_id t (store_pending R pod up now i p st).1 ≡ waiting R session_id t st
  unfolding store_pending
  store-waiting pod up now i p st h q = ground (
    arith,
    R.get-setex now t (intervention_pending i) (intervention_pending session_id)
        pod.pending_ttl_seconds (json p) st,
  )

  heartbeat-waiting :
      (pings : Socket → Bool) (up : String → Bool) (now : ℕ) (m : List (String × Socket))
      (st : R.Store)
      → now ≤ t
      → waiting R session_id t (heartbeat R cfg pings up now m st) ≡ waiting R session_id t st
  unfolding heartbeat
  heartbeat-waiting pings up now [] st h = refl
  heartbeat-waiting pings up now ((i, ws) ∷ m) st h = elim (Bool-cases (pings ws)) [
    | inl q ↦ rw q (
        heartbeat-waiting pings up now m (announce R cfg (up i) now i st) h
        ∙ announce-waiting cfg (up i) now i st h)
    | inr q ↦ rw q (heartbeat-waiting pings up now m st h)
  ]

  write-waiting :
      (up : Bool) (now : ℕ) (g : Stage) (f : InFlight) (s : State R)
      → now ≤ t
      → str_eq f.session_id session_id ≡ false
      → waiting R session_id t (write cfg up now g f s).store ≡ waiting R session_id t s.store
  write-waiting up now awaiting_ack f s h q = refl
  write-waiting up now asking f s h q = refl
  write-waiting up now (forwarding ip) f s h q = refl
  write-waiting up now storing f s h q = store-waiting cfg up now f.session_id f.payload s.store h q
  write-waiting up now (answered r) f s h q = refl

  on_write-waiting :
      (up : Bool) (now : ℕ) (o : Option InFlight) (s : State R)
      → now ≤ t
      → is_other session_id o ≡ true
      → waiting R session_id t (on_push cfg (write cfg up now) o s).store
        ≡ waiting R session_id t s.store
  on_write-waiting up now none s h q = refl
  on_write-waiting up now (some f) s h q = write-waiting up now f.stage f s h (ground arith)

  step-waiting :
      (now : ℕ) (e : Event) (s : State R)
      → now ≤ t
      → is_quiet e s ≡ true
      → waiting R session_id t (step cfg now e s).store ≡ waiting R session_id t s.store
  unfolding step open_socket close_socket store_pending fetch take_message
  step-waiting now (opens up ws) s h q = announce-waiting cfg up now ws.session_id s.store h
  step-waiting now (closes up ws) s h q =
      ground
        (arith, R.get-del t (ws_active ws.session_id) (intervention_pending session_id) s.store)
  step-waiting now (receives up ws m) s h q =
      ap (waiting R session_id t) (
        resolve-store cfg (take_message m s.pod).0 (record s {
          pod = (take_message m s.pod).1;
          store = announce R cfg up now ws.session_id s.store;
          acked = acked_by m s.acked;
        }))
      ∙ announce-waiting cfg up now ws.session_id s.store h
  step-waiting now (beats pings up) s h q =
      heartbeat-waiting pings up now s.pod.socket_map s.store h
  step-waiting now (pushes r i p) s h q = refl
  step-waiting now (times_out push) s h q =
      ap (waiting R session_id t)
        (keeps_store cfg (time_out cfg) (time_out-store cfg) (find_push push s.in_flight) s)
  step-waiting now (reads up push) s h q =
      ap (waiting R session_id t)
        (keeps_store cfg (read cfg up now) (read-store cfg up now) (find_push push s.in_flight) s)
  step-waiting now (forwards ok push) s h q =
      ap (waiting R session_id t)
        (keeps_store cfg (forward cfg ok) (forward-store cfg ok) (find_push push s.in_flight) s)
  step-waiting now (writes up push) s h q =
      on_write-waiting up now (find_push push s.in_flight) s h q
  step-waiting now (polls up i) s h q =
      ground (arith, R.get-del t (intervention_pending i) (intervention_pending session_id) s.store)
  step-waiting now (announces_elsewhere pod up ws) s h q =
      announce-waiting pod up now ws.session_id s.store h
  step-waiting now (closes_elsewhere pod up ws) s h q =
      ground
        (arith, R.get-del t (ws_active ws.session_id) (intervention_pending session_id) s.store)
  step-waiting now (stores_elsewhere pod up i p) s h q =
      store-waiting pod up now i p s.store h (ground arith)

  run-waiting :
      (es : List (ℕ × Event)) (s : State R)
      → all_quiet es s ≡ true
      → waiting R session_id t (run cfg es s).store ≡ waiting R session_id t s.store
  unfolding run all_quiet
  run-waiting [] s q = refl
  run-waiting ((now, e) ∷ es) s q =
      run-waiting es (step cfg now e s) (ground arith)
      ∙ step-waiting now e s (ground arith) (ground arith)

module _ (R : Redis) (cfg : Config) where
  written :
      (s : State R) (now t push : ℕ) (f : InFlight)
      → find_push push s.in_flight ≡ some f
      → f.stage ≡ storing
      → now ≤ t
      → t < now + cfg.pending_ttl_seconds * 1000
      → waiting R f.session_id t (step cfg now (writes true push) s).store ≡ some (json f.payload)
  unfolding step store_pending
  written s now t push f e g h l = rw e (
      rw g (
        ground (
          arith,
          eq_iff f.session_id f.session_id,
          R.get-setex now t (intervention_pending f.session_id) (intervention_pending f.session_id)
              cfg.pending_ttl_seconds (json f.payload) s.store,
        )))

  taken :
      (t : ℕ) (i : String) (st : R.Store) → waiting R i t (R.del (intervention_pending i) st) ≡ none
  taken t i st =
      ground (arith, eq_iff i i, R.get-del t (intervention_pending i) (intervention_pending i) st)

  -- The payload of a push whose handler comes to store it, where Redis takes the write, waits for the
  -- session: whatever quiet events follow, a poll at a time before the end of its time-to-live
  -- answers that payload, and a second one nothing.
  pub write-poll :
      (s : State R) (now t push : ℕ) (f : InFlight) (es : List (ℕ × Event))
      → find_push push s.in_flight ≡ some f
      → f.stage ≡ storing
      → now ≤ t
      → t < now + cfg.pending_ttl_seconds * 1000
      → all_quiet R cfg f.session_id t es (step cfg now (writes true push) s) ≡ true
      → let poll =
          fetch R cfg true t f.session_id (run cfg es (step cfg now (writes true push) s)).store in
        (poll.0 ≡ some f.payload) × ((fetch R cfg true t f.session_id poll.1).0 ≡ none)
  unfolding fetch
  write-poll s now t push f es e g h l q =
      let found = run-waiting R cfg f.session_id t es _ q ∙ written s now t push f e g h l in
      let st = (run cfg es (step cfg now (writes true push) s)).store in
      (ap polled found, ap polled (taken t f.session_id st))
