-- ===== src/Gateway/Kept.antt =====
-- The handlers of one pod that leave Redis as it is.
use wince_backend.Prelude.{ℕ, ◌≡◌, refl, Bool, Option, none, some}
use wince_backend.Redis.{Redis}
use wince_backend.Gateway.{Config, Stage, awaiting_ack, asking, forwarding, storing, answered}
use wince_backend.Gateway.Runs.{
  InFlight, State, find_push, settle, resolve, time_out, read, forward, on_push,
}

module _ {R : Redis} (cfg : Config) where
  pub keeps_store :
      (h : Stage → InFlight → State R → State R)
      → ((g : Stage) (f : InFlight) (s : State R) → (h g f s).store ≡ s.store)
      → (o : Option InFlight) (s : State R) → (on_push cfg h o s).store ≡ s.store
  keeps_store h k none s = refl
  keeps_store h k (some f) s = k f.stage f s

  pub settle-store : (g : Stage) (f : InFlight) (s : State R) → (settle cfg g f s).store ≡ s.store
  settle-store awaiting_ack f s = refl
  settle-store asking f s = refl
  settle-store (forwarding ip) f s = refl
  settle-store storing f s = refl
  settle-store (answered r) f s = refl

  pub time_out-store :
      (g : Stage) (f : InFlight) (s : State R) → (time_out cfg g f s).store ≡ s.store
  time_out-store awaiting_ack f s = refl
  time_out-store asking f s = refl
  time_out-store (forwarding ip) f s = refl
  time_out-store storing f s = refl
  time_out-store (answered r) f s = refl

  pub read-store :
      (up : Bool) (now : ℕ) (g : Stage) (f : InFlight) (s : State R)
      → (read cfg up now g f s).store ≡ s.store
  read-store up now awaiting_ack f s = refl
  read-store up now asking f s = refl
  read-store up now (forwarding ip) f s = refl
  read-store up now storing f s = refl
  read-store up now (answered r) f s = refl

  pub forward-store :
      (ok : Bool) (g : Stage) (f : InFlight) (s : State R) → (forward cfg ok g f s).store ≡ s.store
  forward-store ok awaiting_ack f s = refl
  forward-store ok asking f s = refl
  forward-store ok (forwarding ip) f s = refl
  forward-store ok storing f s = refl
  forward-store ok (answered r) f s = refl

  pub resolve-store : (o : Option ℕ) (s : State R) → (resolve cfg o s).store ≡ s.store
  resolve-store none s = refl
  resolve-store (some push) s = keeps_store (settle cfg) settle-store (find_push push s.in_flight) s
