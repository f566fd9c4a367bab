-- ===== src/Gateway/Stages.antt =====
-- Every stage of push-handler.ts keeps the answers justified.
use Prim.Native.String.{String}
use text.Mathlib.Text.{◌==◌ as str_eq}
use wince_backend.Prelude.{
  ℕ, ◌≡◌, refl, ◌∙◌, arith, Bool, true, false, Option, none, some, List, ◌∷◌, any,
}
use wince_backend.Redis.{Redis, Value, uuid, flag, amount, json, address}
use wince_backend.StringMap.{all_of, all_of-erase}
use wince_backend.Gateway.{
  Config, Pod, delivered_ws, stored_pending, Stage, awaiting_ack, asking, forwarding, storing,
  answered, ack_timeout, route_remote, after_forward, store_pending,
}
use wince_backend.Gateway.Runs.{
  InFlight, State, find_push, advance, settle, time_out, read, forward, write, on_push,
}
use wince_backend.Gateway.Registered.{
  all_justified-forwarded, all_justified-acked, justified_by, below-advance, registered-advance,
  all_justified-advance, all_justified, registered, below,
}

pub record IsJustified {R : Redis} (own : String) (s : State R) : Type 0 where
  pub answers : all_justified own s.acked s.forwarded s.in_flight ≡ true
  pub numbered : below s.next s.in_flight ≡ true
  pub registry : all_of (registered s.next s.in_flight) s.pod.ack_registry ≡ true

-- what Redis answers is no answer to the push yet
routed-justified :
    (cfg : Config) (acked : List String) (forwarded : List (ℕ × String)) (id : String) (push : ℕ)
    (o : Option Value)
    → justified_by cfg.pod_ip acked forwarded (route_remote cfg o) id push ≡ true
unfolding route_remote
routed-justified cfg acked forwarded id push none = refl
routed-justified cfg acked forwarded id push (some (uuid n)) = refl
routed-justified cfg acked forwarded id push (some flag) = refl
routed-justified cfg acked forwarded id push (some (amount n)) = refl
routed-justified cfg acked forwarded id push (some (json p)) = refl
routed-justified cfg acked forwarded id push (some (address ip)) = ground arith

module _ {R : Redis} {own : String} where
  pub store-IsJustified :
      (s : State R) (pod : Pod) (st : R.Store)
      → pod.ack_registry ≡ s.pod.ack_registry
      → IsJustified own s
      → IsJustified own (record s { pod = pod; store = st })
  store-IsJustified s pod st e j = record {
    answers = j.answers;
    numbered = j.numbered;
    registry = rw e j.registry;
  }

  advance-IsJustified :
      (s : State R) (pod : Pod) (f : InFlight) (g : Stage)
      → IsJustified own s
      → find_push f.push s.in_flight ≡ some f
      → justified_by own s.acked s.forwarded g f.payload.intervention_id f.push ≡ true
      → all_of (registered s.next s.in_flight) pod.ack_registry ≡ true
      → IsJustified own (record s { pod = pod; in_flight = advance f.push g s.in_flight })
  advance-IsJustified s pod f g j e q r = record {
    answers = all_justified-advance own s.acked s.forwarded f.push g f s.in_flight e q j.answers;
    numbered = below-advance s.next f.push g s.in_flight ∙ j.numbered;
    registry = registered-advance s.next f.push g s.in_flight pod.ack_registry r;
  }

  pub more_acked :
      (i : String) (s : State R)
      → IsJustified own s
      → IsJustified own (record s { acked = i ∷ s.acked })
  more_acked i s j = record {
    answers = all_justified-acked own s.acked s.forwarded i s.in_flight j.answers;
    numbered = j.numbered;
    registry = j.registry;
  }

  more_forwarded :
      (t : ℕ × String) (s : State R)
      → IsJustified own s
      → IsJustified own (record s { forwarded = t ∷ s.forwarded })
  more_forwarded t s j = record {
    answers = all_justified-forwarded own s.acked s.forwarded t s.in_flight j.answers;
    numbered = j.numbered;
    registry = j.registry;
  }

module _ {R : Redis} (cfg : Config) where
  pub on_push-IsJustified :
      (h : Stage → InFlight → State R → State R) (o : Option InFlight) (s : State R)
      → ((f : InFlight) → o ≡ some f → IsJustified cfg.pod_ip (h f.stage f s))
      → IsJustified cfg.pod_ip s
      → IsJustified cfg.pod_ip (on_push cfg h o s)
  on_push-IsJustified h none s k j = j
  on_push-IsJustified h (some f) s k j = k f refl

  pub settle-IsJustified :
      (g : Stage) (f : InFlight) (s : State R)
      → IsJustified cfg.pod_ip s
      → find_push f.push s.in_flight ≡ some f
      → any (str_eq f.payload.intervention_id) s.acked ≡ true
      → IsJustified cfg.pod_ip (settle cfg g f s)
  settle-IsJustified awaiting_ack f s j e q =
      advance-IsJustified s s.pod f (answered delivered_ws) j e q j.registry
  settle-IsJustified asking f s j e q = j
  settle-IsJustified (forwarding ip) f s j e q = j
  settle-IsJustified storing f s j e q = j
  settle-IsJustified (answered r) f s j e q = j

  pub time_out-IsJustified :
      (g : Stage) (f : InFlight) (s : State R)
      → IsJustified cfg.pod_ip s
      → find_push f.push s.in_flight ≡ some f
      → IsJustified cfg.pod_ip (time_out cfg g f s)
  unfolding ack_timeout
  time_out-IsJustified awaiting_ack f s j e =
      advance-IsJustified s (ack_timeout f.payload s.pod).1 f asking j e refl (
        all_of-erase (registered s.next s.in_flight) f.payload.intervention_id s.pod.ack_registry
          j.registry)
  time_out-IsJustified asking f s j e = j
  time_out-IsJustified (forwarding ip) f s j e = j
  time_out-IsJustified storing f s j e = j
  time_out-IsJustified (answered r) f s j e = j

  pub read-IsJustified :
      (up : Bool) (now : ℕ) (g : Stage) (f : InFlight) (s : State R)
      → IsJustified cfg.pod_ip s
      → find_push f.push s.in_flight ≡ some f
      → IsJustified cfg.pod_ip (read cfg up now g f s)
  read-IsJustified up now asking f s j e =
      advance-IsJustified s s.pod f _ j e (routed-justified cfg s.acked s.forwarded _ _ _)
        j.registry
  read-IsJustified up now awaiting_ack f s j e = j
  read-IsJustified up now (forwarding ip) f s j e = j
  read-IsJustified up now storing f s j e = j
  read-IsJustified up now (answered r) f s j e = j

  pub forward-IsJustified :
      (ok : Bool) (g : Stage) (f : InFlight) (s : State R)
      → IsJustified cfg.pod_ip s
      → find_push f.push s.in_flight ≡ some f
      → justified_by cfg.pod_ip s.acked s.forwarded g f.payload.intervention_id f.push ≡ true
      → IsJustified cfg.pod_ip (forward cfg ok g f s)
  unfolding after_forward
  forward-IsJustified true (forwarding ip) f s j e q =
      advance-IsJustified (record s { forwarded = (f.push, ip) ∷ s.forwarded }) s.pod f _
        (more_forwarded (f.push, ip) s j) e (ground (arith, q)) j.registry
  forward-IsJustified false (forwarding ip) f s j e q =
      advance-IsJustified s s.pod f storing j e refl j.registry
  forward-IsJustified ok awaiting_ack f s j e q = j
  forward-IsJustified ok asking f s j e q = j
  forward-IsJustified ok storing f s j e q = j
  forward-IsJustified ok (answered r) f s j e q = j

  pub write-IsJustified :
      (up : Bool) (now : ℕ) (g : Stage) (f : InFlight) (s : State R)
      → IsJustified cfg.pod_ip s
      → find_push f.push s.in_flight ≡ some f
      → IsJustified cfg.pod_ip (write cfg up now g f s)
  unfolding store_pending
  write-IsJustified up now storing f s j e =
      advance-IsJustified
        (record s { store = (store_pending R cfg up now f.session_id f.payload s.store).1 }) s.pod f
        (answered stored_pending) (store-IsJustified s s.pod _ refl j) e refl j.registry
  write-IsJustified up now awaiting_ack f s j e = j
  write-IsJustified up now asking f s j e = j
  write-IsJustified up now (forwarding ip) f s j e = j
  write-IsJustified up now (answered r) f s j e = j
