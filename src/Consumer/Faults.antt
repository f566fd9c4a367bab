-- ===== src/Consumer/Faults.antt =====
-- Where the loop of decision.consumer.ts over a batch returns, and where it throws.
use Prim.Native.String.{String}
use wince_backend.Prelude.{
  ℕ, suc, ℤ, ◌≡◌, arith, Bool, true, Option, none, some, List, [], ◌∷◌, Bool-cases, inl, inr, false,
  not, ◌&&◌, is_some, if◌then◌else◌,
}
use wince_backend.Types.{EnrichedEvent}
use wince_backend.Redis.{Redis}
use wince_backend.World.Monad.{kafka_error, type_error}
use wince_backend.World.Monad.Throws.{Throws, Throws-throw, Throws-bind, Throws-bind_rest}
use wince_backend.World.Monad.Total.{IsTotal, IsTotal-pure, IsTotal-bind, total_rules}
use wince_backend.Lock
use wince_backend.Scheduler
use wince_backend.Orchestrator.{Readers}
use wince_backend.Orchestrator.Decide.{Scorers}
use wince_backend.Consumer.{
  Parsed, Incoming, Callbacks, send_to_dlq, handle_event, handle_typed, handle_customer,
  handle_parsed, answer, process,
}

module _ (R : Redis) (rd : Readers) (sc : Scorers) (show_id : ℤ → String) where
  send_to_dlq-IsTotal : (key : String) → IsTotal (send_to_dlq R rd sc show_id key)
  unfolding send_to_dlq
  send_to_dlq-IsTotal key = search total_rules

  clear_user_sent-IsTotal : (c : ℤ) → IsTotal (Lock.clear_user_sent R c)
  unfolding Lock.clear_user_sent
  clear_user_sent-IsTotal c = search total_rules

  clear_user_sessions-IsTotal :
      (c : ℤ) (s : ℕ) → IsTotal (Scheduler.clear_user_sessions R show_id c s)
  unfolding Scheduler.clear_user_sessions
  clear_user_sessions-IsTotal c s = search total_rules

  handle_event-IsTotal :
      (key : String) (e : EnrichedEvent) (c : ℤ) → IsTotal (handle_event R rd sc show_id key e c)
  unfolding handle_event
  handle_event-IsTotal key e c =
      search
        (total_rules, send_to_dlq-IsTotal, clear_user_sent-IsTotal, clear_user_sessions-IsTotal)

  -- an event of a customer whose type is no text
  abbrev pub lacks_type : Option Incoming → Bool
  lacks_type none = false
  lacks_type (some i) = is_some i.event.customer_id && not i.has_type

  -- The loop comes to a message at which it throws: for its type, or for the heartbeat after it.
  unfoldable pub faults : Callbacks → ℕ → List Parsed → Bool
  faults cb n [] = false
  faults cb n (m ∷ ms) =
      let rest = faults cb (suc n) ms in
      if cb.running n
      then (if lacks_type m.event then true else if cb.beats n then rest else true)
      else false

  handle_customer-IsTotal :
      (key : String) (i : Incoming) (c : Option ℤ)
      → (is_some c && not i.has_type) ≡ false
      → IsTotal (handle_customer R rd sc show_id key i c)
  unfolding handle_customer handle_typed
  handle_customer-IsTotal key i none h = send_to_dlq-IsTotal key
  handle_customer-IsTotal key i (some c) h = elim (Bool-cases i.has_type) [
    | inl q ↦ rw q (handle_event-IsTotal key i.event c)
    | inr q ↦ ground (arith, h, q)
  ]

  handle_parsed-IsTotal :
      (key : String) (i : Option Incoming)
      → lacks_type i ≡ false
      → IsTotal (handle_parsed R rd sc show_id key i)
  unfolding handle_parsed
  handle_parsed-IsTotal key none h = send_to_dlq-IsTotal key
  handle_parsed-IsTotal key (some i) h = handle_customer-IsTotal key i i.event.customer_id h

  handle_customer-Throws :
      (key : String) (i : Incoming) (c : Option ℤ)
      → (is_some c && not i.has_type) ≡ true
      → Throws (handle_customer R rd sc show_id key i c)
  unfolding handle_customer handle_typed
  handle_customer-Throws key i none h = ground (arith, h)
  handle_customer-Throws key i (some c) h = elim (Bool-cases i.has_type) [
    | inl q ↦ ground (arith, h, q)
    | inr q ↦ rw q (Throws-throw type_error)
  ]

  handle_parsed-Throws :
      (key : String) (i : Option Incoming)
      → lacks_type i ≡ true
      → Throws (handle_parsed R rd sc show_id key i)
  unfolding handle_parsed
  handle_parsed-Throws key none h = ground (arith, h)
  handle_parsed-Throws key (some i) h = handle_customer-Throws key i i.event.customer_id h

  pub process-IsTotal :
      (cb : Callbacks) (n : ℕ) (ms : List Parsed) (done : List ℕ)
      → faults cb n ms ≡ false
      → IsTotal (process R rd sc show_id cb n ms done)
  unfolding process faults answer
  process-IsTotal cb n [] done h = IsTotal-pure done
  process-IsTotal cb n (m ∷ ms) done h = elim (Bool-cases (cb.running n)) [
    | inr q ↦ rw q (IsTotal-pure done)
    | inl q ↦ rw q (
        IsTotal-bind _ _ (handle_parsed-IsTotal m.key m.event (ground (arith, h, q))) (λ _.
          rw (beat_of m n cb ms h q) (
            IsTotal-bind _ _ (IsTotal-pure tt)
              (λ _. process-IsTotal cb (suc n) ms (m.offset ∷ done) (ground (arith, h, q))))))
  ]
    where
      beat_of :
          (m : Parsed) (n : ℕ) (cb : Callbacks) (ms : List Parsed)
          → faults cb n (m ∷ ms) ≡ false
          → cb.running n ≡ true
          → cb.beats n ≡ true
      beat_of m n cb ms h q = ground (arith, h, q)

  answer-Throws : Throws (answer R rd sc show_id false)
  unfolding answer
  answer-Throws = Throws-throw kafka_error

  pub process-Throws :
      (cb : Callbacks) (n : ℕ) (ms : List Parsed) (done : List ℕ)
      → faults cb n ms ≡ true
      → Throws (process R rd sc show_id cb n ms done)
  unfolding process faults
  process-Throws cb n [] done h = ground (arith, h)
  process-Throws cb n (m ∷ ms) done h = elim (Bool-cases (cb.running n)) [
    | inr q ↦ ground (arith, h, q)
    | inl q ↦ rw q (elim (Bool-cases (lacks_type m.event)) [
      | inl t ↦ Throws-bind _ _ (handle_parsed-Throws m.key m.event t)
      | inr t ↦ Throws-bind_rest _ _ (λ _. elim (Bool-cases (cb.beats n)) [
        | inl b ↦
            Throws-bind_rest _ _
              (λ _. process-Throws cb (suc n) ms (m.offset ∷ done) (ground (arith, h, q, t, b)))
        | inr b ↦ rw b (Throws-bind _ _ answer-Throws)
      ])
    ])
  ]
