-- ===== src/Consumer.antt =====
-- apps/decision-engine/src/kafka/decision.consumer.ts: one batch of enriched events, which is
-- processed in the order of priority and resolved in the order of the partition. The parser of
-- JSON is a parameter, and so is what the callbacks of KafkaJS answer. A priority that is the name of
-- a member of Object.prototype is left aside, and so is JSON whose other fields have wrong types.
mod Tests
pub mod Order
pub mod Resolve
pub mod Faults
pub mod Batch
use Prim.Native.String.{String}
use text.Mathlib.Text.{◌==◌ as str_eq}
use wince_backend.Prelude.{
  ℕ, suc, ℤ, Bool, true, false, ◌||◌, Option, none, some, List, [], ◌∷◌, map, any, leb, ◌==◌,
  if◌then◌else◌,
}
use wince_backend.Types.{EnrichedEvent, canonical_event_type}
use wince_backend.Redis.{Redis}
use wince_backend.World.{World, dead_letter}
use wince_backend.World.Monad.{
  M, Error, kafka_error, type_error, ◌>>=◌, ◌>>◌, pure, throw, try_with, try_catch, send,
}
use wince_backend.Lock
use wince_backend.Scheduler
use wince_backend.Orchestrator.{Readers}
use wince_backend.Orchestrator.Decide.{Scorers, decide}

abbrev pub named_rank : String → ℕ
named_rank p =
    if str_eq p "critical"
    then 0
    else if str_eq p "high"
    then 1
    else if str_eq p "normal"
    then 2
    else 3

-- `priorityRankOf`: lower comes first
abbrev pub priority_rank : Option String → ℕ
priority_rank none = 3
priority_rank (some p) = named_rank p

-- What `JSON.parse` gives, cast to an event: `has_type` says whether its `t` is a text.
pub record Incoming : Type 0 where
  pub event : EnrichedEvent
  pub has_type : Bool

-- What the callbacks of KafkaJS come to in a batch: whether the loop goes on at its n-th turn, whether
-- the heartbeat after it succeeds, and whether the commit at the end does.
pub record Callbacks : Type 0 where
  pub running : ℕ → Bool
  pub beats : ℕ → Bool
  pub commits : Bool

-- A message with its value parsed; `event` is none where there is no value or no valid JSON, and for
-- null.
pub record Parsed : Type 0 where
  pub offset : ℕ
  pub key : String
  pub raw : Option String
  pub event : Option Incoming

abbrev pub event_priority : Option Incoming → Option String
event_priority none = none
event_priority (some i) = i.event.priority

pub rank : Parsed → ℕ
rank m = priority_rank (event_priority m.event)

-- `if (rawStr)` and `JSON.parse`
abbrev pub parse_raw : (String → Option Incoming) → Option String → Option Incoming
parse_raw parse_json none = none
parse_raw parse_json (some raw) = if str_eq raw "" then none else parse_json raw

pub record Message : Type 0 where
  pub offset : ℕ
  pub key : Option String
  pub value : Option String

abbrev pub key_or_unknown : Option String → String
key_or_unknown none = "unknown"
key_or_unknown (some k) = k

abbrev pub parse_message : (String → Option Incoming) → Message → Parsed
parse_message parse_json m = record {
  offset = m.offset;
  key = key_or_unknown m.key;
  raw = m.value;
  event = parse_raw parse_json m.value;
}

-- The stable sort of `Array.prototype.sort` by the rank: equal ranks keep their order.
pub insert_by_rank : Parsed → List Parsed → List Parsed
insert_by_rank m [] = m ∷ []
insert_by_rank m (n ∷ ns) =
    let rest = insert_by_rank m ns in if leb (rank m) (rank n) then m ∷ n ∷ ns else n ∷ rest

pub sort_by_rank : List Parsed → List Parsed
sort_by_rank [] = []
sort_by_rank (m ∷ ms) = insert_by_rank m (sort_by_rank ms)

abbrev pub retry_delays : List ℕ
retry_delays = 100 ∷ 200 ∷ 400 ∷ []

abbrev pub is_trigger : String → Bool
is_trigger t = str_eq t "checkout_abandon" || str_eq t "exit_intent" || str_eq t "user_idle"

-- the longest prefix of the batch that is done
pub resolve_prefix : List ℕ → List Parsed → List ℕ
resolve_prefix done [] = []
resolve_prefix done (m ∷ ms) =
    let rest = resolve_prefix done ms in
    if any (λ o. o == m.offset) done then m.offset ∷ rest else []

module _ {R : Redis} {A : Type 0} where
  -- `withRetry`: one attempt, and another after each delay
  pub with_retry : List ℕ → M R A → M R A
  with_retry [] fn = fn
  with_retry (d ∷ ds) fn = try_with fn (λ _. with_retry ds fn)

module _ (R : Redis) (rd : Readers) (sc : Scorers) (show_id : ℤ → String) where
  pub send_to_dlq : String → M R Unit
  send_to_dlq key = try_catch (send (dead_letter key)) (pure tt)

  -- an event with a customer
  pub handle_event : String → EnrichedEvent → ℤ → M R Unit
  handle_event key e c =
      if str_eq (canonical_event_type e.t) "purchase"
      then (do Lock.clear_user_sent R c; Scheduler.clear_user_sessions R show_id c e.store_id)
      else if is_trigger (canonical_event_type e.t)
      then try_with (with_retry retry_delays (decide R rd sc e)) (λ _. send_to_dlq key)
      else pure tt

  -- `canonicalEventType` throws on an event whose type is no text
  pub handle_typed : String → Incoming → ℤ → M R Unit
  handle_typed key i c = if i.has_type then handle_event key i.event c else throw type_error

  pub handle_customer : String → Incoming → Option ℤ → M R Unit
  handle_customer key i none = send_to_dlq key
  handle_customer key i (some c) = handle_typed key i c

  pub handle_parsed : String → Option Incoming → M R Unit
  handle_parsed key none = send_to_dlq key
  handle_parsed key (some i) = handle_customer key i i.event.customer_id

  -- `heartbeat` and `commitOffsetsIfNecessary`
  pub answer : Bool → M R Unit
  answer true = pure tt
  answer false = throw kafka_error

  -- the loop over the ordered messages; `done` is the set of the offsets that are done
  pub process : Callbacks → ℕ → List Parsed → List ℕ → M R (List ℕ)
  process cb n [] done = pure done
  process cb n (m ∷ ms) done =
      if cb.running n
      then (do
        handle_parsed m.key m.event
        answer (cb.beats n)
        process cb (suc n) ms (m.offset ∷ done))
      else pure done

  -- the offsets that a batch resolves, before it commits them
  pub resolve_batch : (String → Option Incoming) → Callbacks → List Message → M R (List ℕ)
  resolve_batch parse_json cb messages = do
    let parsed = map (parse_message parse_json) messages
    done ← process cb 0 (sort_by_rank parsed) []
    pure (resolve_prefix done parsed)

  pub each_batch : (String → Option Incoming) → Callbacks → List Message → M R (List ℕ)
  each_batch parse_json cb messages = do
    resolved ← resolve_batch parse_json cb messages
    answer cb.commits
    pure resolved
