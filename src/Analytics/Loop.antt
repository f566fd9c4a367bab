-- ===== src/Analytics/Loop.antt =====
-- `eachBatch` in apps/analytics-consumer/src/consumer.ts: the loop over a batch of messages and the
-- flushes by size and by time. It runs at one reading of the clock; what `isRunning`, the shutdown
-- flag and `isStale` say at each turn is a parameter, and so is whether each heartbeat succeeds.
pub mod Bounds
pub mod Resolved
pub mod Timed
use Prim.Native.String.{String}
use text.Mathlib.Text.{◌==◌ as str_eq}
use wince_backend.Prelude.{
  ℕ, suc, Bool, true, false, not, ◌&&◌, Option, none, some, get_or, List, [], ◌∷◌, if◌then◌else◌,
}
use wince_backend.Batcher.{
  Batcher, BatchOffset, add, is_empty, is_size_full, is_time_expired, drain, rollback,
}
use wince_backend.Analytics.{
  KafkaEnrichedEvent, EventRow, InterventionEventRow, to_click_house_row,
  is_intervention_lifecycle_event, parse_intervention_event_row, ParsedRow, no_intervention,
  range_error, parsed_row, Sink, Config, parse_error, send_to_dlq, resolve_offset, flush_batch,
  flush_intervention_batch,
}

pub record Message : Type 0 where
  pub offset : ℕ
  pub key : Option String
  pub value : Option String

-- What the guards at the top of a turn find: the loop goes on, the consumer is stopping, or its
-- partition was revoked.
pub data Turn : Type 0 where
  goes_on stopping stale : Turn

pub record Run : Type 0 where
  pub sink : Sink
  pub batcher : Batcher EventRow
  pub interventions : Batcher InterventionEventRow
  pub rows_added : ℕ
  pub intervention_rows_added : ℕ
  -- an error leaves the batch
  pub threw : Bool

-- The batch: its topic and partition, the time, and the functions of the platform.
pub record Batch : Type 0 where
  pub topic : String
  pub partition : ℕ
  pub now : ℕ
  -- `JSON.parse`, then the checks of types in `parseEnrichedEvent`
  pub parse_json : String → Option KafkaEnrichedEvent
  pub show_offset : ℕ → String
  -- whether the heartbeat after the n-th message succeeds
  pub beats : ℕ → Bool

-- the check of `parseEnrichedEvent` that the id is not empty
abbrev pub with_eid : Option KafkaEnrichedEvent → Option KafkaEnrichedEvent
with_eid none = none
with_eid (some e) = if str_eq e.eid "" then none else some e

abbrev pub parse_enriched_event :
    (String → Option KafkaEnrichedEvent) → Option String → Option KafkaEnrichedEvent
parse_enriched_event parse_json none = none
parse_enriched_event parse_json (some raw) = with_eid (parse_json raw)

module _ (cfg : Config) (b : Batch) where
  abbrev pub batch_offset : Message → BatchOffset
  batch_offset m = record { topic = b.topic; partition = b.partition; offset = m.offset }

  abbrev pub resolve : Message → Run → Run
  resolve m r = record r { sink = resolve_offset m.offset r.sink }

  -- `drain` and a flush of what it gave
  abbrev pub flush_events : Run → Run
  flush_events r =
      let (drained, emptied) = drain b.now r.batcher in
      record r { batcher = emptied; sink = flush_batch cfg drained.0 r.sink }

  abbrev pub flush_interventions : Run → Run
  flush_interventions r =
      let (drained, emptied) = drain b.now r.interventions in
      record r { interventions = emptied; sink = flush_intervention_batch cfg drained.0 r.sink }

  pub flush_full_events : Run → Run
  flush_full_events r =
      if is_size_full r.batcher then record (flush_events r) { rows_added = 0 } else r

  pub flush_full_interventions : Run → Run
  flush_full_interventions r =
      if is_size_full r.interventions
      then record (flush_interventions r) { intervention_rows_added = 0 }
      else r

  -- a row that is added, resolved, and flushed with the others when the batcher is full
  abbrev pub buffer_event : Message → EventRow → Run → Run
  buffer_event m row r = flush_full_events (
      resolve m
        (record r { batcher = add row (batch_offset m) r.batcher; rows_added = suc r.rows_added }))

  abbrev pub buffer_intervention : Message → InterventionEventRow → Run → Run
  buffer_intervention m row r = flush_full_interventions (
      resolve m (record r {
        interventions = add row (batch_offset m) r.interventions;
        intervention_rows_added = suc r.intervention_rows_added;
      }))

  abbrev pub throw_out : Run → Run
  throw_out r = record r { threw = true }

  abbrev pub handle_intervention : Message → ParsedRow → Run → Run
  handle_intervention m no_intervention r = resolve m r
  handle_intervention m range_error r = throw_out r
  handle_intervention m (parsed_row row) r = buffer_intervention m row r

  abbrev pub handle_row : Message → Option EventRow → Run → Run
  handle_row m none r = throw_out r
  handle_row m (some row) r = buffer_event m row r

  abbrev pub is_duplicate : String → Run → Bool
  is_duplicate eid r = cfg.enable_dedup && get_or (cfg.bf_exists r.sink.bloom eid) false

  unfoldable pub handle_event : Message → Option KafkaEnrichedEvent → Run → Run
  handle_event m none r =
      resolve m
        (record r { sink = send_to_dlq parse_error (get_or m.key (b.show_offset m.offset)) r.sink })
  handle_event m (some e) r =
      if is_duplicate e.eid r
      then resolve m r
      else if is_intervention_lifecycle_event e.t
      then handle_intervention m (parse_intervention_event_row e) r
      else handle_row m (to_click_house_row e) r

  abbrev pub stop_run : Run → Run
  stop_run r = record r {
    batcher = rollback r.rows_added r.batcher;
    interventions = rollback r.intervention_rows_added r.interventions;
  }

  abbrev pub discard_run : Run → Run
  discard_run r = record r {
    batcher = (drain b.now r.batcher).1;
    interventions = (drain b.now r.interventions).1;
  }

  -- the heartbeat after a message that did not throw, and the rest of the loop
  abbrev pub after_message : Bool → (Run → Run) → Run → Run
  after_message beat rest r = if r.threw then r else if beat then rest r else throw_out r

  -- one turn of the loop by its guards, where `rest` is the loop after the message
  abbrev pub take_turn : Turn → Bool → (Run → Run) → Message → Run → Run
  take_turn goes_on beat rest m r =
      after_message beat rest (handle_event m (parse_enriched_event b.parse_json m.value) r)
  take_turn stopping beat rest m r = stop_run r
  take_turn stale beat rest m r = discard_run r

  unfoldable pub process : (ℕ → Turn) → ℕ → List Message → Run → Run
  process turns n [] r = r
  process turns n (m ∷ ms) r = take_turn (turns n) (b.beats n) (process turns (suc n) ms) m r

  pub flush_expired_events : Run → Run
  flush_expired_events r =
      if not (is_empty r.batcher) && is_time_expired b.now r.batcher then flush_events r else r

  pub flush_expired_interventions : Run → Run
  flush_expired_interventions r =
      if not (is_empty r.interventions) && is_time_expired b.now r.interventions
      then flush_interventions r
      else r

  -- the flushes at the end of a batch
  abbrev pub flush_expired : Run → Run
  flush_expired r = flush_expired_interventions (flush_expired_events r)

  abbrev pub finish : Run → Run
  finish r = if r.threw then r else flush_expired r

  unfoldable pub each_batch :
      (ℕ → Turn) → List Message → Sink × Batcher EventRow × Batcher InterventionEventRow → Run
  each_batch turns ms (sink, events, interventions) = finish (
      process turns 0 ms (record {
        sink = sink;
        batcher = events;
        interventions = interventions;
        rows_added = 0;
        intervention_rows_added = 0;
        threw = false;
      }))
