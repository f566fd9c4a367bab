-- ===== src/Analytics.antt =====
-- apps/analytics-consumer/src/consumer.ts with types.ts and intervention-events.ts: enriched events
-- are buffered as rows and flushed to ClickHouse, or sent to the dead letters. The parser of JSON
-- and the Bloom filter of Redis are parameters. Metrics, logs and the reconciliation are left out.
mod Tests
pub mod Flush
pub mod Offsets
pub mod Loop
use Prim.Native.String.{String, len, slice}
use text.Mathlib.Text.{◌==◌ as str_eq, starts_with}
use wince_backend.Prelude.{
  ℕ, zero, suc, ◌+◌, Bool, true, false, Option, none, some, List, [], ◌∷◌, ◌++◌, map, length, leb,
  if◌then◌else◌,
}
use wince_backend.Retry.{
  Attempt, RetryResult, success, exhausted, returned_undefined, execute_with_retry,
}
use wince_backend.Clickhouse.{BatchResult, batch_insert}
use wince_backend.Batcher.{Batcher}

pub record KafkaEnrichedEvent : Type 0 where
  pub eid : String
  pub t : String
  pub sid : String
  pub anon : String
  pub store_id : ℕ
  -- whether `new Date(ts)` is a time
  pub valid_ts : Bool
  -- `props['intervention_id']` where it is a text
  pub intervention_id : Option String

-- The identifying columns of the two tables.
pub record EventRow : Type 0 where
  pub eid : String
  pub t : String
  pub sid : String
  pub anon : String
  pub store_id : ℕ

pub record InterventionEventRow : Type 0 where
  pub event_id : String
  pub intervention_id : String
  pub store_id : ℕ
  pub distinct_id : String
  pub event_type : String

-- none where `toISOString` throws a RangeError
abbrev pub to_click_house_row : KafkaEnrichedEvent → Option EventRow
to_click_house_row e =
    if e.valid_ts
    then some (record { eid = e.eid; t = e.t; sid = e.sid; anon = e.anon; store_id = e.store_id })
    else none

-- What `parseInterventionEventRow` comes to: null for an event without an intervention, a throw of
-- `toISOString`, or a row.
pub data ParsedRow : Type 0 where
  no_intervention range_error : ParsedRow
  parsed_row : InterventionEventRow → ParsedRow

pub is_intervention_lifecycle_event : String → Bool
is_intervention_lifecycle_event t = starts_with t "$intervention_"

-- `typeof interventionId !== 'string' || interventionId.length === 0`
abbrev pub parse_intervention_event_row : KafkaEnrichedEvent → ParsedRow
parse_intervention_event_row e = row_for e e.intervention_id
  where
    row_for : KafkaEnrichedEvent → Option String → ParsedRow
    row_for e none = no_intervention
    row_for e (some i) =
        if str_eq i ""
        then no_intervention
        else if e.valid_ts
        then parsed_row (record {
          event_id = e.eid;
          intervention_id = i;
          store_id = e.store_id;
          distinct_id = e.anon;
          event_type = slice e.t 14 (len e.t);
        })
        else range_error

pub data DeadReason : Type 0 where
  parse_error batch_insert_failed intervention_batch_insert_failed : DeadReason

pub record DeadLetter : Type 0 where
  pub reason : DeadReason
  pub key : String

-- What lies outside the process: whether the n-th request of each kind succeeds, and what was kept.
pub record Sink : Type 0 where
  pub insert_up : ℕ → Bool
  pub insert_calls : ℕ
  pub events : List EventRow
  pub intervention_events : List InterventionEventRow
  pub db_up : ℕ → Bool
  pub db_calls : ℕ
  -- the mirror in PostgreSQL
  pub mirror : List InterventionEventRow
  pub dlq_up : ℕ → Bool
  pub dlq_calls : ℕ
  pub dead_letters : List DeadLetter
  pub commit_up : ℕ → Bool
  pub commit_calls : ℕ
  pub resolved : List ℕ
  pub committed : List ℕ
  -- the ids that were added to the Bloom filter
  pub bloom : List String

pub record Config : Type 0 where
  pub max_retries : ℕ
  pub enable_dedup : Bool
  -- `bfAdd` of an id to the ids so far, and `bfExists` of one, none where the request fails
  pub bf_add : List String → String → List String
  pub bf_exists : List String → String → Option Bool

-- `clickhouse.insert` of one chunk
pub insert_events : List EventRow → Sink → Bool × Sink
insert_events rows s =
    if s.insert_up s.insert_calls
    then (true, record s { events = s.events ++ rows; insert_calls = suc s.insert_calls })
    else (false, record s { insert_calls = suc s.insert_calls })

pub insert_intervention_events : List InterventionEventRow → Sink → Bool × Sink
insert_intervention_events rows s =
    if s.insert_up s.insert_calls
    then (
      true,
      record s {
        intervention_events = s.intervention_events ++ rows;
        insert_calls = suc s.insert_calls;
      },
    )
    else (false, record s { insert_calls = suc s.insert_calls })

-- `sendToDlq`, which swallows a failure
pub send_to_dlq : DeadReason → String → Sink → Sink
send_to_dlq reason key s =
    if s.dlq_up s.dlq_calls
    then record s {
      dead_letters = s.dead_letters ++ record { reason = reason; key = key } ∷ [];
      dlq_calls = suc s.dlq_calls;
    }
    else record s { dlq_calls = suc s.dlq_calls }

pub send_all : DeadReason → List String → Sink → Sink
send_all reason [] s = s
send_all reason (key ∷ keys) s = send_all reason keys (send_to_dlq reason key s)

-- `commitOffsetsIfNecessary`: what was resolved so far
pub commit : Sink → Bool × Sink
commit s =
    if s.commit_up s.commit_calls
    then (true, record s { committed = s.resolved; commit_calls = suc s.commit_calls })
    else (false, record s { commit_calls = suc s.commit_calls })

abbrev pub resolve_offset : ℕ → Sink → Sink
resolve_offset o s = record s { resolved = s.resolved ++ o ∷ [] }

module _ (cfg : Config) where
  pub add_all_eids : List EventRow → List String → List String
  add_all_eids [] bloom = bloom
  add_all_eids (row ∷ rows) bloom = add_all_eids rows (cfg.bf_add bloom row.eid)

  abbrev pub mark_inserted : List EventRow → Sink → Sink
  mark_inserted rows s =
      if cfg.enable_dedup then record s { bloom = add_all_eids rows s.bloom } else s

  -- the `catch` of a flush: every row to the dead letters, and a commit whose failure is swallowed
  abbrev pub give_up : DeadReason → List String → Sink → Sink
  give_up reason keys s = (commit (send_all reason keys s)).1

  abbrev pub after_event_commit : List EventRow → Bool × Sink → Sink
  after_event_commit rows (true, s) = mark_inserted rows s
  after_event_commit rows (false, s) = give_up batch_insert_failed (map (λ r. r.eid) rows) s

  abbrev pub after_event_insert : List EventRow → RetryResult BatchResult × Sink → Sink
  after_event_insert rows (success r, s) = after_event_commit rows (commit s)
  after_event_insert rows (exhausted, s) = give_up batch_insert_failed (map (λ r. r.eid) rows) s
  after_event_insert rows (returned_undefined, s) =
      give_up batch_insert_failed (map (λ r. r.eid) rows) s

  pub flush_batch : List EventRow → Sink → Sink
  flush_batch [] s = s
  flush_batch (row ∷ rows) s = after_event_insert (row ∷ rows) (
      execute_with_retry cfg.max_retries
        (batch_insert insert_events (length (row ∷ rows)) (row ∷ rows)) s)

  -- the mirror, whose failure is logged and skipped
  pub mirror_rows : List InterventionEventRow → Sink → Sink
  mirror_rows rows s =
      if s.db_up s.db_calls
      then record s { mirror = s.mirror ++ rows; db_calls = suc s.db_calls }
      else record s { db_calls = suc s.db_calls }

  abbrev pub after_intervention_commit : List InterventionEventRow → Bool × Sink → Sink
  after_intervention_commit rows (true, s) = mirror_rows rows s
  after_intervention_commit rows (false, s) =
      give_up intervention_batch_insert_failed (map (λ r. r.event_id) rows) s

  abbrev pub after_intervention_insert :
      List InterventionEventRow → RetryResult BatchResult × Sink → Sink
  after_intervention_insert rows (success r, s) = after_intervention_commit rows (commit s)
  after_intervention_insert rows (exhausted, s) =
      give_up intervention_batch_insert_failed (map (λ r. r.event_id) rows) s
  after_intervention_insert rows (returned_undefined, s) =
      give_up intervention_batch_insert_failed (map (λ r. r.event_id) rows) s

  pub flush_intervention_batch : List InterventionEventRow → Sink → Sink
  flush_intervention_batch [] s = s
  flush_intervention_batch (row ∷ rows) s = after_intervention_insert (row ∷ rows) (
      execute_with_retry cfg.max_retries
        (batch_insert insert_intervention_events (length (row ∷ rows)) (row ∷ rows)) s)
