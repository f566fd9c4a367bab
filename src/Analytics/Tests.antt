-- ===== src/Analytics/Tests.antt =====
-- A flush that ClickHouse refuses, and a batch of one message.
use wince_backend.Prelude.{suc, ◌<◌, ◌≡◌, refl, arith, true, false, none, some, List, [], ◌∷◌, ◌++◌}
use wince_backend.Batcher.{Batcher}
use wince_backend.Analytics.{
  Sink, Config, EventRow, InterventionEventRow, KafkaEnrichedEvent, is_intervention_lifecycle_event,
  flush_batch,
}
use wince_backend.Analytics.Flush.{inserted, flush_batch-outcome}
use wince_backend.Analytics.Loop.{
  Message, goes_on, stopping, Batch, process, handle_event, each_batch,
}
use wince_backend.Analytics.Loop.Bounds.{IsBounded, each_batch-IsBounded}
use wince_backend.Analytics.Loop.Resolved.{ResolvesPrefix, each_batch-prefix}
use wince_backend.Analytics.Loop.Timed.{each_batch-Resolves}

abbrev config : Config
config = record {
  max_retries = 3;
  enable_dedup = true;
  bf_add = λ ids id. id ∷ ids;
  bf_exists = λ _ _. some false;
}

-- ClickHouse is down
abbrev sink : Sink
sink = record {
  insert_up = λ _. false;
  insert_calls = 0;
  events = [];
  intervention_events = [];
  db_up = λ _. true;
  db_calls = 0;
  mirror = [];
  dlq_up = λ _. true;
  dlq_calls = 0;
  dead_letters = [];
  commit_up = λ _. true;
  commit_calls = 0;
  resolved = 4 ∷ [];
  committed = [];
  bloom = [];
}

abbrev seen : KafkaEnrichedEvent
seen = record {
  eid = "e1";
  t = "page_view";
  sid = "s1";
  anon = "a1";
  store_id = 1;
  valid_ts = true;
  intervention_id = none;
}

abbrev row : EventRow
row = record { eid = "e1"; t = "page_view"; sid = "s1"; anon = "a1"; store_id = 1 }

abbrev batch : Batch
batch = record {
  topic = "enriched.events";
  partition = 0;
  now = 100;
  parse_json = λ _. some seen;
  show_offset = λ _. "5";
  beats = λ _. true;
}

abbrev events : Batcher EventRow
events = record {
  rows = [];
  offsets = [];
  last_drain_at = 0;
  batch_size = 2;
  batch_timeout_ms = 1000;
}

abbrev lifecycle : Batcher InterventionEventRow
lifecycle = record {
  rows = [];
  offsets = [];
  last_drain_at = 0;
  batch_size = 2;
  batch_timeout_ms = 1000;
}

abbrev messages : List Message
messages = record { offset = 5; key = none; value = some "event" } ∷ []

-- the one row is lost: it is neither in the table nor among the dead letters
flush_batch-outcome_example :
    let s' = flush_batch config (row ∷ []) sink in
    (s'.events ≡ sink.events ++ inserted (sink.insert_up sink.insert_calls) (row ∷ []))
    × (s'.dead_letters ≡ sink.dead_letters)
    × (s'.committed ≡ sink.resolved)
    × (s'.insert_calls ≡ suc sink.insert_calls)
flush_batch-outcome_example = flush_batch-outcome config row [] sink 2 refl refl

each_batch-Resolves_example :
    ((each_batch config batch (λ _. goes_on) messages (sink, events, lifecycle)).threw ≡ false)
    × ((each_batch config batch (λ _. goes_on) messages (sink, events, lifecycle)).sink.resolved
        ≡ 4 ∷ 5 ∷ [])
each_batch-Resolves_example =
    each_batch-Resolves config batch (λ _. goes_on) messages sink events lifecycle (λ _. refl)
      (λ _. refl) (refl, tt)

-- a message without a valid time
abbrev late_batch : Batch
late_batch = record batch { parse_json = λ _. some (record seen { valid_ts = false }) }

each_batch-prefix_example :
    ResolvesPrefix config late_batch
      (4 ∷ [])
      messages
      (each_batch config late_batch (λ _. goes_on) messages (sink, events, lifecycle)).sink
each_batch-prefix_example =
    each_batch-prefix config late_batch (λ _. goes_on) messages sink events lifecycle

-- Its batch throws and resolves nothing.
untimed :
    let r = each_batch config late_batch (λ _. goes_on) messages (sink, events, lifecycle) in
    (r.threw ≡ true) × (r.sink.resolved ≡ 4 ∷ [])
unfolding each_batch process handle_event is_intervention_lifecycle_event
untimed = (refl, refl)

below : 0 < 2
below = omega arith

each_batch-IsBounded_example :
    IsBounded (each_batch config batch (λ _. stopping) messages (sink, events, lifecycle))
each_batch-IsBounded_example =
    each_batch-IsBounded config batch (λ _. stopping) messages sink events lifecycle below below
