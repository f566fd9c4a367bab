-- ===== src/Fixture.antt =====
-- The data of the tests: a store with a policy, a customer with a session, and a world that reaches
-- Redis, the database and Kafka.
use Prim.Native.String.{String}
use wince_backend.Prelude.{ℕ, pos, true, false, Option, none, some, [], ◌==◌, if◌then◌else◌}
use wince_backend.Types.{EnrichedEvent, Policy, manual, per_day, price_reduction, in_shop}
use wince_backend.Redis.Memory.{memory, empty}
use wince_backend.World.{World, Recommendation, pending, SessionHash}
use wince_backend.Orchestrator.{Readers, Source, recommendation, manual_order}

abbrev pub policy : Policy
policy = record {
  cooldown_seconds = 3600;
  min_cart_value = 1000;
  max_daily_budget_amount = 10000;
  discount_value = 1500;
  pending_ttl_seconds = 1800;
  enable_in_shop = true;
  enable_email = false;
  enable_sms = false;
  approval_mode = manual;
  approval_timeout_seconds = 600;
  budget_mode = per_day;
}

abbrev source_id : Source → String
source_id (recommendation id) = "rec"
source_id (manual_order s t c) = "order"

abbrev pub readers : Readers
readers = record {
  policy_of = λ _. some policy;
  variant_of = λ _ _. "control";
  intervention_id = λ source _. source_id source;
  code_of = λ _ _. "SAVE15";
  show_uuid = λ _. "7d444840-9dc0-11d1-b245-5ffdce74fad2";
}

abbrev pub offer : Recommendation
offer = record {
  id = 7;
  store_id = 1;
  session_id = "s1";
  distinct_id = "d1";
  customer_id = some (pos 42);
  risk_score = 850000;
  type = price_reduction;
  channel = in_shop;
  value = some 1500;
  status = pending;
  expires_at = 600000;
  trigger_reason = some "exit_intent";
  intervention_id = none;
}

abbrev rows : ℕ → Option Recommendation
rows id = if id == 7 then some offer else none

abbrev pub session : SessionHash
session = record {
  store_id = some 1;
  distinct_id = some "d1";
  customer_id = some (pos 42);
  anon = some "a1";
  uid = none;
  cart_value = some 9000;
  rage_click_count = some 0;
  last_activity = some 1000;
  is_frustrated = true;
  email_consent = true;
  sms_consent = false;
}

abbrev pub world : World memory
world = record {
  now = 2000;
  store = empty;
  redis_up = λ _. true;
  redis_calls = 0;
  db_up = λ _. true;
  db_calls = 0;
  uuids = λ n. n;
  drawn = 100;
  recommendations = rows;
  interventions = [];
  discount_codes = [];
  deliveries = [];
  heartbeats = [];
  sessions = λ _. some session;
  kafka_up = λ _. true;
  kafka_calls = 0;
  messages = [];
  audit_logs = [];
}

abbrev pub event : EnrichedEvent
event = record {
  eid = "e1";
  t = "$exit_intent";
  sid = "s1";
  anon = "a1";
  uid = some "d1";
  store_id = 1;
  customer_id = some (pos 42);
  cart_value = some 9000;
  rage_click_count = some 0;
  is_frustrated = true;
  email_consent = true;
  sms_consent = false;
  session_available = true;
  priority = some "high";
  feature_schema_version = none;
}
