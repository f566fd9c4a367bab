-- ===== src/World.antt =====
-- The state that a handler of apps/decision-engine sees and changes, and its effects: what the
-- asynchronous code reads, writes and throws. A handler runs to its end at one reading of the
-- clock and with no other handler between its awaits.
pub mod Monad
use Prim.Native.String.{String}
use wince_backend.Prelude.{ℕ, ◌/◌, ℤ, Bool, Option, List}
use wince_backend.Types.{InterventionType, InterventionChannel}
use wince_backend.Redis.{Redis}

-- The status column of `intervention_recommendations`.
pub data Status : Type 0 where
  pending approved rejected executed expired : Status

pub record Recommendation : Type 0 where
  pub id : ℕ
  pub store_id : ℕ
  pub session_id : String
  pub distinct_id : String
  pub customer_id : Option ℤ
  pub risk_score : ℕ
  pub type : InterventionType
  pub channel : InterventionChannel
  pub value : Option ℕ
  pub status : Status
  pub expires_at : ℕ
  pub trigger_reason : Option String
  pub intervention_id : Option String

-- A row of `interventions`.
pub record Intervention : Type 0 where
  pub intervention_id : String
  pub session_id : String
  pub store_id : ℕ
  pub type : InterventionType
  pub channel : InterventionChannel
  pub value : ℕ
  pub discount_code : Option String
  pub variant : String
  pub delivered : Bool

-- A request that left for the intervention gateway or the notification service.
pub record Delivery : Type 0 where
  pub channel : InterventionChannel
  pub session_id : String
  pub intervention_id : String
  pub type : InterventionType
  pub value : ℕ
  pub discount_code : Option String
  pub email_consent : Bool
  pub sms_consent : Bool

-- A running `setInterval` that renews the lock of a user by a token.
pub record Heartbeat : Type 0 where
  pub user : ℤ
  pub token : ℕ

-- The fields of a session's hash, with its numbers parsed; a field may be missing.
pub record SessionHash : Type 0 where
  pub store_id : Option ℕ
  pub distinct_id : Option String
  pub customer_id : Option ℤ
  pub anon : Option String
  pub uid : Option String
  pub cart_value : Option ℕ
  pub rage_click_count : Option ℕ
  pub last_activity : Option ℕ
  pub is_frustrated : Bool
  pub email_consent : Bool
  pub sms_consent : Bool

-- What the services send to Kafka.
pub data Message : Type 0 where
  recommendation_generated : ℕ → Message
  intervention_logged : String → Message
  dead_letter : String → Message

-- What the admin API logs of an administrator's order on a recommendation.
pub data Action : Type 0 where
  approve_recommendation reject_recommendation : Action

-- A row of `audit_logs`.
pub record AuditEntry : Type 0 where
  pub admin_user_id : ℕ
  pub action : Action
  pub target : ℕ
  pub success : Bool

pub record World (R : Redis) : Type 0 where
  -- `Date.now()`
  pub now : ℕ
  pub store : R.Store
  -- whether the n-th command reaches Redis, the n-th statement the database
  pub redis_up : ℕ → Bool
  pub redis_calls : ℕ
  pub db_up : ℕ → Bool
  pub db_calls : ℕ
  -- `randomUUID()`, and how many were drawn
  pub uuids : ℕ → ℕ
  pub drawn : ℕ
  pub recommendations : ℕ → Option Recommendation
  pub interventions : List Intervention
  -- the codes in `discount_codes`
  pub discount_codes : List String
  pub deliveries : List Delivery
  pub heartbeats : List Heartbeat
  -- the hashes `session:{sid}`, which the enrichment service writes
  pub sessions : String → Option SessionHash
  -- whether the n-th message reaches Kafka, and the messages that did
  pub kafka_up : ℕ → Bool
  pub kafka_calls : ℕ
  pub messages : List Message
  -- the rows of `audit_logs`, the latest first
  pub audit_logs : List AuditEntry

-- `new Date().toISOString().slice(0, 10)`, as the number of the day
abbrev pub today : {R : Redis} → World R → ℕ
today w = w.now / 86400000
