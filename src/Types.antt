-- ===== src/Types.antt =====
-- packages/types/src/types/types.ts and the `Policy` interface of
-- apps/decision-engine/src/services/policy.service.ts: the data that the decision engine passes
-- around. Money is a number of cents, a probability or a score a number of millionths.
use Prim.Native.String.{String, len, slice}
use text.Mathlib.Text.{starts_with}
use wince_backend.Prelude.{ℕ, ℤ, Bool, Option, if◌then◌else◌}

pub data InterventionType : Type 0 where
  popup countdown free_shipping price_reduction : InterventionType
  email sms : InterventionType

pub data InterventionChannel : Type 0 where
  in_shop off_shop : InterventionChannel

-- what the intervention gateway delivers to the shop's page
pub record InShopPayload : Type 0 where
  pub intervention_id : String
  pub type : InterventionType
  pub value : Option ℕ
  pub discount_code : Option String
  pub expires_at : Option String

pub record EnrichedEvent : Type 0 where
  pub eid : String
  pub t : String
  pub sid : String
  pub anon : String
  pub uid : Option String
  pub store_id : ℕ
  pub customer_id : Option ℤ
  pub cart_value : Option ℕ
  pub rage_click_count : Option ℕ
  pub is_frustrated : Bool
  pub email_consent : Bool
  pub sms_consent : Bool
  pub session_available : Bool
  pub priority : Option String
  pub feature_schema_version : Option String

pub data ApprovalMode : Type 0 where
  manual auto_if_budget auto_always : ApprovalMode

pub data BudgetMode : Type 0 where
  per_day per_campaign unlimited : BudgetMode

pub record Policy : Type 0 where
  pub cooldown_seconds : ℕ
  pub min_cart_value : ℕ
  pub max_daily_budget_amount : ℕ
  pub discount_value : ℕ
  pub pending_ttl_seconds : ℕ
  pub enable_in_shop : Bool
  pub enable_email : Bool
  pub enable_sms : Bool
  pub approval_mode : ApprovalMode
  pub approval_timeout_seconds : ℕ
  pub budget_mode : BudgetMode

-- 1.0 and 0.6
abbrev pub one : ℕ
one = 1000000

abbrev pub risk_threshold : ℕ
risk_threshold = 600000

-- The browser's event names carry `$` or `$cart_` in front of the bare name.
unfoldable pub canonical_event_type : String → String
canonical_event_type t =
    if starts_with t "$cart_"
    then slice t 6 (len t)
    else if starts_with t "$"
    then slice t 1 (len t)
    else t
