-- ===== src/Orchestrator/Quiet.antt =====
-- The parts of intervention.service.ts that send nothing to the gateway or the notification
-- service.
use Prim.Native.String.{String}
use wince_backend.Prelude.{ℕ, ℤ, ◌≡◌, Option, none, some, List}
use wince_backend.Types.{InterventionType, InterventionChannel}
use wince_backend.Redis.{Redis}
use wince_backend.World.{World, Delivery, Intervention, Recommendation, Heartbeat}
use wince_backend.World.Monad.Keeps.{Keeps, IsBlind, keeps_rules}
use wince_backend.Lock
use wince_backend.Cooldown
use wince_backend.Budget
use wince_backend.Outbound
use wince_backend.Recommendation
use wince_backend.SessionFeatures
use wince_backend.Orchestrator.{
  Readers, clear_heartbeat, let_go, validate, start_heartbeat, discount_code, unless_sent,
  with_customer, unless_expired, validate_row,
}

-- `P` says nothing of the connections, the log of interventions, and the codes.
pub record IsQuiet {R : Redis} (P : World R → Type 0) : Type 0 where
  pub blind : IsBlind P
  pub interventions_blind :
      (w : World R) (l : List Intervention) → P w → P (record w { interventions = l })
  pub codes_blind : (w : World R) (l : List String) → P w → P (record w { discount_codes = l })

-- Nor does it speak of the timers.
pub record IsTimerless {R : Redis} (P : World R → Type 0) : Type 0 where
  pub quiet : IsQuiet P
  pub heartbeats_blind : (w : World R) (l : List Heartbeat) → P w → P (record w { heartbeats = l })

-- Nor does it speak of the recommendations.
pub record IsRowless {R : Redis} (P : World R → Type 0) : Type 0 where
  pub quiet : IsQuiet P
  pub rows_blind :
      (w : World R) (f : ℕ → Option Recommendation) → P w → P (record w { recommendations = f })

module _ (R : Redis) {P : World R → Type 0} where
  pub acquire_quiet : IsQuiet P → (u : ℤ) → Keeps P (Lock.acquire_user_lock R u)
  unfolding Lock.acquire_user_lock
  acquire_quiet q u = search (keeps_rules, q.blind)

  pub release_quiet : IsQuiet P → (u : ℤ) (k : ℕ) → Keeps P (Lock.release_user_lock R u k)
  unfolding Lock.release_user_lock
  release_quiet q u k = search (keeps_rules, q.blind)

  pub is_sent_quiet : IsQuiet P → (u : ℤ) → Keeps P (Lock.is_sent R u)
  unfolding Lock.is_sent
  is_sent_quiet q u = search (keeps_rules, q.blind)

  pub mark_sent_quiet : IsQuiet P → (u : ℤ) → Keeps P (Lock.mark_sent R u)
  unfolding Lock.mark_sent
  mark_sent_quiet q u = search (keeps_rules, q.blind)

  pub is_on_cooldown_quiet : IsQuiet P → (s : ℕ) (u : ℤ) → Keeps P (Cooldown.is_on_cooldown R s u)
  unfolding Cooldown.is_on_cooldown
  is_on_cooldown_quiet q s u = search (keeps_rules, q.blind)

  pub set_cooldown_quiet :
      IsQuiet P → (s : ℕ) (u : ℤ) (t : ℕ) → Keeps P (Cooldown.set_cooldown R s u t)
  unfolding Cooldown.set_cooldown
  set_cooldown_quiet q s u t = search (keeps_rules, q.blind)

  pub reserve_quiet : IsQuiet P → (s x m : ℕ) → Keeps P (Budget.check_and_reserve R s x m)
  unfolding Budget.check_and_reserve
  reserve_quiet q s x m = search (keeps_rules, q.blind) depth 9

  pub context_quiet :
      IsQuiet P → (sid : String) → Keeps P (SessionFeatures.get_session_context R sid)
  unfolding SessionFeatures.get_session_context
  context_quiet q sid = search (keeps_rules, q.blind)

  -- what says nothing of the deliveries
  pub route_quiet :
      ((w : World R) (l : List Delivery) → P w → P (record w { deliveries = l }))
      → (d : Delivery) → Keeps P (Outbound.route R d)
  unfolding Outbound.route
  route_quiet blind d = search (keeps_rules, blind)

  pub write_quiet : IsQuiet P → (i : Intervention) → Keeps P (Outbound.write R i)
  unfolding Outbound.write
  write_quiet q i = search (keeps_rules, q.blind, q.interventions_blind)

  pub mark_delivered_quiet : IsQuiet P → (i : String) → Keeps P (Outbound.mark_delivered R i)
  unfolding Outbound.mark_delivered
  mark_delivered_quiet q i = search (keeps_rules, q.blind, q.interventions_blind)

  pub code_quiet : IsQuiet P → (f : ℕ → ℕ → String) (s : ℕ) → Keeps P (Outbound.generate_code R f s)
  unfolding Outbound.generate_code
  code_quiet q f s = search (keeps_rules, q.blind, q.codes_blind)

  pub get_quiet : IsQuiet P → (id : ℕ) → Keeps P (Recommendation.get R id)
  unfolding Recommendation.get
  get_quiet q id = search (keeps_rules, q.blind)

  pub mark_executed_quiet :
      IsRowless P → (id : ℕ) (i : String) → Keeps P (Recommendation.mark_executed R id i)
  unfolding Recommendation.mark_executed
  mark_executed_quiet q id i = search (keeps_rules, q.quiet.blind, q.rows_blind)

  pub mark_expired_quiet :
      IsRowless P → (f : ℕ → String) (id s : ℕ) → Keeps P (Recommendation.mark_expired R f id s)
  unfolding Recommendation.mark_expired
  mark_expired_quiet q f id s = search (keeps_rules, q.quiet.blind, q.rows_blind)

pub ruleset quiet_rules = (
  keeps_rules, acquire_quiet, release_quiet, is_sent_quiet, mark_sent_quiet, is_on_cooldown_quiet,
  set_cooldown_quiet, reserve_quiet, context_quiet, write_quiet, mark_delivered_quiet, code_quiet,
  get_quiet, mark_executed_quiet, mark_expired_quiet,
)

module _ (R : Redis) (rd : Readers) {P : World R → Type 0} where
  pub clear_heartbeat_quiet : IsTimerless P → (u : ℤ) (k : ℕ) → Keeps P (clear_heartbeat R rd u k)
  unfolding clear_heartbeat
  clear_heartbeat_quiet q u k = search (keeps_rules, q.heartbeats_blind)

  pub let_go_quiet : IsTimerless P → (u v : ℤ) (k : ℕ) → Keeps P (let_go R rd u v k)
  unfolding let_go
  let_go_quiet q u v k = search (quiet_rules, clear_heartbeat_quiet)

  pub start_heartbeat_quiet : IsTimerless P → (u : ℤ) (k : ℕ) → Keeps P (start_heartbeat R rd u k)
  unfolding start_heartbeat
  start_heartbeat_quiet q u k = search (keeps_rules, q.heartbeats_blind)

  pub discount_code_quiet :
      IsQuiet P
      → (t : InterventionType) (c : InterventionChannel) (s : ℕ)
      → Keeps P (discount_code R rd t c s)
  unfolding discount_code
  discount_code_quiet q t c s = search quiet_rules

  unless_sent_quiet :
      IsQuiet P → (id : ℕ) (rec : Recommendation) (c : ℤ) → Keeps P (unless_sent R rd id rec c)
  unfolding unless_sent
  unless_sent_quiet q id rec c = search quiet_rules depth 9

  with_customer_quiet :
      IsQuiet P
      → (id : ℕ) (rec : Recommendation) (c : Option ℤ) → Keeps P (with_customer R rd id rec c)
  unfolding with_customer
  with_customer_quiet q id rec none = search quiet_rules
  with_customer_quiet q id rec (some c) = unless_sent_quiet q id rec c

  unless_expired_quiet :
      IsRowless P → (id : ℕ) (rec : Recommendation) (t : ℕ) → Keeps P (unless_expired R rd id rec t)
  unfolding unless_expired
  unless_expired_quiet q id rec t = search (quiet_rules, with_customer_quiet) depth 9

  validate_row_quiet :
      IsRowless P → (id : ℕ) (row : Option Recommendation) → Keeps P (validate_row R rd id row)
  unfolding validate_row
  validate_row_quiet q id none = search quiet_rules
  validate_row_quiet q id (some rec) = search (quiet_rules, unless_expired_quiet) depth 9

  pub validate_quiet : IsRowless P → (id : ℕ) → Keeps P (validate R rd id)
  unfolding validate
  validate_quiet q id = search (quiet_rules, validate_row_quiet) depth 9

module _ {R : Redis} (l : List Delivery) where
  -- The deliveries so far are `l`.
  abbrev pub Sent : World R → Type 0
  Sent w = w.deliveries ≡ l

  pub Sent-IsQuiet : IsQuiet Sent
  Sent-IsQuiet = record {
    blind = record {
      store_blind = λ w s n h. h;
      redis_blind = λ w n h. h;
      db_blind = λ w n h. h;
      kafka_blind = λ w n h. h;
      messages_blind = λ w m n h. h;
      uuid_blind = λ w n h. h;
    };
    interventions_blind = λ w i h. h;
    codes_blind = λ w c h. h;
  }

  pub Sent-IsTimerless : IsTimerless Sent
  Sent-IsTimerless = record { quiet = Sent-IsQuiet; heartbeats_blind = λ w t h. h }

  pub Sent-IsRowless : IsRowless Sent
  Sent-IsRowless = record { quiet = Sent-IsQuiet; rows_blind = λ w f h. h }
