-- ===== src/SessionFeatures.antt =====
-- apps/decision-engine/src/services/session-features.service.ts: the state of a session, read from
-- its Redis hash, and the event that stands for it in a re-evaluation.
use Prim.Native.String.{String}
use text.Mathlib.Text.{◌==◌ as str_eq}
use wince_backend.Prelude.{
  ℕ, ◌+◌, ℤ, Bool, ◌&&◌, ◌||◌, Option, none, some, get_or, ltb, ◌==◌, if◌then◌else◌,
}
use wince_backend.Types.{EnrichedEvent}
use wince_backend.Redis.{Redis}
use wince_backend.World.{World, SessionHash}
use wince_backend.World.Monad.{M, ◌>>=◌, pure, gets, try_catch, redis_call}

pub record SessionContext : Type 0 where
  pub sid : String
  pub store_id : ℕ
  pub customer_id : Option ℤ
  pub distinct_id : String
  pub anon : String
  pub uid : Option String
  pub email_consent : Bool
  pub sms_consent : Bool
  pub cart_value : ℕ
  pub rage_click_count : ℕ
  pub last_activity : ℕ
  pub is_frustrated : Bool
  pub session_available : Bool

abbrev non_empty : Option String → Option String
non_empty none = none
non_empty (some u) = if str_eq u "" then none else some u

-- `Date.now() - lastActivity < 120_000`, also where the activity lies ahead of the clock
abbrev pub is_recent : ℕ → ℕ → Bool
is_recent now last_activity = ltb 0 last_activity && ltb now (last_activity + 120000)

abbrev context_of_hash : ℕ → String → Option SessionHash → Option SessionContext
context_of_hash now sid none = none
context_of_hash now sid (some h) =
    if get_or h.store_id 0 == 0 || str_eq (get_or h.distinct_id "") ""
    then none
    else some (record {
      sid = sid;
      store_id = get_or h.store_id 0;
      customer_id = h.customer_id;
      distinct_id = get_or h.distinct_id "";
      anon = get_or h.anon (get_or h.distinct_id "");
      uid = non_empty h.uid;
      email_consent = h.email_consent;
      sms_consent = h.sms_consent;
      cart_value = get_or h.cart_value 0;
      rage_click_count = get_or h.rage_click_count 0;
      last_activity = get_or h.last_activity 0;
      is_frustrated = h.is_frustrated;
      session_available = is_recent now (get_or h.last_activity 0);
    })

module _ (R : Redis) where
  unfoldable pub get_session_context : String → M R (Option SessionContext)
  get_session_context session_id =
      try_catch
        (do
          hash ← gets (λ (w : World R). w.sessions session_id)
          now ← redis_call (λ now s. (now, s))
          pure (context_of_hash now session_id hash))
        (pure none)

-- The event of a re-evaluation; `show_eid` is the text of its identifier.
unfoldable pub to_enriched_event : (String → String) → SessionContext → EnrichedEvent
to_enriched_event show_eid ctx = record {
  eid = show_eid ctx.sid;
  t = "idle_timeout";
  sid = ctx.sid;
  anon = ctx.anon;
  uid = ctx.uid;
  store_id = ctx.store_id;
  customer_id = ctx.customer_id;
  cart_value = some ctx.cart_value;
  rage_click_count = some ctx.rage_click_count;
  is_frustrated = ctx.is_frustrated;
  email_consent = ctx.email_consent;
  sms_consent = ctx.sms_consent;
  session_available = ctx.session_available;
  priority = none;
  feature_schema_version = none;
}
