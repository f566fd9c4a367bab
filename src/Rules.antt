-- ===== src/Rules.antt =====
-- apps/decision-engine/src/services/rules.service.ts: `RuleEngine`, a pure ladder of rules.
mod Tests
pub mod Laws
use text.Mathlib.Text.{◌==◌ as str_eq}
use wince_backend.Prelude.{
  ℕ, ◌*◌, Bool, true, false, not, ◌&&◌, Option, none, some, get_or, leb, ltb, if◌then◌else◌,
}
use wince_backend.Types.{
  InterventionType, InterventionChannel, EnrichedEvent, Policy, popup, countdown, free_shipping,
  price_reduction, email, sms, in_shop, off_shop, canonical_event_type,
}

pub record RuleResult : Type 0 where
  pub channel : InterventionChannel
  pub type : InterventionType
  pub value : ℕ
  pub confidence : ℕ

-- `shouldIntervene: false`, or `shouldIntervene: true` with the recommendation
pub data EvaluationResult : Type 0 where
  no_intervention : EvaluationResult
  intervention : RuleResult → EvaluationResult

pub record CustomerFeatures : Type 0 where
  pub abandonment_rate_7d : ℕ
  pub avg_cart_value_30d : ℕ

-- `policy?.minCartValue ?? 10`, in cents, and the other defaults
abbrev pub min_cart : Option Policy → ℕ
min_cart none = 1000
min_cart (some p) = p.min_cart_value

abbrev pub discount_value : Option Policy → ℕ
discount_value none = 1000
discount_value (some p) = p.discount_value

abbrev pub enable_email : Option Policy → Bool
enable_email none = false
enable_email (some p) = p.enable_email

abbrev pub enable_sms : Option Policy → Bool
enable_sms none = false
enable_sms (some p) = p.enable_sms

abbrev pub recommend : InterventionChannel → InterventionType → ℕ → ℕ → EvaluationResult
recommend channel type value confidence =
    intervention (record { channel = channel; type = type; value = value; confidence = confidence })

-- the ladder below the cart gate when no session is active
evaluate_off_shop : EnrichedEvent → Option Policy → EvaluationResult
evaluate_off_shop event policy =
    if enable_email policy && event.email_consent
    then recommend off_shop email (discount_value policy) 700000
    else if enable_sms policy && event.sms_consent
    then recommend off_shop sms (discount_value policy) 600000
    else no_intervention

-- the ladder below the cart gate when the session is active
evaluate_in_shop : EnrichedEvent → Bool → Option Policy → EvaluationResult
evaluate_in_shop event high_abandonment policy =
    if event.is_frustrated && high_abandonment
    then recommend in_shop price_reduction (discount_value policy) 850000
    else if high_abandonment
    then recommend in_shop free_shipping 0 700000
    else if event.is_frustrated
    then recommend in_shop countdown (discount_value policy) 550000
    else if ltb (min_cart policy * 3) (get_or event.cart_value 0)
    then recommend in_shop popup (discount_value policy) 450000
    else no_intervention

unfoldable pub evaluate : EnrichedEvent → CustomerFeatures → Option Policy → EvaluationResult
unfolding evaluate_off_shop evaluate_in_shop
evaluate event features policy =
    if leb (get_or event.cart_value 0) (min_cart policy)
    then no_intervention
    else if not event.session_available
    then evaluate_off_shop event policy
    else evaluate_in_shop event (ltb 500000 features.abandonment_rate_7d) policy

unfoldable pub evaluate_fallback : EnrichedEvent → Option Policy → EvaluationResult
evaluate_fallback event policy =
    let channel = if event.session_available then in_shop else off_shop in
    let type = if event.session_available then popup else email in
    if ltb (min_cart policy * 3) (get_or event.cart_value 0)
    then recommend channel type (discount_value policy) 850000
    else if ltb 2 (get_or event.rage_click_count 0)
    then recommend in_shop countdown (discount_value policy) 700000
    else if str_eq (canonical_event_type event.t) "exit_intent"
    then recommend in_shop popup (discount_value policy) 600000
    else no_intervention
