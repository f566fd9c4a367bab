-- ===== src/Rules/Laws.antt =====
-- What the rule ladder of rules.service.ts promises: consent, channel and cart gates.
use wince_backend.Prelude.{◌<◌, ◌≤◌, ◌≡◌, ◌≢◌, ◌⊎◌, Bool, true, false, Option, get_or, arith}
use wince_backend.Types.{
  InterventionType, InterventionChannel, EnrichedEvent, Policy, email, sms, in_shop, off_shop,
}
use wince_backend.Rules.{
  RuleResult, CustomerFeatures, intervention, evaluate, min_cart, discount_value, enable_email,
  enable_sms,
}

-- the types that in-shop and off-shop delivery accept
abbrev pub is_in_shop_type : InterventionType → Bool
is_in_shop_type email = false
is_in_shop_type sms = false
is_in_shop_type _ = true

abbrev pub is_in_shop : InterventionChannel → Bool
is_in_shop in_shop = true
is_in_shop off_shop = false

-- What a recommendation of the ladder may be, given the event and the policy.
pub record IsPermitted (event : EnrichedEvent) (policy : Option Policy) (r : RuleResult)
    : Type 0 where
  pub cart : min_cart policy < get_or event.cart_value 0
  pub active : (r.channel ≡ off_shop) ⊎ (event.session_available ≡ true)
  pub inactive : (r.channel ≡ in_shop) ⊎ (event.session_available ≡ false)
  pub email_consented :
      (r.type ≢ email) ⊎ ((event.email_consent ≡ true) × (enable_email policy ≡ true))
  pub sms_consented : (r.type ≢ sms) ⊎ ((event.sms_consent ≡ true) × (enable_sms policy ≡ true))
  pub fits : is_in_shop_type r.type ≡ is_in_shop r.channel
  pub value_capped : r.value ≤ discount_value policy

-- Whatever `evaluate` recommends, the cart is above the policy's minimum, the channel is in-shop
-- exactly for an active session, an e-mail or SMS has the customer's consent and the policy's
-- switch, the type belongs to its channel and the value is at most the policy's discount.
pub evaluate-IsPermitted :
    (event : EnrichedEvent) (features : CustomerFeatures) (policy : Option Policy) (r : RuleResult)
    → evaluate event features policy ≡ intervention r
    → IsPermitted event policy r
unfolding evaluate
evaluate-IsPermitted event features policy r h = ground arith
