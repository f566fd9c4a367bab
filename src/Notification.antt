-- ===== src/Notification.antt =====
-- apps/notification-service/src/notification: notification.service.ts, which sends one e-mail or SMS,
-- and retry.interceptor.ts, which retries it and reports what came of it. SendGrid, Twilio and Kafka
-- are counted calls that succeed or fail; templates, metrics and logs are left out.
pub mod Attempts
pub mod Dispatch
mod Tests
use Prim.Native.String.{String}
use text.Mathlib.Text.{◌==◌ as str_eq}
use wince_backend.Prelude.{
  ℕ, suc, ◌+◌, Bool, true, false, not, ◌&&◌, Option, none, some, List, [], ◌∷◌, ◌++◌, if◌then◌else◌,
}

pub data Channel : Type 0 where
  email sms : Channel

pub record NotificationRequest : Type 0 where
  pub intervention_id : String
  pub session_id : String
  pub type : Channel
  pub email_address : Option String
  pub phone : Option String
  pub email_consent : Bool
  pub sms_consent : Bool
  pub discount_code : Option String

pub record Config : Type 0 where
  pub sendgrid_api_key : Option String
  pub twilio_account_sid : Option String
  pub twilio_auth_token : Option String
  pub twilio_from_number : Option String

pub data SkipReason : Type 0 where
  no_consent no_email_address no_api_key no_phone no_credentials : SkipReason

pub data SendResult : Type 0 where
  delivered : SendResult
  skipped : SkipReason → SendResult
  threw : SendResult

-- What SendGrid or Twilio took. The text is a function of the template data, which stands here as its
-- discount code.
pub record Sent : Type 0 where
  pub channel : Channel
  pub to : String
  pub discount_code : Option String

pub data Outcome : Type 0 where
  was_delivered was_skipped failed : Outcome

pub record NotificationLog : Type 0 where
  pub intervention_id : String
  pub channel : Channel
  pub outcome : Outcome
  pub attempts : ℕ

pub record Post : Type 0 where
  -- whether the n-th request to a provider succeeds
  pub provider_up : ℕ → Bool
  pub provider_calls : ℕ
  pub sent : List Sent
  pub kafka_up : ℕ → Bool
  pub kafka_calls : ℕ
  pub logs : List NotificationLog
  pub dead_letters : List NotificationRequest

-- An absent or empty text is false.
abbrev pub is_truthy : Option String → Bool
is_truthy none = false
is_truthy (some t) = not (str_eq t "")

abbrev pub text_of : Option String → String
text_of none = ""
text_of (some t) = t

-- one request to a provider
pub post : Sent → Post → SendResult × Post
post m s =
    if s.provider_up s.provider_calls
    then (delivered, record s { sent = s.sent ++ m ∷ []; provider_calls = suc s.provider_calls })
    else (threw, record s { provider_calls = suc s.provider_calls })

module _ (cfg : Config) where
  pub send_email : NotificationRequest → Post → SendResult × Post
  send_email req s =
      if not req.email_consent
      then (skipped no_consent, s)
      else if not (is_truthy req.email_address)
      then (skipped no_email_address, s)
      else if not (is_truthy cfg.sendgrid_api_key)
      then (skipped no_api_key, s)
      else post
          (record {
            channel = email;
            to = text_of req.email_address;
            discount_code = req.discount_code;
          })
          s

  abbrev pub has_credentials : Bool
  has_credentials =
      is_truthy cfg.twilio_account_sid
      && is_truthy cfg.twilio_auth_token
      && is_truthy cfg.twilio_from_number

  pub send_sms : NotificationRequest → Post → SendResult × Post
  send_sms req s =
      if not req.sms_consent
      then (skipped no_consent, s)
      else if not (is_truthy req.phone)
      then (skipped no_phone, s)
      else if not has_credentials
      then (skipped no_credentials, s)
      else post
          (record { channel = sms; to = text_of req.phone; discount_code = req.discount_code }) s

  abbrev pub send_by : Channel → NotificationRequest → Post → SendResult × Post
  send_by email = send_email
  send_by sms = send_sms

  pub send : NotificationRequest → Post → SendResult × Post
  send req = send_by req.type req

  -- The end of the loop, or another attempt after a throw; a skip is not retried.
  abbrev pub after_send :
      SendResult → ℕ → (Post → (SendResult × ℕ) × Post) → Post → (SendResult × ℕ) × Post
  after_send threw attempts again s = again s
  after_send delivered attempts again s = ((delivered, attempts), s)
  after_send (skipped r) attempts again s = ((skipped r, attempts), s)

  -- one attempt, and another after each delay; with the number of attempts made
  pub attempt : List ℕ → ℕ → NotificationRequest → Post → (SendResult × ℕ) × Post
  attempt [] n req s = let (r, s') = send req s in ((r, suc n), s')
  attempt (d ∷ ds) n req s =
      let (r, s') = send req s in after_send r (suc n) (attempt ds (suc n) req) s'

  abbrev pub retry_delays : List ℕ
  retry_delays = 1000 ∷ 2000 ∷ 4000 ∷ []

  abbrev pub outcome_of : SendResult → Outcome
  outcome_of delivered = was_delivered
  outcome_of (skipped r) = was_skipped
  outcome_of threw = failed

  -- the message to the log topic, whose failure is swallowed
  pub produce_log : NotificationLog → Post → Post
  produce_log log s =
      if s.kafka_up s.kafka_calls
      then record s { logs = s.logs ++ log ∷ []; kafka_calls = suc s.kafka_calls }
      else record s { kafka_calls = suc s.kafka_calls }

  pub send_to_dlq : NotificationRequest → Post → Post
  send_to_dlq req s =
      if s.kafka_up s.kafka_calls
      then record s { dead_letters = s.dead_letters ++ req ∷ []; kafka_calls = suc s.kafka_calls }
      else record s { kafka_calls = suc s.kafka_calls }

  abbrev pub finish : Outcome → NotificationRequest → Post → Post
  finish failed req s = send_to_dlq req s
  finish _ req s = s

  abbrev pub log_of : NotificationRequest → SendResult → ℕ → NotificationLog
  log_of req r attempts = record {
    intervention_id = req.intervention_id;
    channel = req.type;
    outcome = outcome_of r;
    attempts = attempts;
  }

  pub dispatch : NotificationRequest → Post → Post
  dispatch req s =
      let (result, s') = attempt retry_delays 0 req s in
      finish (outcome_of result.0) req (produce_log (log_of req result.0 result.1) s')
