-- ===== src/Notification/Tests.antt =====
-- An SMS that Twilio takes at the third attempt.
use wince_backend.Prelude.{ℕ, zero, suc, ◌≡◌, refl, Bool, true, false, some, none, []}
use wince_backend.Notification.{
  sms, NotificationRequest, Config, Post, post, send_sms, send, attempt, produce_log, dispatch,
}
use wince_backend.Notification.Dispatch.{IsDispatched, dispatch-IsDispatched}

abbrev config : Config
config = record {
  sendgrid_api_key = none;
  twilio_account_sid = some "AC1";
  twilio_auth_token = some "t";
  twilio_from_number = some "+1";
}

abbrev request : NotificationRequest
request = record {
  intervention_id = "i1";
  session_id = "s1";
  type = sms;
  email_address = some "a@b";
  phone = some "+2";
  email_consent = true;
  sms_consent = true;
  discount_code = some "SAVE";
}

abbrev third_up : ℕ → Bool
third_up (suc (suc zero)) = true
third_up _ = false

abbrev start : Post
start = record {
  provider_up = third_up;
  provider_calls = 0;
  sent = [];
  kafka_up = λ _. true;
  kafka_calls = 0;
  logs = [];
  dead_letters = [];
}

dispatch-IsDispatched_example : IsDispatched config request start (dispatch config request start)
dispatch-IsDispatched_example = dispatch-IsDispatched config request start refl refl

three_attempts : (dispatch config request start).provider_calls ≡ 3
unfolding dispatch attempt send send_sms post produce_log
three_attempts = refl
