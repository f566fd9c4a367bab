-- ===== src/Notification/Dispatch.antt =====
-- What a dispatch of retry.interceptor.ts sends, logs and gives up.
use wince_backend.Prelude.{ℕ, suc, ◌≡◌, arith, true, List, [], ◌∷◌, ◌++◌, append-nil}
use wince_backend.Notification.{
  NotificationRequest, Config, SendResult, delivered, skipped, threw, Post, attempt, retry_delays,
  outcome_of, produce_log, send_to_dlq, finish, log_of, dispatch,
}
use wince_backend.Notification.Attempts.{
  messages_of, Consented, Calls, Counted, IsAttempt, attempt-AttemptRun, attempt-CountedRun,
}

module _ (cfg : Config) (req : NotificationRequest) where
  abbrev pub given_up : SendResult → List NotificationRequest
  given_up threw = req ∷ []
  given_up _ = []

  -- A dispatch from `s` to `s'`.
  pub record IsDispatched (s s' : Post) : Type 0 where
    pub result : SendResult
    pub attempts : ℕ
    pub sent : s'.sent ≡ s.sent ++ messages_of result req
    pub consented : Consented result req
    pub calls : Calls result 4 s.provider_calls s'.provider_calls
    pub counted : Counted result 0 attempts s.provider_calls s'.provider_calls
    pub logged : s'.logs ≡ s.logs ++ log_of cfg req result attempts ∷ []
    pub dead : s'.dead_letters ≡ s.dead_letters ++ given_up result

  finish-IsDispatched :
      (s s' : Post) (r : SendResult) (k : ℕ)
      → IsAttempt req 4 s r s'
      → Counted r 0 k s.provider_calls s'.provider_calls
      → s.kafka_up s.kafka_calls ≡ true
      → s.kafka_up (suc s.kafka_calls) ≡ true
      → IsDispatched s (finish cfg (outcome_of cfg r) req (produce_log cfg (log_of cfg req r k) s'))
  unfolding produce_log send_to_dlq
  finish-IsDispatched s s' delivered k a c u v = record {
    result = delivered;
    attempts = k;
    sent = ground (arith, a.sent);
    consented = a.consented;
    calls = (ground (arith, a.calls.0), ground (arith, a.calls.1));
    counted = ground (arith, c);
    logged = ground (arith, a.topics, a.kafka, u);
    dead = ground (arith, a.topics, a.kafka, u, v, append-nil s.dead_letters);
  }
  finish-IsDispatched s s' (skipped r) k a c u v = record {
    result = skipped r;
    attempts = k;
    sent = ground (arith, a.sent);
    consented = a.consented;
    calls = (ground (arith, a.calls.0), ground (arith, a.calls.1));
    counted = ground (arith, c);
    logged = ground (arith, a.topics, a.kafka, u);
    dead = ground (arith, a.topics, a.kafka, u, v, append-nil s.dead_letters);
  }
  finish-IsDispatched s s' threw k a c u v = record {
    result = threw;
    attempts = k;
    sent = ground (arith, a.sent);
    consented = a.consented;
    calls = ground (arith, a.calls);
    counted = ground (arith, c);
    logged = ground (arith, a.topics, a.kafka, u);
    dead = ground (arith, a.topics, a.kafka, u, v);
  }

  -- Where Kafka takes both messages of it, a dispatch has a result for which it sends the request's one
  -- message if that is a delivery and nothing otherwise, delivers only with the consent of the channel,
  -- calls the provider at most four times, and four times where the last attempt threw, logs the
  -- result once with the number of attempts, and gives the request to the dead letters exactly where the last attempt threw.
  pub dispatch-IsDispatched :
      (s : Post)
      → s.kafka_up s.kafka_calls ≡ true
      → s.kafka_up (suc s.kafka_calls) ≡ true
      → IsDispatched s (dispatch cfg req s)
  unfolding dispatch
  dispatch-IsDispatched s u v =
      let (r, s') = attempt cfg (retry_delays cfg) 0 req s in
      finish-IsDispatched s s' r.0 r.1 (attempt-AttemptRun cfg req (retry_delays cfg) 0 s)
        (attempt-CountedRun cfg req (retry_delays cfg) 0 s) u v
