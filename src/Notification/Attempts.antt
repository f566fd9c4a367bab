-- ===== src/Notification/Attempts.antt =====
-- What the attempts of retry.interceptor.ts send and count.
use Prim.Native.String.{String}
use wince_backend.Prelude.{
  ℕ, suc, ◌+◌, ◌≤◌, ◌≡◌, ◌≢◌, inl, inr, refl, sym, ap, ◌∙◌, arith, Bool, true, List, [], ◌∷◌, ◌++◌,
  length, append-nil, Bool-cases,
}
use wince_backend.Notification.{
  no_consent, no_email_address, no_api_key, no_phone, no_credentials, is_truthy, has_credentials,
  Channel, email, sms, NotificationRequest, Config, SendResult, delivered, skipped, threw, Sent,
  SkipReason, Post, text_of, post, send_email, send_sms, send_by, send, after_send, attempt,
}

abbrev pub consents : Channel → NotificationRequest → Bool
consents email req = req.email_consent
consents sms req = req.sms_consent

abbrev pub address : Channel → NotificationRequest → String
address email req = text_of req.email_address
address sms req = text_of req.phone

abbrev pub message_of : NotificationRequest → Sent
message_of req = record {
  channel = req.type;
  to = address req.type req;
  discount_code = req.discount_code;
}

-- The messages that a result stands for.
abbrev pub messages_of : SendResult → NotificationRequest → List Sent
messages_of delivered req = message_of req ∷ []
messages_of _ req = []

-- A delivery has the consent of its channel.
abbrev pub Consented : SendResult → NotificationRequest → Type 0
Consented delivered req = consents req.type req ≡ true
Consented _ req = Unit {0}

-- The calls of the provider, from `c` to `d`, of at most `n` attempts: at least one for a delivery,
-- none in the last attempt for a skip, and exactly `n` where the last attempt threw.
abbrev pub Calls : SendResult → (n c d : ℕ) → Type 0
Calls delivered n c d = (suc c ≤ d) × (d ≤ c + n)
Calls (skipped r) n c d = (c ≤ d) × (suc d ≤ c + n)
Calls threw n c d = d ≡ c + n

-- `k` counts one attempt for each call of the provider from `c` to `d` after `n` earlier ones, and one
-- more for a skip.
abbrev pub Counted : SendResult → (n k c d : ℕ) → Type 0
Counted (skipped r) n k c d = suc (d + n) ≡ c + k
Counted _ n k c d = d + n ≡ c + k

Counted-again :
    (r : SendResult) (n k c c' d : ℕ) → c' ≡ c + 1 → Counted r (suc n) k c' d → Counted r n k c d
Counted-again delivered n k c c' d e h = omega (arith, e, h)
Counted-again (skipped r) n k c c' d e h = omega (arith, e, h)
Counted-again threw n k c c' d e h = omega (arith, e, h)

-- A run of at most `n` attempts from `s` to `s'` with the result `r`.
pub record IsAttempt (req : NotificationRequest) (n : ℕ) (s : Post) (r : SendResult) (s' : Post)
    : Type 0 where
  pub sent : s'.sent ≡ s.sent ++ messages_of r req
  pub consented : Consented r req
  pub calls : Calls r n s.provider_calls s'.provider_calls
  pub topics : (s'.logs ≡ s.logs) × (s'.dead_letters ≡ s.dead_letters)
  pub kafka : (s'.kafka_up ≡ s.kafka_up) × (s'.kafka_calls ≡ s.kafka_calls)

module _ (cfg : Config) (req : NotificationRequest) where
  post-IsAttempt :
      (s : Post) (m : Sent)
      → m ≡ message_of req
      → consents req.type req ≡ true
      → IsAttempt req 1 s (post m s).0 (post m s).1
  unfolding post
  post-IsAttempt s m e c = elim (Bool-cases (s.provider_up s.provider_calls)) [
    | inl q ↦ rw q (record {
      sent = ap (λ m. s.sent ++ m ∷ []) e;
      consented = c;
      calls = (omega arith, omega arith);
      topics = (refl, refl);
      kafka = (refl, refl);
    })
    | inr q ↦ rw q (record {
      sent = sym (append-nil s.sent);
      consented = tt;
      calls = omega arith;
      topics = (refl, refl);
      kafka = (refl, refl);
    })
  ]

  skip-IsAttempt : (s : Post) (r : SkipReason) → IsAttempt req 1 s (skipped r) s
  skip-IsAttempt s r = record {
    sent = sym (append-nil s.sent);
    consented = tt;
    calls = (omega arith, omega arith);
    topics = (refl, refl);
    kafka = (refl, refl);
  }

  -- the result of a branch of the guards
  abbrev Attempted : Post → SendResult × Post → Type 0
  Attempted s r = IsAttempt req 1 s r.0 r.1

  send_email-IsAttempt : (s : Post) → req.type ≡ email → Attempted s (send_email cfg req s)
  unfolding send_email
  send_email-IsAttempt s t = elim (Bool-cases req.email_consent) [
    | inr c ↦ simp c (skip-IsAttempt s no_consent)
    | inl c ↦ simp c (elim (Bool-cases (is_truthy req.email_address)) [
      | inr a ↦ simp a (skip-IsAttempt s no_email_address)
      | inl a ↦ simp a (elim (Bool-cases (is_truthy cfg.sendgrid_api_key)) [
        | inr k ↦ simp k (skip-IsAttempt s no_api_key)
        | inl k ↦ simp k (post-IsAttempt s _ (rw t refl) (rw t c))
      ])
    ])
  ]

  send_sms-IsAttempt : (s : Post) → req.type ≡ sms → Attempted s (send_sms cfg req s)
  unfolding send_sms
  send_sms-IsAttempt s t = elim (Bool-cases req.sms_consent) [
    | inr c ↦ simp c (skip-IsAttempt s no_consent)
    | inl c ↦ simp c (elim (Bool-cases (is_truthy req.phone)) [
      | inr a ↦ simp a (skip-IsAttempt s no_phone)
      | inl a ↦ simp a (elim (Bool-cases (has_credentials cfg)) [
        | inr k ↦ simp k (skip-IsAttempt s no_credentials)
        | inl k ↦ simp k (post-IsAttempt s _ (rw t refl) (rw t c))
      ])
    ])
  ]

  send_by-IsAttempt : (s : Post) (c : Channel) → req.type ≡ c → Attempted s (send_by cfg c req s)
  send_by-IsAttempt s email t = send_email-IsAttempt s t
  send_by-IsAttempt s sms t = send_sms-IsAttempt s t

  send-IsAttempt : (s : Post) → Attempted s (send cfg req s)
  unfolding send
  send-IsAttempt s = send_by-IsAttempt s req.type refl

  -- more attempts allowed than made
  IsAttempt-more :
      (n : ℕ) (s : Post) (r : SendResult) (s' : Post)
      → r ≢ threw
      → IsAttempt req 1 s r s'
      → IsAttempt req (suc n) s r s'
  IsAttempt-more n s delivered s' d a = record {
    sent = a.sent;
    consented = a.consented;
    calls = (a.calls.0, omega (arith, a.calls.1));
    topics = a.topics;
    kafka = a.kafka;
  }
  IsAttempt-more n s (skipped r) s' d a = record {
    sent = a.sent;
    consented = a.consented;
    calls = (a.calls.0, omega (arith, a.calls.1));
    topics = a.topics;
    kafka = a.kafka;
  }
  IsAttempt-more n s threw s' d a = absurd (d refl)

  -- an attempt that threw, and the others after it
  IsAttempt-again :
      (n : ℕ) (s s' : Post) (r : SendResult) (s'' : Post)
      → IsAttempt req 1 s threw s'
      → IsAttempt req n s' r s''
      → IsAttempt req (suc n) s r s''
  IsAttempt-again n s s' delivered s'' a b = record {
    sent = b.sent ∙ ap (λ l. l ++ message_of req ∷ []) (a.sent ∙ append-nil s.sent);
    consented = b.consented;
    calls = (omega (arith, a.calls, b.calls.0), omega (arith, a.calls, b.calls.1));
    topics = (b.topics.0 ∙ a.topics.0, b.topics.1 ∙ a.topics.1);
    kafka = (b.kafka.0 ∙ a.kafka.0, b.kafka.1 ∙ a.kafka.1);
  }
  IsAttempt-again n s s' (skipped r) s'' a b = record {
    sent = b.sent ∙ ap (λ l. l ++ []) (a.sent ∙ append-nil s.sent);
    consented = b.consented;
    calls = (omega (arith, a.calls, b.calls.0), omega (arith, a.calls, b.calls.1));
    topics = (b.topics.0 ∙ a.topics.0, b.topics.1 ∙ a.topics.1);
    kafka = (b.kafka.0 ∙ a.kafka.0, b.kafka.1 ∙ a.kafka.1);
  }
  IsAttempt-again n s s' threw s'' a b = record {
    sent = b.sent ∙ ap (λ l. l ++ []) (a.sent ∙ append-nil s.sent);
    consented = b.consented;
    calls = omega (arith, a.calls, b.calls);
    topics = (b.topics.0 ∙ a.topics.0, b.topics.1 ∙ a.topics.1);
    kafka = (b.kafka.0 ∙ a.kafka.0, b.kafka.1 ∙ a.kafka.1);
  }

  abbrev pub AttemptRun : ℕ → Post → (SendResult × ℕ) × Post → Type 0
  AttemptRun n s r = IsAttempt req n s r.0.0 r.1

  after_send-AttemptRun :
      (n k : ℕ) (s s' : Post) (r : SendResult) (again : Post → (SendResult × ℕ) × Post)
      → IsAttempt req 1 s r s'
      → ((s : Post) → AttemptRun n s (again s))
      → AttemptRun (suc n) s (after_send cfg r k again s')
  after_send-AttemptRun n k s s' delivered again a f =
      IsAttempt-more n s delivered s' (λ e. ground arith) a
  after_send-AttemptRun n k s s' (skipped r) again a f =
      IsAttempt-more n s (skipped r) s' (λ e. ground arith) a
  after_send-AttemptRun n k s s' threw again a f =
      let (result, s'') = again s' in IsAttempt-again n s s' result.0 s'' a (f s')

  pub attempt-AttemptRun :
      (ds : List ℕ) (k : ℕ) (s : Post) → AttemptRun (suc (length ds)) s (attempt cfg ds k req s)
  unfolding attempt
  attempt-AttemptRun [] k s = send-IsAttempt s
  attempt-AttemptRun (d ∷ ds) k s =
      let (r, s') = send cfg req s in
      after_send-AttemptRun (suc (length ds)) (suc k) s s' r (attempt cfg ds (suc k) req)
        (send-IsAttempt s) (attempt-AttemptRun ds (suc k))

  abbrev pub CountedRun : ℕ → Post → (SendResult × ℕ) × Post → Type 0
  CountedRun n s r = Counted r.0.0 n r.0.1 s.provider_calls r.1.provider_calls

  after_send-CountedRun :
      (n : ℕ) (s s' : Post) (r : SendResult) (again : Post → (SendResult × ℕ) × Post)
      → IsAttempt req 1 s r s'
      → ((s : Post) → CountedRun (suc n) s (again s))
      → CountedRun n s (after_send cfg r (suc n) again s')
  after_send-CountedRun n s s' delivered again a f = omega (arith, a.calls.0, a.calls.1)
  after_send-CountedRun n s s' (skipped r) again a f = omega (arith, a.calls.0, a.calls.1)
  after_send-CountedRun n s s' threw again a f =
      let (result, s'') = again s' in
      Counted-again result.0 n result.1 s.provider_calls s'.provider_calls s''.provider_calls
        a.calls (f s')

  -- the last attempt, whatever it ends with
  last-Counted :
      (n : ℕ) (s s' : Post) (r : SendResult)
      → IsAttempt req 1 s r s'
      → Counted r n (suc n) s.provider_calls s'.provider_calls
  last-Counted n s s' delivered a = omega (arith, a.calls.0, a.calls.1)
  last-Counted n s s' (skipped r) a = omega (arith, a.calls.0, a.calls.1)
  last-Counted n s s' threw a = omega (arith, a.calls)

  pub attempt-CountedRun :
      (ds : List ℕ) (n : ℕ) (s : Post) → CountedRun n s (attempt cfg ds n req s)
  unfolding attempt
  attempt-CountedRun [] n s =
      let (r, s') = send cfg req s in last-Counted n s s' r (send-IsAttempt s)
  attempt-CountedRun (d ∷ ds) n s =
      let (r, s') = send cfg req s in
      after_send-CountedRun n s s' r (attempt cfg ds (suc n) req) (send-IsAttempt s)
        (attempt-CountedRun ds (suc n))
