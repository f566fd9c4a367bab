-- ===== src/Retry/Attempts.antt =====
-- How often `executeWithRetry` calls its operation, and with what result.
use wince_backend.Prelude.{
  ℕ, zero, suc, ◌+◌, ◌<◌, ◌≤◌, ◌≡◌, refl, ap, ◌∙◌, arith, Bool, true, false, some, ◌⊎◌, inl, inr,
  Bool-cases,
}
use wince_backend.Retry.{
  Attempt, resolved, rejected, RetryResult, success, exhausted, after_attempt, execute_with_retry,
}

module _ {A : Type 0} (up : ℕ → Bool) (a : A) where
  -- An operation whose n-th call resolves to `a` where `up n`, and rejects otherwise.
  abbrev pub answered : Bool → Attempt A
  answered true = resolved (some a)
  answered false = rejected

  abbrev pub flaky : ℕ → Attempt A × ℕ
  flaky n = (answered (up n), suc n)

module _ {A : Type 0} (up : ℕ → Bool) (a : A) where
  -- The calls from the n-th on that are made where at most `max` are allowed: up to the first that
  -- resolves, or all `max` of them where each rejects.
  pub record IsFirst (max n k : ℕ) : Type 0 where
    pub allowed : k < max
    pub resolves : up (n + k) ≡ true
    pub rejects_before : (j : ℕ) → j < k → up (n + j) ≡ false

  shift : (n j : ℕ) (b : Bool) → up (suc n + j) ≡ b → up (n + suc j) ≡ b
  shift n j b h = grind arith

  before-suc :
      (n k : ℕ)
      → up n ≡ false
      → ((j : ℕ) → j < k → up (suc n + j) ≡ false)
      → (j : ℕ) → j < suc k
      → up (n + j) ≡ false
  before-suc n k q h zero l = grind (arith, q)
  before-suc n k q h (suc j) l = shift n j false (h j (omega (arith, l)))

  pub Ends : ℕ → ℕ → Type 0
  Ends max n =
      ((k : ℕ) × IsFirst max n k
        × (execute_with_retry max (flaky up a) n ≡ (success a, suc (n + k))))
      ⊎ (((j : ℕ) → j < max → up (n + j) ≡ false)
          × (execute_with_retry max (flaky up a) n ≡ (exhausted, n + max)))

  run_resolved :
      (max n : ℕ) → up n ≡ true → execute_with_retry (suc max) (flaky up a) n ≡ (success a, suc n)
  unfolding execute_with_retry
  run_resolved max n q = rw q refl

  run_last : (n : ℕ) → up n ≡ false → execute_with_retry 1 (flaky up a) n ≡ (exhausted, suc n)
  unfolding execute_with_retry
  run_last n q = rw q refl

  run_again :
      (max n : ℕ)
      → up n ≡ false
      → execute_with_retry (suc (suc max)) (flaky up a) n
        ≡ execute_with_retry (suc max) (flaky up a) (suc n)
  unfolding execute_with_retry
  run_again max n q = rw q refl

  Ends-at_once : (max n : ℕ) → up n ≡ true → Ends (suc max) n
  unfolding Ends
  Ends-at_once max n q = inl (
    0,
    record {
      allowed = omega arith;
      resolves = grind (arith, q);
      rejects_before = λ j l. ground (arith, l);
    },
    run_resolved max n q ∙ ap (λ k. (success a, suc k)) (omega arith),
  )

  Ends-last : (n : ℕ) → up n ≡ false → Ends 1 n
  unfolding Ends
  Ends-last n q = inr (
    before-suc n 0 q (λ j l. ground (arith, l)),
    run_last n q ∙ ap (λ k. (exhausted, k)) (omega arith),
  )

  Ends-again : (max n : ℕ) → up n ≡ false → Ends (suc max) (suc n) → Ends (suc (suc max)) n
  unfolding Ends
  Ends-again max n q e = elim e [
    | inl (k, f, h) ↦ inl (
      suc k,
      record {
        allowed = omega (arith, f.allowed);
        resolves = shift n k true f.resolves;
        rejects_before = before-suc n k q f.rejects_before;
      },
      run_again max n q ∙ h ∙ ap (λ i. (success a, i)) (omega arith),
    )
    | inr (f, h) ↦
        inr (
          before-suc n (suc max) q f,
          run_again max n q ∙ h ∙ ap (λ i. (exhausted, i)) (omega arith),
        )
  ]

  execute_with_retry-from : (max n : ℕ) → (up n ≡ true) ⊎ (up n ≡ false) → Ends (suc max) n
  execute_with_retry-from max n (inl q) = Ends-at_once max n q
  execute_with_retry-from zero n (inr q) = Ends-last n q
  execute_with_retry-from (suc max) n (inr q) =
      Ends-again max n q (execute_with_retry-from max (suc n) (Bool-cases (up (suc n))))

  -- Where at least one attempt is allowed, the first call that resolves ends the run with its value,
  -- and a run whose calls all reject ends after exactly `max` of them.
  pub execute_with_retry-Ends : (max n : ℕ) → Ends (suc max) n
  execute_with_retry-Ends max n = execute_with_retry-from max n (Bool-cases (up n))

module _ {S A : Type 0} where
  -- The first attempt, where it resolves, is the last.
  pub execute_with_retry-resolved :
      (more : ℕ) (op : S → Attempt A × S) (s s' : S) (a : A)
      → op s ≡ (resolved (some a), s')
      → execute_with_retry (suc more) op s ≡ (success a, s')
  unfolding execute_with_retry
  execute_with_retry-resolved more op s s' a q = rw q refl

module _ {S A : Type 0} (P : S → Type 0) (op : S → Attempt A × S)
    (keeps : (s : S) → P s → P (op s).1) where
  after_attempt-keeps :
      (left : ℕ) (r : Attempt A) (again : S → RetryResult A × S) (s : S)
      → ((s : S) → P s → P (again s).1)
      → P s
      → P (after_attempt left r again s).1
  after_attempt-keeps left (resolved a) again s k p = p
  after_attempt-keeps zero rejected again s k p = p
  after_attempt-keeps (suc left) rejected again s k p = k s p

  -- What each attempt keeps, the run keeps.
  pub execute_with_retry-keeps : (max : ℕ) (s : S) → P s → P (execute_with_retry max op s).1
  unfolding execute_with_retry
  execute_with_retry-keeps zero s p = p
  execute_with_retry-keeps (suc max) s p =
      let (r, s') = op s in
      after_attempt-keeps max r (execute_with_retry max op) s' (execute_with_retry-keeps max)
        (keeps s p)

module _ {S A : Type 0} where
  -- the state after `k` calls of the operation
  abbrev pub repeat : (S → Attempt A × S) → ℕ → S → S
  repeat op zero s = s
  repeat op (suc k) s = (op (repeat op k s)).1

  repeat-first :
      (op : S → Attempt A × S) (k : ℕ) (s : S) → repeat op k (op s).1 ≡ repeat op (suc k) s
  repeat-first op zero s = refl
  repeat-first op (suc k) s = ap (λ x. (op x).1) (repeat-first op k s)

  -- The run ends in the state after some number of calls, of which at most `max` are made.
  abbrev pub Calls : ℕ → (S → Attempt A × S) → S → S → Type 0
  Calls max op s s' = (k : ℕ) × (k ≤ max) × (s' ≡ repeat op k s)

  after_attempt-Calls :
      (left : ℕ) (r : Attempt A) (op : S → Attempt A × S) (again : S → RetryResult A × S) (s : S)
      → Calls left op (op s).1 (again (op s).1).1
      → Calls (suc left) op s (after_attempt left r again (op s).1).1
  after_attempt-Calls left (resolved a) op again s c = (1, omega arith, refl)
  after_attempt-Calls zero rejected op again s c = (1, omega arith, refl)
  after_attempt-Calls (suc left) rejected op again s c =
      (suc c.0, omega (arith, c.1), c.2 ∙ repeat-first op c.0 s)

  pub execute_with_retry-Calls :
      (max : ℕ) (op : S → Attempt A × S) (s : S) → Calls max op s (execute_with_retry max op s).1
  unfolding execute_with_retry
  execute_with_retry-Calls zero op s = (0, omega arith, refl)
  execute_with_retry-Calls (suc max) op s =
      after_attempt-Calls max (op s).0 op (execute_with_retry max op) s
        (execute_with_retry-Calls max op (op s).1)
