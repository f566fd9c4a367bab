-- ===== src/Budget/Daily.antt =====
-- The reservations of one store over one day, in the order in which Redis runs their scripts.
use native.Mathlib.Nat.{add_assoc}
use wince_backend.Prelude.{
  ℕ, ◌+◌, ◌*◌, ◌≤◌, ◌<◌, ◌≡◌, sym, ap, ◌∙◌, true, none, List, [], ◌∷◌, arith, ◌==◌, is_some,
  if◌then◌else◌,
}
use wince_backend.Redis.{Redis, Key, key_eq_refl, budget, amount, number_or_zero}
use wince_backend.Budget.{initialise, check_and_increment, reserve_script, budget_ttl}

pub record Request : Type 0 where
  pub at : ℕ
  pub amount : ℕ

-- The times of the requests do not go back, from `now` up to `stop`.
abbrev pub InOrder : ℕ → ℕ → List Request → Type 0
InOrder now stop [] = Unit
InOrder now stop (q ∷ qs) = (now ≤ q.at) × (q.at < stop) × InOrder q.at stop qs

abbrev pub last_time : ℕ → List Request → ℕ
last_time now [] = now
last_time now (q ∷ qs) = last_time q.at qs

module _ (R : Redis) (key : Key) (max_amount : ℕ) where
  -- What was approved in total, and the store afterwards.
  pub reserve_all : List Request → R.Store → ℕ × R.Store
  reserve_all [] s = (0, s)
  reserve_all (q ∷ qs) s =
      let (r, s') = reserve_script R key q.amount max_amount budget_ttl q.at s in
      let (n, s'') = reserve_all qs s' in ((if r == 1 then q.amount else 0) + n, s'')

  -- Up to `stop` the counter stays as it is, and it reads `n`.
  record Counts (stop now n : ℕ) (s : R.Store) : Type 0 where
    steady : (t : ℕ) → now ≤ t → t < stop → R.get t key s ≡ R.get now key s
    total : number_or_zero (R.get now key s) ≡ n

  abbrev granted : ℕ × R.Store → ℕ → ℕ
  granted rs x = if rs.0 == 1 then x else 0

  Counts-later :
      {stop now n : ℕ} {s : R.Store} (t : ℕ)
      → now ≤ t
      → t < stop
      → Counts stop now n s
      → Counts stop t n s
  Counts-later t h l c = record {
    steady = λ u h' l'. ground (arith, c.steady u, c.steady t);
    total = ground (arith, c.steady t);
  }

  initialise-Counts :
      (stop now n : ℕ) (s : R.Store)
      → now < stop
      → stop ≤ now + budget_ttl * 1000
      → Counts stop now n s
      → Counts stop now n (initialise R key budget_ttl now s)
        × (is_some (R.get now key (initialise R key budget_ttl now s)) ≡ true)
  unfolding initialise
  initialise-Counts stop now n s h l c = (
    record {
      steady = λ t ht hl. ground (
        arith,
        c.steady t,
        key_eq_refl key,
        R.get-setex now t key key budget_ttl (amount 0) s,
        R.get-setex now now key key budget_ttl (amount 0) s,
      );
      total =
          ground
            (arith, c.total, key_eq_refl key, R.get-setex now now key key budget_ttl (amount 0) s);
    },
    ground (arith, key_eq_refl key, R.get-setex now now key key budget_ttl (amount 0) s),
  )

  increment-Counts :
      (stop now n x : ℕ) (s : R.Store)
      → now < stop
      → is_some (R.get now key s) ≡ true
      → Counts stop now n s
      → let r = check_and_increment R key x max_amount now s in
        Counts stop now (n + granted r x) r.1 × (n ≤ max_amount → n + granted r x ≤ max_amount)
  unfolding check_and_increment
  increment-Counts stop now n x s h live c = (
    record {
      steady = λ t ht hl. ground (
        arith,
        c.steady t,
        key_eq_refl key,
        R.get-incr_by now t key key x s,
        R.get-incr_by now now key key x s,
      );
      total = ground (arith, c.total, key_eq_refl key, R.get-incr_by now now key key x s);
    },
    ground (arith, c.total),
  )

  reserve-Counts :
      (stop now n x : ℕ) (s : R.Store)
      → now < stop
      → stop ≤ now + budget_ttl * 1000
      → Counts stop now n s
      → let r = reserve_script R key x max_amount budget_ttl now s in
        Counts stop now (n + granted r x) r.1 × (n ≤ max_amount → n + granted r x ≤ max_amount)
  unfolding reserve_script
  reserve-Counts stop now n x s h l c =
      let (c', live) = initialise-Counts stop now n s h l c in
      increment-Counts stop now n x (initialise R key budget_ttl now s) h live c'

  reserve_all-Counts :
      (stop now n : ℕ) (qs : List Request) (s : R.Store)
      → stop ≤ now + budget_ttl * 1000
      → InOrder now stop qs
      → Counts stop now n s
      → Counts stop (last_time now qs) (n + (reserve_all qs s).0) (reserve_all qs s).1
        × (n ≤ max_amount → n + (reserve_all qs s).0 ≤ max_amount)
  unfolding reserve_all
  reserve_all-Counts stop now n [] s l o c =
      (record { steady = c.steady; total = omega (arith, c.total) }, λ b. omega arith)
  reserve_all-Counts stop now n (q ∷ qs) s l o c =
      let r = reserve_script R key q.amount max_amount budget_ttl q.at s in
      let g = granted r q.amount in
      let (c', b') =
        reserve-Counts stop q.at n q.amount s o.1 (omega arith) (Counts-later q.at o.0 o.1 c) in
      let (c'', b'') = reserve_all-Counts stop q.at (n + g) qs r.1 (omega arith) o.2 c' in
      (rw (← add_assoc n g (reserve_all qs r.1).0) c'', λ b. omega (arith, b'' (b' b)))

-- The requests of one store on one day, served in the order of their times from a store without
-- the day's counter: the amounts approved sum up to at most the daily maximum, and at each time
-- from the last request to midnight the counter reads that sum.
pub reserve_all_capped :
    (R : Redis) (store_id day max_amount : ℕ) (qs : List Request) (s : R.Store)
    → InOrder (day * 86400000) (day * 86400000 + 86400000) qs
    → R.get (day * 86400000) (budget store_id day) s ≡ none
    → (t : ℕ) → last_time (day * 86400000) qs ≤ t
    → t < day * 86400000 + 86400000
    → let r = reserve_all R (budget store_id day) max_amount qs s in
      (r.0 ≤ max_amount) × (number_or_zero (R.get t (budget store_id day) r.1) ≡ r.0)
reserve_all_capped R store_id day max_amount qs s o e t h l =
    let key = budget store_id day in
    let start : ℕ = day * 86400000 in
    let (c, b) =
      reserve_all-Counts R key max_amount (start + 86400000) start 0 qs s (omega arith) o (record {
        steady = λ t h l. R.get_expired start t key s h e ∙ sym e;
        total = ap number_or_zero e;
      }) in
    (omega (arith, b (omega arith)), ap number_or_zero (c.steady t h l) ∙ c.total ∙ omega arith)
