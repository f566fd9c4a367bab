-- ===== src/ConnectionPool/Bounds.antt =====
-- How many connections ConnectionPoolManager.ts has.
use wince_backend.Prelude.{
  any, ℕ, zero, suc, ◌+◌, ◌-◌, ◌≤◌, ◌≡◌, ◌≢◌, refl, arith, Bool, true, false, List, [], ◌∷◌, length,
  ltb, Bool-cases, inl, inr,
}
use wince_backend.ConnectionPool.{
  has_id, drop_unhealthy, count_off, Config, Pool, Acquired, rejected, creating, waiting, granted,
  Released, handed_to, kept, closed, mark_unhealthy, acquire_connection, finish_create,
  release_connection, ping_failed, empty_pool, create_initial, initialize, create_connection,
  new_connection, connections_to_create, last_used_of,
}
use wince_backend.ConnectionPool.Lists.{length-remove}
use wince_backend.ConnectionPool.Runs.{
  max_of, after_acquire, after_release, start_creating, State, Event, acquires, created, timed_out,
  releases, ping_fails, drops, counts_off, start_replacing, replaced, begins_shutdown,
  ends_shutdown, is_shutdown, holds, step, run, starting,
}
use wince_backend.ConnectionPool.Growth.{
  IsCounted, Grows, HasRoom, acquire-Grows, finish_create-Grows, change-Grows, release-Grows,
  replace-Grows, push-Grows,
}

-- The pool with what is being made is at most the maximum and what was made beside another.
pub record IsBounded (cfg : Config) (s : State) : Type 0 where
  pub counted : IsCounted s.dropping s.pool
  pub bounded : length s.pool.pool + s.creating + 1 ≤ cfg.max_connections + max_of 1 s.peak
  pub peaks : s.creating ≤ s.peak

module _ (cfg : Config) where
  acquired-IsBounded :
      (client : ℕ) (r : Acquired) (p : Pool) (s : State)
      → IsBounded cfg s
      → Grows s.dropping 0 s.pool p × HasRoom cfg s.pool r
      → IsBounded cfg (after_acquire client (r, p) s)
  acquired-IsBounded client rejected p s b (g, h) = record {
    counted = g.counted;
    bounded = omega (arith, b.bounded, g.grown);
    peaks = b.peaks;
  }
  acquired-IsBounded client waiting p s b (g, h) = record {
    counted = g.counted;
    bounded = omega (arith, b.bounded, g.grown);
    peaks = b.peaks;
  }
  acquired-IsBounded client (granted k) p s b (g, h) = record {
    counted = g.counted;
    bounded = omega (arith, b.bounded, g.grown);
    peaks = b.peaks;
  }
  acquired-IsBounded client creating p s b (g, h) = record {
    counted = g.counted;
    bounded = ground (arith, b.bounded, g.grown);
    peaks = ground (arith, b.peaks);
  }

  -- a creation that ended
  finished-IsBounded :
      (client : ℕ) (r : Acquired) (p : Pool) (s : State)
      → IsBounded cfg s
      → ltb 0 s.creating ≡ true
      → Grows s.dropping 1 s.pool p
      → r ≢ creating
      → IsBounded cfg (after_acquire client (r, p) (record s { creating = s.creating - 1 }))
  finished-IsBounded client rejected p s b q g n = record {
    counted = g.counted;
    bounded = ground (arith, b.bounded, g.grown);
    peaks = ground (arith, b.peaks);
  }
  finished-IsBounded client waiting p s b q g n = record {
    counted = g.counted;
    bounded = ground (arith, b.bounded, g.grown);
    peaks = ground (arith, b.peaks);
  }
  finished-IsBounded client (granted k) p s b q g n = record {
    counted = g.counted;
    bounded = ground (arith, b.bounded, g.grown);
    peaks = ground (arith, b.peaks);
  }
  finished-IsBounded client creating p s b q g n = absurd (n refl)

  finish_create-ne-creating :
      (b : Bool) (ticket started now : ℕ) (p : Pool)
      → (finish_create cfg b ticket started now p).0 ≢ creating
  unfolding finish_create
  finish_create-ne-creating true ticket started now p = λ e. ground arith
  finish_create-ne-creating false ticket started now p = λ e. ground arith

  released-IsBounded :
      (k : ℕ) (r : Released) (p : Pool) (s : State)
      → IsBounded cfg s
      → Grows s.dropping 0 s.pool p
      → IsBounded cfg (after_release k (r, p) s)
  released-IsBounded k (handed_to c) p s b g = record {
    counted = g.counted;
    bounded = omega (arith, b.bounded, g.grown);
    peaks = b.peaks;
  }
  released-IsBounded k kept p s b g = record {
    counted = g.counted;
    bounded = omega (arith, b.bounded, g.grown);
    peaks = b.peaks;
  }
  released-IsBounded k closed p s b g = record {
    counted = g.counted;
    bounded = omega (arith, b.bounded, g.grown);
    peaks = b.peaks;
  }

  -- a part that makes nothing
  same-IsBounded :
      (s : State) (p : Pool)
      → IsBounded cfg s
      → Grows s.dropping 0 s.pool p
      → IsBounded cfg (record s { pool = p })
  same-IsBounded s p b g = record {
    counted = g.counted;
    bounded = omega (arith, b.bounded, g.grown);
    peaks = b.peaks;
  }

  replacing-IsBounded :
      (unhealthy : ℕ) (s : State)
      → IsBounded cfg s
      → IsBounded cfg (start_creating (connections_to_create cfg unhealthy s.pool) s)
  replacing-IsBounded unhealthy s b = record {
    counted = b.counted;
    bounded = ground (arith, b.bounded, b.counted, b.peaks);
    peaks = ground (arith, b.peaks);
  }

  step-IsBounded :
      (now : ℕ) (e : Event) (s : State)
      → IsBounded cfg s
      → is_shutdown (now, e) ≡ false
      → IsBounded cfg (step cfg now e s)
  unfolding step ping_failed drop_unhealthy count_off
  step-IsBounded now (acquires client) s b w =
      let (r, p) = acquire_connection cfg client now s.pool in
      acquired-IsBounded client r p s b (acquire-Grows cfg s.dropping client now s.pool b.counted)
  step-IsBounded now (created client started pings) s b w = elim (Bool-cases (ltb 0 s.creating)) [
    | inl q ↦ simp q (
        let made = create_connection pings cfg.retry_attempts 0 in
        let (r, p) = finish_create cfg made client started now s.pool in
        finished-IsBounded client r p s b q
          (finish_create-Grows cfg s.dropping made client started now s.pool b.counted)
          (finish_create-ne-creating made client started now s.pool))
    | inr q ↦ simp q b
  ]
  step-IsBounded now (timed_out client) s b w =
      same-IsBounded s _ b (record { counted = b.counted; grown = omega arith })
  step-IsBounded now (releases client k) s b w = elim (Bool-cases (holds client k s.held)) [
    | inl q ↦ simp q (
        let last = last_used_of cfg k s.pool.pool in
        let (r, p) = release_connection cfg k last now s.pool in
        released-IsBounded k r p _
          (record { counted = b.counted; bounded = b.bounded; peaks = b.peaks })
          (release-Grows cfg s.dropping k last now s.pool b.counted))
    | inr q ↦ simp q b
  ]
  step-IsBounded now (ping_fails threw k) s b w =
      let g = change-Grows cfg s.dropping k mark_unhealthy s.pool (λ d. refl) b.counted in
      same-IsBounded s _ b (record { counted = g.counted; grown = g.grown })
  step-IsBounded now (drops k) s b w = elim (Bool-cases (any (has_id k) s.pool.pool)) [
    | inl q ↦ simp q (record {
      counted = omega (arith, b.counted, length-remove k s.pool.pool q);
      bounded = omega (arith, b.bounded, length-remove k s.pool.pool q);
      peaks = b.peaks;
    })
    | inr q ↦ simp q b
  ]
  step-IsBounded now counts_off s b w = elim (Bool-cases (ltb 0 s.dropping)) [
    | inl q ↦
        simp q
          (record { counted = ground (arith, q, b.counted); bounded = b.bounded; peaks = b.peaks })
    | inr q ↦ simp q b
  ]
  step-IsBounded now (start_replacing n) s b w = replacing-IsBounded n s b
  step-IsBounded now (replaced pings) s b w = elim (Bool-cases (ltb 0 s.creating)) [
    | inl q ↦ simp q (
        let made = create_connection pings cfg.retry_attempts 0 in
        let g = replace-Grows cfg s.dropping made now s.pool b.counted in
        record {
          counted = g.counted;
          bounded = ground (arith, b.bounded, g.grown);
          peaks = ground (arith, b.peaks);
        })
    | inr q ↦ simp q b
  ]
  step-IsBounded now begins_shutdown s b w = ground (arith, w)
  step-IsBounded now ends_shutdown s b w = ground (arith, w)

  run-IsBounded :
      (es : List (ℕ × Event)) (s : State)
      → IsBounded cfg s
      → any is_shutdown es ≡ false
      → IsBounded cfg (run cfg es s)
  unfolding run
  run-IsBounded [] s b w = b
  run-IsBounded ((now, e) ∷ es) s b w =
      run-IsBounded es (step cfg now e s) (step-IsBounded now e s b (ground (arith, w)))
        (ground (arith, w))

  create_initial-Grows :
      (pings : ℕ → ℕ → Bool) (n now : ℕ) (p : Pool)
      → IsCounted 0 p
      → Grows 0 n p (create_initial cfg pings n now p)
  unfolding create_initial
  create_initial-Grows pings zero now p c = record { counted = c; grown = omega arith }
  create_initial-Grows pings (suc n) now p c =
      elim (Bool-cases (create_connection (pings n) cfg.retry_attempts 0)) [
        | inl q ↦ rw q (
            let g = push-Grows cfg 0 (new_connection p.next_id false now) p c in
            let h = create_initial-Grows pings n now _ g.counted in
            record { counted = h.counted; grown = omega (arith, g.grown, h.grown) })
        | inr q ↦ rw q (
            let h = create_initial-Grows pings n now _ c in
            record { counted = h.counted; grown = omega (arith, h.grown) })
      ]

  -- Before a  whatever the parts of the handlers do in whatever order, the count is that of
  -- the pool and of the connections that a check of health has still to count off, and the pool has
  -- at most the maximum where never more than one connection was being made at a time; in general,
  -- at most the maximum and one less than the most that were. The minimum is at most the maximum.
  pub run-bounds :
      (pings : ℕ → ℕ → Bool) (now : ℕ) (es : List (ℕ × Event))
      → cfg.min_connections ≤ cfg.max_connections
      → any is_shutdown es ≡ false
      → let s = run cfg es (starting (initialize cfg pings now)) in
        (s.pool.active_connections ≡ length s.pool.pool + s.dropping)
        × (length s.pool.pool + 1 ≤ cfg.max_connections + max_of 1 s.peak)
  unfolding initialize
  run-bounds pings now es h w =
      let g = create_initial-Grows pings cfg.min_connections now (empty_pool cfg) (omega arith) in
      let b =
        run-IsBounded es (starting (initialize cfg pings now))
          (record { counted = g.counted; bounded = omega (arith, h, g.grown); peaks = omega arith })
          w in
      (b.counted, omega (arith, b.bounded))
