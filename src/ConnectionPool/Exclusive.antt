-- ===== src/ConnectionPool/Exclusive.antt =====
-- No two clients of ConnectionPoolManager.ts have one connection.
use wince_backend.Prelude.{
  any, ℕ, zero, suc, ◌+◌, ◌-◌, ◌≤◌, ◌<◌, ◌≡◌, refl, arith, Bool, true, false, ◌||◌, Option, none,
  some, List, [], ◌∷◌, length, ltb, Bool-cases, inl, inr, ◌∙◌, ◌⊎◌,
}
use wince_backend.ConnectionPool.{
  has_id, Config, Pool, PendingAcquire, Acquired, Released, find_available, change, mark_available,
  take_available, acquire_connection, finish_create, release_to, give_back, release_connection,
  ping_failed, replace, create_initial, initialize, begin_shutdown, end_shutdown, drop_unhealthy,
  count_off, create_connection, new_connection,
}
use wince_backend.ConnectionPool.Lists.{
  is_idle, has_idle, find_available-has_idle, has_idle-has, has_idle-check_out, any-append,
}
use wince_backend.ConnectionPool.Runs.{
  after_acquire, after_release, State, Event, acquires, created, timed_out, releases, ping_fails,
  drops, counts_off, start_replacing, replaced, begins_shutdown, ends_shutdown, holds, drop_holding,
  step, run, starting,
}
use wince_backend.ConnectionPool.Holders.{
  drop-IsQuiet, holders, IsExclusive, quiet-IsExclusive, hold-IsExclusive, holders-drop_holding,
  drop_holding-IsExclusive, check_out-IsQuiet, unhealthy-IsQuiet, remove-IsQuiet, push-IsQuiet,
  same-IsQuiet, available-IsExclusive,
}

module _ (cfg : Config) where
  -- the clients after a part that may grant a connection
  abbrev Granted : ℕ → Pool → State → Acquired → Type 0
  Granted client p s r = let s' = after_acquire client (r, p) s in IsExclusive s'.pool s'.held

  take_available-Granted :
      (o : Option ℕ) (client now : ℕ) (s : State)
      → find_available s.pool.pool ≡ o
      → IsExclusive s.pool s.held
      → let (r, p) = take_available cfg o client now s.pool in Granted client p s r
  unfolding take_available
  take_available-Granted (some k) client now s e x =
      let idle = find_available-has_idle k s.pool.pool e in
      let q = check_out-IsQuiet k now s.pool in
      hold-IsExclusive client k s.pool _ s.held (x.idle_free k idle)
        (ground (arith, has_idle-has k s.pool.pool idle, x.pool_old k))
        (has_idle-check_out k now s.pool.pool)
        (record { ids = q.ids; olds = q.olds; idles = q.idles }) x
  take_available-Granted none client now s e x =
      elim (Bool-cases (ltb s.pool.active_connections cfg.max_connections)) [
        | inl q ↦ rw q x
        | inr q ↦ rw q (quiet-IsExclusive s.pool _ s.held (same-IsQuiet s.pool _ refl refl) x)
      ]

  acquire-Granted :
      (client now : ℕ) (s : State)
      → IsExclusive s.pool s.held
      → let (r, p) = acquire_connection cfg client now s.pool in Granted client p s r
  unfolding acquire_connection
  acquire-Granted client now s x = elim (Bool-cases s.pool.is_shutting_down) [
    | inl q ↦ simp q x
    | inr q ↦ simp q (take_available-Granted (find_available s.pool.pool) client now s refl x)
  ]

  finish_create-Granted :
      (b : Bool) (client started now : ℕ) (s : State)
      → IsExclusive s.pool s.held
      → let (r, p) = finish_create cfg b client started now s.pool in Granted client p s r
  unfolding finish_create
  finish_create-Granted true client started now s x =
      let k = s.pool.next_id in
      let c = new_connection k true now in
      let q = push-IsQuiet true now s.pool in
      hold-IsExclusive client k s.pool _ s.held (x.held_old k (omega arith)) (omega arith)
        (any-append (is_idle k) s.pool.pool c
          ∙ ground (arith, has_idle-has k s.pool.pool, x.pool_old k))
        (record { ids = q.ids; olds = q.olds; idles = q.idles }) x
  finish_create-Granted false client started now s x =
      quiet-IsExclusive s.pool _ s.held (same-IsQuiet s.pool _ refl refl) x

  -- the clients after a release of `k`, which nobody has any more
  abbrev After : ℕ → Pool → State → Released → Type 0
  After k p s r = let s' = after_release k (r, p) s in IsExclusive s'.pool s'.held

  give_back-After :
      (k last now : ℕ) (s : State)
      → holders k s.held ≡ 0
      → IsExclusive s.pool s.held
      → let (r, p) = give_back cfg k last now s.pool in After k p s r
  unfolding give_back
  give_back-After k last now s f x =
      let p : Pool = record s.pool { pool = change k mark_available s.pool.pool } in
      let y = available-IsExclusive k s.pool s.held f x in
      elim (Bool-cases
        (ltb (length s.pool.pool) cfg.min_connections || ltb now (last + cfg.idle_timeout))) [
          | inl q ↦ simp q y
          | inr q ↦ simp q (quiet-IsExclusive p _ s.held (remove-IsQuiet k p) y)
        ]

  release_to-After :
      (ps : List PendingAcquire) (k last now : ℕ) (s : State)
      → holders k s.held ≡ 0
      → k < s.pool.next_id
      → IsExclusive s.pool s.held
      → let (r, p) = release_to cfg ps k last now s.pool in After k p s r
  unfolding release_to
  release_to-After [] k last now s f l x = give_back-After k last now s f x
  release_to-After (w ∷ ws) k last now s f l x =
      let q = check_out-IsQuiet k now s.pool in
      hold-IsExclusive w.ticket k s.pool _ s.held f l (has_idle-check_out k now s.pool.pool)
        (record { ids = q.ids; olds = q.olds; idles = q.idles }) x

  release-After :
      (k last now : ℕ) (s : State)
      → holders k s.held ≡ 0
      → k < s.pool.next_id
      → IsExclusive s.pool s.held
      → let (r, p) = release_connection cfg k last now s.pool in After k p s r
  unfolding release_connection
  release-After k last now s f l x = elim (Bool-cases s.pool.is_shutting_down) [
    | inl q ↦ simp q (quiet-IsExclusive s.pool _ s.held (remove-IsQuiet k s.pool) x)
    | inr q ↦ simp q (release_to-After s.pool.pending_acquires k last now s f l x)
  ]

  step-IsExclusive :
      (now : ℕ) (e : Event) (s : State)
      → IsExclusive s.pool s.held
      → let s' = step cfg now e s in IsExclusive s'.pool s'.held
  unfolding step ping_failed replace begin_shutdown end_shutdown drop_unhealthy count_off
  step-IsExclusive now (acquires client) s x = acquire-Granted client now s x
  step-IsExclusive now (created client started pings) s x = elim (Bool-cases (ltb 0 s.creating)) [
    | inl q ↦ simp q (
        finish_create-Granted (create_connection pings cfg.retry_attempts 0) client started now
          (record s { creating = s.creating - 1 }) x)
    | inr q ↦ simp q x
  ]
  step-IsExclusive now (timed_out client) s x =
      quiet-IsExclusive s.pool _ s.held (same-IsQuiet s.pool _ refl refl) x
  step-IsExclusive now (releases client k) s x = elim (Bool-cases (holds client k s.held)) [
    | inl q ↦ simp q (
        let n = holders-drop_holding client k s.held q in
        release-After k _ now (record s { held = drop_holding client k s.held })
          (omega (arith, n, x.held_once k)) (ground (arith, n, x.held_old k))
          (drop_holding-IsExclusive client k s.pool s.held x))
    | inr q ↦ simp q x
  ]
  step-IsExclusive now (ping_fails threw k) s x =
      let q = unhealthy-IsQuiet k s.pool in
      quiet-IsExclusive s.pool _ s.held (record { ids = q.ids; olds = q.olds; idles = q.idles }) x
  step-IsExclusive now (drops k) s x = elim (Bool-cases (any (has_id k) s.pool.pool)) [
    | inl q ↦ simp q (quiet-IsExclusive s.pool _ s.held (drop-IsQuiet k s.pool) x)
    | inr q ↦ simp q x
  ]
  step-IsExclusive now counts_off s x = elim (Bool-cases (ltb 0 s.dropping)) [
    | inl q ↦ simp q (quiet-IsExclusive s.pool _ s.held (same-IsQuiet s.pool _ refl refl) x)
    | inr q ↦ simp q x
  ]
  step-IsExclusive now (start_replacing n) s x = x
  step-IsExclusive now (replaced pings) s x = elim (Bool-cases (ltb 0 s.creating)) [
    | inl q ↦ simp q (replace-IsExclusive (create_connection pings cfg.retry_attempts 0))
    | inr q ↦ simp q x
  ]
    where
      replace-IsExclusive : (b : Bool) → IsExclusive (replace cfg b now s.pool) s.held
      replace-IsExclusive true = quiet-IsExclusive s.pool _ s.held (push-IsQuiet false now s.pool) x
      replace-IsExclusive false =
          quiet-IsExclusive s.pool _ s.held (same-IsQuiet s.pool _ refl refl) x
  step-IsExclusive now begins_shutdown s x =
      quiet-IsExclusive s.pool _ s.held (same-IsQuiet s.pool _ refl refl) x
  step-IsExclusive now ends_shutdown s x = record {
    held_once = x.held_once;
    held_old = x.held_old;
    pool_old = λ k l. refl;
    idle_free = λ k e. ground arith;
  }

  run-IsExclusive :
      (es : List (ℕ × Event)) (s : State)
      → IsExclusive s.pool s.held
      → let s' = run cfg es s in IsExclusive s'.pool s'.held
  unfolding run
  run-IsExclusive [] s x = x
  run-IsExclusive ((now, e) ∷ es) s x =
      run-IsExclusive es (step cfg now e s) (step-IsExclusive now e s x)

  create_initial-IsExclusive :
      (pings : ℕ → ℕ → Bool) (n now : ℕ) (p : Pool)
      → IsExclusive p []
      → IsExclusive (create_initial cfg pings n now p) []
  unfolding create_initial
  create_initial-IsExclusive pings zero now p x = x
  create_initial-IsExclusive pings (suc n) now p x =
      elim (Bool-cases (create_connection (pings n) cfg.retry_attempts 0)) [
        | inl q ↦ rw q (
            create_initial-IsExclusive pings n now _
              (quiet-IsExclusive p _ [] (push-IsQuiet false now p) x))
        | inr q ↦ rw q (
            create_initial-IsExclusive pings n now _
              (quiet-IsExclusive p _ [] (same-IsQuiet p _ refl refl) x))
      ]

  idle_or_free :
      (k : ℕ) (s : State)
      → IsExclusive s.pool s.held
      → (has_idle k s.pool.pool ≡ true) ⊎ (has_idle k s.pool.pool ≡ false)
      → (has_idle k s.pool.pool ≡ false) ⊎ (holders k s.held ≡ 0)
  idle_or_free k s x (inl e) = inr (x.idle_free k e)
  idle_or_free k s x (inr e) = inl e

  -- Whatever the parts of the handlers do in whatever order, no connection has two holders, and one
  -- that is in the pool and not checked out has none.
  pub run-exclusive :
      (pings : ℕ → ℕ → Bool) (now : ℕ) (es : List (ℕ × Event)) (k : ℕ)
      → let s = run cfg es (starting (initialize cfg pings now)) in
        (holders k s.held ≤ 1) × ((has_idle k s.pool.pool ≡ false) ⊎ (holders k s.held ≡ 0))
  unfolding initialize holders
  run-exclusive pings now es k =
      let s = starting (initialize cfg pings now) in
      let x = run-IsExclusive es s (
        create_initial-IsExclusive pings cfg.min_connections now _ (record {
          held_once = λ j. omega arith;
          held_old = λ j l. refl;
          pool_old = λ j l. refl;
          idle_free = λ j e. refl;
        })) in
      (x.held_once k, idle_or_free k (run cfg es s) x (Bool-cases _))
