-- ===== src/ConnectionPool/Growth.antt =====
-- How many connections a part of ConnectionPoolManager.ts adds to the pool.
use wince_backend.Prelude.{
  ℕ, suc, ◌+◌, ◌≤◌, ◌≡◌, refl, arith, Bool, true, false, Option, none, some, List, [], ◌∷◌, length,
  length-append, any, ltb, Bool-cases, inl, inr, ◌||◌,
}
use wince_backend.ConnectionPool.{
  Config, Connection, Pool, PendingAcquire, Acquired, creating, has_id, find_available, change,
  check_out, mark_available, remove_connection_from_pool, take_available, acquire_connection,
  finish_create, release_to, give_back, release_connection, replace, new_connection,
  push_connection,
}
use wince_backend.ConnectionPool.Lists.{length-change, length-remove}

-- The count is ahead of the pool by `d`, the connections that are still to be counted off.
abbrev pub IsCounted : ℕ → Pool → Type 0
IsCounted d p = p.active_connections ≡ length p.pool + d

-- From `p` to `p'`, at most `n` connections more.
pub record Grows (d n : ℕ) (p p' : Pool) : Type 0 where
  pub counted : IsCounted d p'
  pub grown : length p'.pool ≤ length p.pool + n

-- A connection is being made only below the maximum.
abbrev pub HasRoom : Config → Pool → Acquired → Type 0
HasRoom cfg p creating = suc (length p.pool) ≤ cfg.max_connections
HasRoom cfg p _ = Unit {0}

module _ (cfg : Config) (d : ℕ) where
  take_available-Grows :
      (o : Option ℕ) (ticket now : ℕ) (p : Pool)
      → IsCounted d p
      → let (r, p') = take_available cfg o ticket now p in Grows d 0 p p' × HasRoom cfg p r
  unfolding take_available
  take_available-Grows (some k) ticket now p c = (
    record {
      counted = omega (arith, c, length-change k k (check_out now) (λ e. refl) p.pool);
      grown = omega (arith, length-change k k (check_out now) (λ e. refl) p.pool);
    },
    tt,
  )
  take_available-Grows none ticket now p c =
      elim (Bool-cases (ltb p.active_connections cfg.max_connections)) [
        | inl q ↦ rw q (record { counted = c; grown = omega arith }, ground arith)
        | inr q ↦ rw q (record { counted = c; grown = omega arith }, tt)
      ]

  pub acquire-Grows :
      (ticket now : ℕ) (p : Pool)
      → IsCounted d p
      → let (r, p') = acquire_connection cfg ticket now p in Grows d 0 p p' × HasRoom cfg p r
  unfolding acquire_connection
  acquire-Grows ticket now p c = elim (Bool-cases p.is_shutting_down) [
    | inl q ↦ simp q (record { counted = c; grown = omega arith }, tt)
    | inr q ↦ simp q (take_available-Grows (find_available p.pool) ticket now p c)
  ]

  pub push-Grows : (e : Connection) (p : Pool) → IsCounted d p → Grows d 1 p (push_connection e p)
  push-Grows e p c = record {
    counted = omega (arith, c, length-append {0} p.pool (e ∷ []));
    grown = omega (arith, length-append {0} p.pool (e ∷ []));
  }

  pub finish_create-Grows :
      (b : Bool) (ticket started now : ℕ) (p : Pool)
      → IsCounted d p
      → Grows d 1 p (finish_create cfg b ticket started now p).1
  unfolding finish_create
  finish_create-Grows true ticket started now p c =
      let g = push-Grows (new_connection p.next_id true now) p c in
      record { counted = g.counted; grown = g.grown }
  finish_create-Grows false ticket started now p c = record { counted = c; grown = omega arith }

  pub remove-Grows :
      (k : ℕ) (p : Pool) → IsCounted d p → Grows d 0 p (remove_connection_from_pool k p)
  unfolding remove_connection_from_pool
  remove-Grows k p c = elim (Bool-cases (any (has_id k) p.pool)) [
    | inl q ↦ simp q (record {
      counted = omega (arith, c, length-remove k p.pool q);
      grown = omega (arith, length-remove k p.pool q);
    })
    | inr q ↦ simp q (record { counted = c; grown = omega arith })
  ]

  pub change-Grows :
      (k : ℕ) (f : Connection → Connection) (p : Pool)
      → ((e : Connection) → (f e).id ≡ e.id)
      → IsCounted d p
      → Grows d 0 p (record p { pool = change k f p.pool })
  change-Grows k f p keeps c = record {
    counted = omega (arith, c, length-change k k f keeps p.pool);
    grown = omega (arith, length-change k k f keeps p.pool);
  }

  Grows-after : (p p' p'' : Pool) → Grows d 0 p p' → Grows d 0 p' p'' → Grows d 0 p p''
  Grows-after p p' p'' g h = record { counted = h.counted; grown = omega (arith, g.grown, h.grown) }

  give_back-Grows :
      (k last now : ℕ) (p : Pool) → IsCounted d p → Grows d 0 p (give_back cfg k last now p).1
  unfolding give_back
  give_back-Grows k last now p c =
      let p' : Pool = record p { pool = change k mark_available p.pool } in
      let g = change-Grows k mark_available p (λ e. refl) c in
      elim (Bool-cases
        (ltb (length p.pool) cfg.min_connections || ltb now (last + cfg.idle_timeout))) [
          | inl q ↦ simp q g
          | inr q ↦ simp q (Grows-after p p' _ g (remove-Grows k p' g.counted))
        ]

  release_to-Grows :
      (ps : List PendingAcquire) (k last now : ℕ) (p : Pool)
      → IsCounted d p
      → Grows d 0 p (release_to cfg ps k last now p).1
  unfolding release_to
  release_to-Grows [] k last now p c = give_back-Grows k last now p c
  release_to-Grows (w ∷ ws) k last now p c =
      let g = change-Grows k (check_out now) p (λ e. refl) c in
      record { counted = g.counted; grown = g.grown }

  pub release-Grows :
      (k last now : ℕ) (p : Pool)
      → IsCounted d p
      → Grows d 0 p (release_connection cfg k last now p).1
  unfolding release_connection
  release-Grows k last now p c = elim (Bool-cases p.is_shutting_down) [
    | inl q ↦ simp q (remove-Grows k p c)
    | inr q ↦ simp q (release_to-Grows p.pending_acquires k last now p c)
  ]

  pub replace-Grows :
      (b : Bool) (now : ℕ) (p : Pool) → IsCounted d p → Grows d 1 p (replace cfg b now p)
  unfolding replace
  replace-Grows true now p c = push-Grows (new_connection p.next_id false now) p c
  replace-Grows false now p c = record { counted = c; grown = omega arith }
