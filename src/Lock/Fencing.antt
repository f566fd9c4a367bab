-- ===== src/Lock/Fencing.antt =====
-- Any interleaving of the Lua scripts of lock.service.ts by any number of workers, with time
-- passing in between. A lease is what a worker believes: it ends 30 seconds after the last acquire
-- or renewal that Redis confirmed, or with its release.
use wince_backend.Prelude.{
  ℕ, ◌+◌, ◌*◌, ◌≤◌, ◌<◌, ◌≡◌, ℤ, int_eq, int_eq_iff, ◌&&◌, Option, none, some, arith, ◌==◌,
  if◌then◌else◌,
}
use wince_backend.Redis.{Redis, lock_user, uuid}
use wince_backend.Lock.{acquire_script, renew_script, release_script, user_lock_ttl}

pub record Cluster (R : Redis) : Type 0 where
  pub now : ℕ
  pub store : R.Store
  -- the time at which the lease of a user's lock by a token ends; 0 where there is none
  pub deadline : ℤ → ℕ → ℕ

abbrev pub set_deadline : ℤ → ℕ → ℕ → (ℤ → ℕ → ℕ) → ℤ → ℕ → ℕ
set_deadline u k d f v j = if int_eq u v && k == j then d else f v j

module _ {R : Redis} where
  abbrev pub lease_end : Cluster R → ℕ
  lease_end c = c.now + user_lock_ttl * 1000

  abbrev pub after_acquire : Cluster R → ℤ → Option ℕ × R.Store → Cluster R
  after_acquire c u (none, s) = record c { store = s }
  after_acquire c u (some k, s) = record c {
    store = s;
    deadline = set_deadline u k (lease_end c) c.deadline;
  }

  unfoldable pub acquire : Cluster R → ℤ → ℕ → Cluster R
  acquire c u k = after_acquire c u (acquire_script R (lock_user u) k user_lock_ttl c.now c.store)

  abbrev pub after_renew : Cluster R → ℤ → ℕ → ℕ × R.Store → Cluster R
  after_renew c u k (r, s) =
      if r == 1
      then record c { store = s; deadline = set_deadline u k (lease_end c) c.deadline }
      else record c { store = s }

  unfoldable pub renew : Cluster R → ℤ → ℕ → Cluster R
  renew c u k = after_renew c u k (renew_script R (lock_user u) k user_lock_ttl c.now c.store)

  unfoldable pub release : Cluster R → ℤ → ℕ → Cluster R
  release c u k = record c {
    store = (release_script R (lock_user u) k c.now c.store).1;
    deadline = set_deadline u k 0 c.deadline;
  }

  pub data Step : Cluster R → Cluster R → Type 0 where
    tick : (c : Cluster R) (n : ℕ) → Step c (record c { now = c.now + n })
    acquire_step : (c : Cluster R) (u : ℤ) (k : ℕ) → Step c (acquire c u k)
    renew_step : (c : Cluster R) (u : ℤ) (k : ℕ) → Step c (renew c u k)
    release_step : (c : Cluster R) (u : ℤ) (k : ℕ) → Step c (release c u k)

  pub data Reach (c : Cluster R) : Cluster R → Type 0 where
    here : Reach c c
    next : {d e : Cluster R} → Reach c d → Step d e → Reach c e

  -- While a lease runs, Redis stores its token under the user's key.
  pub record IsFenced (c : Cluster R) : Type 0 where
    pub stored :
        (u : ℤ) (k t : ℕ)
        → c.now ≤ t
        → t < c.deadline u k
        → R.get t (lock_user u) c.store ≡ some (uuid k)

  -- A live lease is stored under its key now.
  stored_now :
      (c : Cluster R)
      → IsFenced c
      → (u : ℤ) (k t : ℕ) → c.now ≤ t
      → t < c.deadline u k
      → R.get c.now (lock_user u) c.store ≡ some (uuid k)
  stored_now c f u k t h l = f.stored u k c.now (omega arith) (omega arith)

  acquire-IsFenced : (c : Cluster R) (u : ℤ) (k : ℕ) → IsFenced c → IsFenced (acquire c u k)
  unfolding acquire acquire_script
  acquire-IsFenced c u k f = record {
    stored = λ v j t h l. ground (
      arith,
      f.stored v j t,
      stored_now c f v j t,
      int_eq_iff u v,
      R.get-setex c.now t (lock_user u) (lock_user v) user_lock_ttl (uuid k) c.store,
    );
  }

  renew-IsFenced : (c : Cluster R) (u : ℤ) (k : ℕ) → IsFenced c → IsFenced (renew c u k)
  unfolding renew renew_script
  renew-IsFenced c u k f = record {
    stored = λ v j t h l. ground (
      arith,
      f.stored v j t,
      stored_now c f v j t,
      int_eq_iff u v,
      R.get-expire c.now t (lock_user u) (lock_user v) user_lock_ttl c.store,
    );
  }

  release-IsFenced : (c : Cluster R) (u : ℤ) (k : ℕ) → IsFenced c → IsFenced (release c u k)
  unfolding release release_script
  release-IsFenced c u k f = record {
    stored = λ v j t h l. ground (
      arith,
      f.stored v j t,
      stored_now c f v j t,
      int_eq_iff u v,
      R.get-del t (lock_user u) (lock_user v) c.store,
    );
  }

  Step-IsFenced : {c d : Cluster R} → Step c d → IsFenced c → IsFenced d
  Step-IsFenced (tick c n) f = record { stored = λ u k t h l. f.stored u k t (omega arith) l }
  Step-IsFenced (acquire_step c u k) f = acquire-IsFenced c u k f
  Step-IsFenced (renew_step c u k) f = renew-IsFenced c u k f
  Step-IsFenced (release_step c u k) f = release-IsFenced c u k f

  Reach-IsFenced : {c d : Cluster R} → IsFenced c → Reach c d → IsFenced d
  Reach-IsFenced f here = f
  Reach-IsFenced f (next r st) = Step-IsFenced st (Reach-IsFenced f r)

  -- Whatever the workers do and however time passes, from a state in which no lease runs: two
  -- leases of one user's lock that run at the same time have the same token.
  pub mutual_exclusion :
      (c d : Cluster R)
      → ((u : ℤ) (k : ℕ) → c.deadline u k ≡ 0)
      → Reach c d
      → (u : ℤ) (j k : ℕ) → d.now < d.deadline u j
      → d.now < d.deadline u k
      → j ≡ k
  mutual_exclusion c d idle r u j k hj hk =
      let f : IsFenced d =
        Reach-IsFenced (record { stored = λ v i t h l. absurd (omega (arith, idle v i)) }) r in
      ground (arith, f.stored u j d.now, f.stored u k d.now)
