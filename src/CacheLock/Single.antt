-- ===== src/CacheLock/Single.antt =====
-- One operation at a time under a lock of CacheOperationLockManager.ts.
use Prim.Native.String.{String}
use text.Mathlib.Text.{◌==◌ as str_eq}
use text.Mathlib.TextEquality.{eq_iff}
use wince_backend.Prelude.{
  ℕ, ◌+◌, ◌≤◌, ◌≡◌, refl, arith, inl, inr, Bool, true, false, Option, none, some, is_some, List, [],
  ◌∷◌, ltb, ◌==◌, Bool-cases, if◌then◌else◌,
}
use wince_backend.StringMap.{find, find-insert, find-erase}
use wince_backend.CacheLock.{
  LockInfo, Manager, lock_key, timed_out, retries, try_lock, try_lock_on, store_lock, free_lock,
  clean_entry, clean_entries, cleanup_expired_locks,
}
use wince_backend.CacheLock.Runs.{
  Running, State, Event, attempts, settles, cleans, forces, destroys, count, find_running,
  drop_running, after_turn, settle, step, run, starting, count-drop,
}

-- no operation that runs is past its time
unfoldable pub timely : ℕ → List Running → Bool
timely now [] = true
timely now (r ∷ l) = let rest = timely now l in if ltb r.expires_at now then false else rest

abbrev pub is_orderly : ℕ → Event → State → Bool
is_orderly now cleans s = timely now s.running
is_orderly now (forces key operation_type) s = false
is_orderly now destroys s = false
is_orderly now _ s = true

-- nothing is forced or destroyed, and a cleanup finds no operation past its time
unfoldable pub all_orderly : List (ℕ × Event) → State → Bool
all_orderly [] s = true
all_orderly ((now, e) ∷ es) s =
    let rest = all_orderly es (step now e s) in if is_orderly now e s then rest else false

-- the operations under the lock expire at the time
unfoldable expire_at : String → ℕ → List Running → Bool
expire_at k t [] = true
expire_at k t (r ∷ l) =
    let rest = expire_at k t l in
    if str_eq k r.lock then (if r.expires_at == t then rest else false) else rest

expire_at-drop :
    (k : String) (t operation : ℕ) (l : List Running)
    → expire_at k t l ≡ true
    → expire_at k t (drop_running operation l) ≡ true
unfolding expire_at drop_running
expire_at-drop k t operation [] h = refl
expire_at-drop k t operation (r ∷ l) h = ground (arith, expire_at-drop k t operation l)

expire_at-none : (k : String) (t : ℕ) (l : List Running) → count k l ≡ 0 → expire_at k t l ≡ true
unfolding expire_at count
expire_at-none k t [] h = refl
expire_at-none k t (r ∷ l) h = ground (arith, expire_at-none k t l)

-- a lock that has expired is no running operation's
count-expired :
    (k : String) (t now : ℕ) (l : List Running)
    → expire_at k t l ≡ true
    → ltb t now ≡ true
    → timely now l ≡ true
    → count k l ≡ 0
unfolding expire_at count timely
count-expired k t now [] h e q = refl
count-expired k t now (r ∷ l) h e q = ground (arith, count-expired k t now l)

-- `locks` and `lock_info` are right about the operations that run.
record IsSingle (m : Manager) (l : List Running) : Type 0 where
  single : (k : String) → count k l ≤ 1
  free : (k : String) → is_some (find k m.locks) ≡ false → count k l ≡ 0
  expiry :
      (k : String) (i : LockInfo) → find k m.lock_info ≡ some i → expire_at k i.expires_at l ≡ true

free_lock-IsSingle :
    (k : String) (m : Manager) (l : List Running)
    → count k l ≡ 0
    → IsSingle m l
    → IsSingle (free_lock k m) l
free_lock-IsSingle k m l z s = record {
  single = s.single;
  free = λ j h. ground (arith, eq_iff j k, s.free j, find-erase j k m.locks);
  expiry = λ j i h. ground (arith, s.expiry j i, find-erase j k m.lock_info);
}

store_lock-IsSingle :
    (operation : ℕ) (operation_type key : String) (timeout now : ℕ) (m : Manager) (l : List Running)
    → count (lock_key operation_type key) l ≡ 0
    → IsSingle m l
    → IsSingle (store_lock operation operation_type key timeout now m) (
        record {
          operation = operation;
          lock = lock_key operation_type key;
          expires_at = now + timeout;
        }
        ∷ l)
unfolding count expire_at
store_lock-IsSingle operation operation_type key timeout now m l z s =
    let k = lock_key operation_type key in
    let info : LockInfo = record {
      key = key;
      acquired_at = now;
      expires_at = now + timeout;
      operation_type = operation_type;
    } in
    record {
      single = λ j. ground (arith, eq_iff j k, s.single j);
      free = λ j h. ground (arith, s.free j, find-insert j k operation m.locks);
      expiry = λ j i h. ground (
        arith,
        eq_iff j k,
        expire_at-none j i.expires_at l,
        s.expiry j i,
        find-insert j k info m.lock_info,
      );
    }

settle-IsSingle :
    (operation : ℕ) (o : Option Running) (s : State)
    → find_running operation s.running ≡ o
    → IsSingle s.manager s.running
    → IsSingle (settle o operation s).manager (settle o operation s).running
settle-IsSingle operation none s e x = x
settle-IsSingle operation (some r) s e x = record {
  single = λ k. ground (arith, x.single k, count-drop k operation r s.running e);
  free = λ k h. ground (
    arith,
    eq_iff k r.lock,
    x.single r.lock,
    x.free k,
    find-erase k r.lock s.manager.locks,
    count-drop k operation r s.running e,
  );
  expiry = λ k i h.
      expire_at-drop k i.expires_at operation s.running
        (x.expiry k i (ground (arith, find-erase k r.lock s.manager.lock_info)));
}

clean_entry-IsSingle :
    (now : ℕ) (k : String) (o : Option LockInfo) (m : Manager) (l : List Running)
    → find k m.lock_info ≡ o
    → timely now l ≡ true
    → IsSingle m l
    → IsSingle (clean_entry now k o m) l
clean_entry-IsSingle now k none m l e t s = s
clean_entry-IsSingle now k (some i) m l e t s = elim (Bool-cases (ltb i.expires_at now)) [
  | inl q ↦
      rw q (free_lock-IsSingle k m l (count-expired k i.expires_at now l (s.expiry k i e) q t) s)
  | inr q ↦ rw q s
]

clean_entries-IsSingle :
    (now : ℕ) (es : List (String × LockInfo)) (m : Manager) (l : List Running)
    → timely now l ≡ true
    → IsSingle m l
    → IsSingle (clean_entries now es m) l
unfolding clean_entries
clean_entries-IsSingle now [] m l t s = s
clean_entries-IsSingle now ((k, i) ∷ es) m l t s =
    clean_entries-IsSingle now es (clean_entry now k (find k m.lock_info) m) l t
      (clean_entry-IsSingle now k (find k m.lock_info) m l refl t s)

waits-IsSingle :
    (late : Bool) (k : String) (expires_at : ℕ) (s : State)
    → IsSingle s.manager s.running
    → let s' =
        after_turn k expires_at (if late then (timed_out, s.manager) else (retries, s.manager)) s in
      IsSingle s'.manager s'.running
waits-IsSingle true k expires_at s x = x
waits-IsSingle false k expires_at s x = x

try_lock_on-IsSingle :
    (o : Option ℕ) (operation_type key : String) (timeout started now : ℕ) (s : State)
    → find (lock_key operation_type key) s.manager.locks ≡ o
    → IsSingle s.manager s.running
    → let s' =
        after_turn
          (lock_key operation_type key)
          (now + timeout)
          (try_lock_on o s.next operation_type key timeout started now s.manager)
          s in
      IsSingle s'.manager s'.running
try_lock_on-IsSingle none operation_type key timeout started now s e x =
    store_lock-IsSingle s.next operation_type key timeout now s.manager s.running
      (x.free (lock_key operation_type key) (rw e refl)) x
try_lock_on-IsSingle (some holder) operation_type key timeout started now s e x =
    waits-IsSingle (ltb (started + timeout) now) (lock_key operation_type key) (now + timeout) s x

step-IsSingle :
    (now : ℕ) (e : Event) (s : State)
    → is_orderly now e s ≡ true
    → IsSingle s.manager s.running
    → IsSingle (step now e s).manager (step now e s).running
unfolding step try_lock cleanup_expired_locks
step-IsSingle now (attempts operation_type key timeout started) s o x =
    try_lock_on-IsSingle (find (lock_key operation_type key) s.manager.locks) operation_type key
      timeout started now s refl x
step-IsSingle now (settles operation) s o x =
    settle-IsSingle operation (find_running operation s.running) s refl x
step-IsSingle now cleans s o x =
    clean_entries-IsSingle now s.manager.lock_info s.manager s.running o x
step-IsSingle now (forces key operation_type) s o x = ground (arith, o)
step-IsSingle now destroys s o x = ground (arith, o)

run_from-IsSingle :
    (es : List (ℕ × Event)) (s : State)
    → all_orderly es s ≡ true
    → IsSingle s.manager s.running
    → IsSingle (run es s).manager (run es s).running
unfolding run all_orderly
run_from-IsSingle [] s o x = x
run_from-IsSingle ((now, e) ∷ es) s o x =
    run_from-IsSingle es (step now e s) (ground arith) (step-IsSingle now e s (ground arith) x)

starting-IsSingle : IsSingle starting.manager starting.running
unfolding count find expire_at
starting-IsSingle = record { single = λ k. omega arith; free = λ k h. refl; expiry = λ k i h. refl }

-- In any run in which nothing is forced or destroyed and each cleanup finds no operation past the
-- time of its lock, at most one operation runs under a lock.
pub count-run :
    (es : List (ℕ × Event)) (k : String)
    → all_orderly es starting ≡ true
    → count k (run es starting).running ≤ 1
count-run es k o = (run_from-IsSingle es starting o starting-IsSingle).single k
