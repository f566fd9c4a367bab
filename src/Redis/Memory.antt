-- ===== src/Redis/Memory.antt =====
-- A server that meets the assumptions on Redis: a function from keys to entries with an expiry.
use Prim.Native.String.{String}
use wince_backend.Prelude.{
  ℕ, ◌+◌, ◌*◌, ◌≤◌, ◌≡◌, refl, not, Option, none, some, is_some, List, [], ◌∷◌, filter, arith, ltb,
  leb, if◌then◌else◌,
}
use wince_backend.Redis.{
  Key, key_eq, Value, amount, number_or_zero, Entry, in_range, is_member, Redis,
}

-- A value and the first time at which it is gone.
abbrev pub Cell : Type 0
Cell = Value × ℕ

pub record Memory : Type 0 where
  pub cells : Key → Option Cell
  pub sets : Key → List Entry

abbrev pub live : ℕ → Option Cell → Option Value
live t none = none
live t (some c) = if ltb t c.1 then some c.0 else none

abbrev pub write : Key → Option Cell → Memory → Memory
write k c m = record m { cells = λ j. if key_eq k j then c else m.cells j }

abbrev pub write_set : Key → List Entry → Memory → Memory
write_set k l m = record m { sets = λ j. if key_eq k j then l else m.sets j }

abbrev pub extend : ℕ → ℕ → Option Cell → Option Cell
extend now ttl none = none
extend now ttl (some c) = if ltb now c.1 then some (c.0, now + ttl * 1000) else none

abbrev pub bump : ℕ → ℕ → Option Cell → Option Cell
bump now x none = none
bump now x (some c) = some (amount (number_or_zero (live now (some c)) + x), c.1)

abbrev pub insert : ℕ → String → List Entry → List Entry
insert score m [] = record { score = score; member = m } ∷ []
insert score m (e ∷ l) =
    let rest = insert score m l in
    if leb score e.score then record { score = score; member = m } ∷ e ∷ l else e ∷ rest

pub get-expire_lem :
    (now t : ℕ) (c : Option Cell) (ttl : ℕ)
    → now ≤ t
    → live t (extend now ttl c) ≡ (if ltb t (now + ttl * 1000) then live now c else none)
get-expire_lem now t none ttl h = ground arith
get-expire_lem now t (some c) ttl h = ground arith

pub get-incr_by_lem :
    (now t : ℕ) (c : Option Cell) (x : ℕ)
    → live t (bump now x c)
      ≡ (if is_some (live t c) then some (amount (number_or_zero (live now c) + x)) else none)
get-incr_by_lem now t none x = refl
get-incr_by_lem now t (some c) x = ground arith

pub get_expired_lem : (t t' : ℕ) (c : Option Cell) → t ≤ t' → live t c ≡ none → live t' c ≡ none
get_expired_lem t t' none h e = refl
get_expired_lem t t' (some c) h e = ground arith

pub get-setex_lem :
    (now t : ℕ) (k j : Key) (ttl : ℕ) (v : Value) (m : Memory)
    → live t ((write k (some (v, now + ttl * 1000)) m).cells j) ≡ (
        if key_eq k j
        then (if ltb t (now + ttl * 1000) then some v else none)
        else live t (m.cells j))
get-setex_lem now t k j ttl v m = ground arith

pub get-del_lem :
    (t : ℕ) (k j : Key) (m : Memory)
    → live t ((write k none m).cells j) ≡ (if key_eq k j then none else live t (m.cells j))
get-del_lem t k j m = ground arith

pub get-expire_at :
    (now t : ℕ) (k j : Key) (ttl : ℕ) (m : Memory)
    → now ≤ t
    → live t ((write k (extend now ttl (m.cells k)) m).cells j) ≡ (
        if key_eq k j
        then (if ltb t (now + ttl * 1000) then live now (m.cells k) else none)
        else live t (m.cells j))
get-expire_at now t k j ttl m h = ground (arith, get-expire_lem now t (m.cells k) ttl)

pub get-incr_by_at :
    (now t : ℕ) (k j : Key) (x : ℕ) (m : Memory)
    → live t ((write k (bump now x (m.cells k)) m).cells j) ≡ (
        if key_eq k j
        then (if is_some (live t (m.cells k))
            then some (amount (number_or_zero (live now (m.cells k)) + x))
            else none)
        else live t (m.cells j))
get-incr_by_at now t k j x m = ground (arith, get-incr_by_lem now t (m.cells k) x)

abbrev pub memory : Redis
memory = record {
  Store = Memory;
  get = λ t k m. live t (m.cells k);
  setex = λ now k ttl v m. write k (some (v, now + ttl * 1000)) m;
  expire = λ now k ttl m. write k (extend now ttl (m.cells k)) m;
  del = λ k m. record { cells = (write k none m).cells; sets = (write_set k [] m).sets };
  incr_by = λ now k x m. write k (bump now x (m.cells k)) m;
  zset = λ k m. m.sets k;
  zadd = λ k score mem m.
      write_set k (insert score mem (filter (λ e. not (is_member mem e)) (m.sets k))) m;
  zrem_range = λ k lo hi m. write_set k (filter (λ e. not (in_range lo hi e)) (m.sets k)) m;
  zrem = λ k mem m. write_set k (filter (λ e. not (is_member mem e)) (m.sets k)) m;
  get-setex = λ now t k j ttl v m h. get-setex_lem now t k j ttl v m;
  get-expire = λ now t k j ttl m h. get-expire_at now t k j ttl m h;
  get-del = λ t k j m. get-del_lem t k j m;
  get-incr_by = λ now t k j x m h e. get-incr_by_at now t k j x m;
  get_expired = λ t t' k m h e. get_expired_lem t t' (m.cells k) h e;
  zset-zrem_range = λ k j lo hi m. refl;
  zset-zrem = λ k j mem m. refl;
  get-zrem = λ t k j mem m h. refl;
  zset-del = λ k j m. refl;
}

-- No key is set and every sorted set is empty.
abbrev pub empty : memory.Store
empty = record { cells = λ k. none; sets = λ k. [] }
