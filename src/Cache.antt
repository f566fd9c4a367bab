-- ===== src/Cache.antt =====
-- packages/cache/src/cache.service.ts: a cache of several levels, of which a read takes the first
-- answer and a write goes to every level. A level is an interface; Cache.Memory fills it. Statistics
-- and the learning of access patterns are left out.
pub mod Value
pub mod Tracker
pub mod Memory
pub mod Coherent
pub mod Latest
mod Tests
use Prim.Native.String.{String}
use wince_backend.Prelude.{
  ℕ, ◌+◌, ◌≡◌, ◌⊎◌, Bool, true, false, not, ◌&&◌, ◌||◌, Option, none, some, List, [], ◌∷◌, ltb,
  if◌then◌else◌,
}
use wince_backend.Cache.Value.{JsValue, utf16_length, is_null, is_undefined}

-- What a level answers: a value, a miss, or an error.
pub data Reply : Type 0 where
  hit : JsValue → Reply
  miss threw : Reply

-- A level of the cache. `peek` is the value that a read may find, `takes` and `drops` whether a
-- write or an invalidation goes through in a state: a level may swallow its failure.
pub record CacheLevel : Type 1 where
  pub Store : Type 0
  pub is_enabled : Store → Bool
  pub get : String → Store → Reply × Store
  pub set : String → JsValue → ℕ → Store → Store
  pub invalidate : String → Store → Store
  pub peek : String → Store → Option JsValue
  pub takes : String → JsValue → ℕ → Store → Bool
  pub drops : String → Store → Bool
  pub hit-peek : (k : String) (s : Store) (v : JsValue) → (get k s).0 ≡ hit v → peek k s ≡ some v
  pub peek-get :
      (k j : String) (s : Store) (v : JsValue) → peek j (get k s).1 ≡ some v → peek j s ≡ some v
  pub peek-set :
      (k j : String) (v : JsValue) (ttl : ℕ) (s : Store) (w : JsValue)
      → peek j (set k v ttl s) ≡ some w
      → ((j ≡ k) × (w ≡ v)) ⊎ (peek j s ≡ some w)
  pub peek-set_taken :
      (k : String) (v : JsValue) (ttl : ℕ) (s : Store) (w : JsValue)
      → takes k v ttl s ≡ true
      → peek k (set k v ttl s) ≡ some w
      → w ≡ v
  pub peek-invalidate :
      (k j : String) (s : Store) (w : JsValue)
      → peek j (invalidate k s) ≡ some w
      → peek j s ≡ some w
  pub peek-invalidate_dropped :
      (k : String) (s : Store) → drops k s ≡ true → peek k (invalidate k s) ≡ none

-- One of `this.caches`, with its state.
pub record Slot : Type 1 where
  pub level : CacheLevel
  pub store : level.Store

pub record Config : Type 0 where
  pub default_ttl : ℕ
  pub min_ttl : ℕ
  pub max_ttl : ℕ

pub data Computed : Type 0 where
  value : JsValue → Computed
  compute_failed : Computed

pub data Result : Type 0 where
  returned : JsValue → Result
  invalid_key failed : Result

abbrev pub is_valid_key : String → Bool
is_valid_key k = ltb 0 (utf16_length k) && not (ltb 512 (utf16_length k))

-- a read of one level
abbrev pub get_at : String → Slot → Reply × Slot
get_at k c =
    if c.level.is_enabled c.store
    then (let (r, s) = c.level.get k c.store in (r, record c { store = s }))
    else (miss, c)

-- the answer of the first level that has one
abbrev pub or_else :
    Reply → Slot → List Slot → Option JsValue × List Slot → Option JsValue × List Slot
or_else miss c cs (r, rest) = (r, c ∷ rest)
or_else threw c cs (r, rest) = (r, c ∷ rest)
or_else (hit v) c cs (r, rest) = if is_null v then (r, c ∷ rest) else (some v, c ∷ cs)

pub get_from : String → List Slot → Option JsValue × List Slot
get_from k [] = (none, [])
get_from k (c ∷ cs) = let (r, c') = get_at k c in or_else r c' cs (get_from k cs)

unfoldable pub get : String → List Slot → Option JsValue × List Slot
get k cs = if is_valid_key k then get_from k cs else (none, cs)

-- `Math.max(minTtl, Math.min(ttl || defaultTtl, maxTtl))`
unfoldable pub effective_ttl : Config → ℕ → ℕ
effective_ttl cfg ttl =
    let wanted = if ltb 0 ttl then ttl else cfg.default_ttl in
    let capped = if ltb wanted cfg.max_ttl then wanted else cfg.max_ttl in
    if ltb capped cfg.min_ttl then cfg.min_ttl else capped

abbrev pub set_at : String → JsValue → ℕ → Slot → Slot
set_at k v ttl c =
    if c.level.is_enabled c.store then record c { store = c.level.set k v ttl c.store } else c

pub set_in : String → JsValue → ℕ → List Slot → List Slot
set_in k v ttl [] = []
set_in k v ttl (c ∷ cs) = set_at k v ttl c ∷ set_in k v ttl cs

unfoldable pub set : Config → String → JsValue → ℕ → List Slot → List Slot
set cfg k v ttl cs =
    if is_valid_key k && not (is_undefined v) then set_in k v (effective_ttl cfg ttl) cs else cs

abbrev pub invalidate_at : String → Slot → Slot
invalidate_at k c =
    if c.level.is_enabled c.store then record c { store = c.level.invalidate k c.store } else c

pub invalidate_in : String → List Slot → List Slot
invalidate_in k [] = []
invalidate_in k (c ∷ cs) = invalidate_at k c ∷ invalidate_in k cs

unfoldable pub invalidate : String → List Slot → List Slot
invalidate k cs = if is_valid_key k then invalidate_in k cs else cs

-- `getOrCompute` after its read
abbrev pub store_computed : Config → String → ℕ → Computed → List Slot → Result × List Slot
store_computed cfg k ttl compute_failed cs = (failed, cs)
store_computed cfg k ttl (value v) cs = (returned v, set cfg k v ttl cs)

abbrev pub after_read :
    Config → String → ℕ → Computed → Option JsValue × List Slot → Result × List Slot
after_read cfg k ttl computed (some v, cs) = (returned v, cs)
after_read cfg k ttl computed (none, cs) = store_computed cfg k ttl computed cs

-- what `computeFn` would come to is an argument
unfoldable pub get_or_compute : Config → String → Computed → ℕ → List Slot → Result × List Slot
get_or_compute cfg k computed ttl cs =
    if is_valid_key k then after_read cfg k ttl computed (get k cs) else (invalid_key, cs)
