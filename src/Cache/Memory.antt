-- ===== src/Cache/Memory.antt =====
-- packages/cache/src/strategies/MemoryCache.ts over its LRU table, with what BaseCache.ts does around
-- it. The table of the package lru-cache and the compressor are parameters; one reading of the clock.
pub mod Tracked
pub mod Limits
pub mod Levels
pub mod One
mod Tests
use Prim.Native.String.{String}
use wince_backend.Prelude.{
  ℕ, suc, ◌+◌, ◌-◌, ◌*◌, ◌≡◌, ◌⊎◌, Bool, true, false, not, ◌&&◌, Option, none, some, get_or, ltb,
  List, [], ◌∷◌, if◌then◌else◌,
}
use wince_backend.Cache.{Reply, hit, miss, threw}
use wince_backend.Cache.Value.{
  JsValue, undefined, boolean, number, string, object, field, end, is_undefined, utf16_length,
}
use wince_backend.Cache.Tracker.{
  MemoryTracker, calculate_object_size, lookup, size_of, track_entry, remove_entry, clear,
}

pub record CacheEntry : Type 0 where
  pub contents : JsValue
  pub timestamp : ℕ
  pub ttl : ℕ
  pub hits : ℕ
  pub compressed : Bool
  pub compression_algorithm : Option String

-- What the documentation of lru-cache says: a write may evict entries of other keys, a read makes an
-- entry recent, and no entry appears by itself. `find` is the entry that a read finds.
pub record Lru : Type 1 where
  pub Table : Type 0
  pub find : String → Table → Option CacheEntry
  pub touch : String → Table → Table
  pub set : String → CacheEntry → Option ℕ → Table → Table
  pub delete : String → Table → Table
  pub keys : Table → List String
  pub empty : Table
  pub find-touch :
      (k j : String) (t : Table) (e : CacheEntry) → find j (touch k t) ≡ some e → find j t ≡ some e
  pub find-set :
      (k j : String) (e : CacheEntry) (ttl : Option ℕ) (t : Table) (x : CacheEntry)
      → find j (set k e ttl t) ≡ some x
      → ((j ≡ k) × (x ≡ e)) ⊎ (find j t ≡ some x)
  pub find-set_self :
      (k : String) (e : CacheEntry) (ttl : Option ℕ) (t : Table) (x : CacheEntry)
      → find k (set k e ttl t) ≡ some x
      → x ≡ e
  pub find-delete :
      (k j : String) (t : Table) (e : CacheEntry) → find j (delete k t) ≡ some e → find j t ≡ some e
  pub find-delete_self : (k : String) (t : Table) → find k (delete k t) ≡ none
  pub find-empty : (k : String) → find k empty ≡ none

-- What `compress` comes to: an error, the value as it is, or a packed value and the algorithm.
pub data Compression : Type 0 where
  compress_failed as_is : Compression
  packed : JsValue → String → Compression

pub record Compressor : Type 0 where
  pub compress : JsValue → Compression
  pub decompress : JsValue → Option JsValue
  -- what was packed is unpacked
  pub decompress-packed :
      (v c : JsValue) (a : String) → compress v ≡ packed c a → decompress c ≡ some v

pub record MemoryConfig : Type 0 where
  pub default_ttl : ℕ
  pub enable : Bool
  pub enable_compression : Bool
  pub max_memory_mb : ℕ
  pub critical_threshold_percent : ℕ

module _ (L : Lru) (Z : Compressor) (cfg : MemoryConfig) (now : ℕ) where
  open L use {Table, find}

  pub record MemoryCache : Type 0 where
    pub table : Table
    pub tracker : MemoryTracker

  -- The value of an entry, or none where it cannot be unpacked.
  abbrev pub value_of : CacheEntry → Option JsValue
  value_of e = if e.compressed then Z.decompress e.contents else some e.contents

  abbrev pub peek_entry : Option CacheEntry → Option JsValue
  peek_entry none = none
  peek_entry (some e) = value_of e

  abbrev pub reply_of : Option JsValue → Reply
  reply_of none = miss
  reply_of (some v) = hit v

  -- `doGet`
  unfoldable pub do_get : String → MemoryCache → Reply × MemoryCache
  do_get k m = (reply_of (peek_entry (find k m.table)), record m { table = L.touch k m.table })

  abbrev pub entry_with : JsValue → ℕ → Bool → Option String → CacheEntry
  entry_with v ttl compressed algorithm = record {
    contents = v;
    timestamp = now;
    ttl = ttl;
    hits = 0;
    compressed = compressed;
    compression_algorithm = algorithm;
  }

  abbrev pub entry_of_compression : JsValue → ℕ → Compression → CacheEntry
  entry_of_compression v ttl (packed c a) = entry_with c ttl true (some a)
  entry_of_compression v ttl as_is = entry_with v ttl false none
  entry_of_compression v ttl compress_failed = entry_with v ttl false none

  -- the entry of a value, packed where compression is enabled and packs it
  unfoldable pub entry_of : JsValue → ℕ → CacheEntry
  entry_of v ttl =
      if cfg.enable_compression
      then entry_of_compression v ttl (Z.compress v)
      else entry_with v ttl false none

  -- the object whose size `checkMemoryLimits` adds
  abbrev pub base_metadata : JsValue
  base_metadata = object (
      field "timestamp" (number now true) (
        field "ttl" (number cfg.default_ttl true)
          (field "hits" (number 0 true) (field "compressed" (boolean false) end))))

  abbrev pub algorithm_value : Option String → JsValue
  algorithm_value none = undefined
  algorithm_value (some a) = string a

  -- and the one that `trackEntry` gets
  abbrev pub metadata_of : CacheEntry → JsValue
  metadata_of e = object (
      field "timestamp" (number e.timestamp true) (
        field "ttl" (number e.ttl true) (
          field "hits" (number e.hits true) (
            field "compressed" (boolean e.compressed)
              (field "compressionAlgorithm" (algorithm_value e.compression_algorithm) end)))))

  -- the metadata of a new counter, with no field for the algorithm
  abbrev pub metadata_of_counter : CacheEntry → JsValue
  metadata_of_counter e = object (
      field "timestamp" (number e.timestamp true) (
        field "ttl" (number e.ttl true)
          (field "hits" (number e.hits true) (field "compressed" (boolean e.compressed) end))))

  abbrev pub freed : Option CacheEntry → String → MemoryTracker → ℕ
  freed none k t = 0
  freed (some e) k t = size_of (lookup k t.memory_map)

  unfoldable pub projected_usage : String → JsValue → MemoryCache → ℕ
  projected_usage k v m =
      m.tracker.total_memory_usage
      - freed (find k m.table) k m.tracker
      + (utf16_length k * 2 + calculate_object_size v + calculate_object_size base_metadata)

  unfoldable pub check_memory_limits : String → JsValue → MemoryCache → Bool
  check_memory_limits k v m =
      ltb (projected_usage k v m * 100)
        (cfg.critical_threshold_percent * (cfg.max_memory_mb * 1048576))

  abbrev pub store_entry : String → CacheEntry → MemoryCache → MemoryCache
  store_entry k e m = record m {
    table = L.set k e none (L.touch k m.table);
    tracker = track_entry k e.contents (metadata_of e) m.tracker;
  }

  -- `doSet`; a value that would pass the limit is not stored, and the table keeps what it has
  unfoldable pub do_set : String → JsValue → ℕ → MemoryCache → MemoryCache
  do_set k v ttl m =
      if is_undefined v
      then m
      else if check_memory_limits k (entry_of v ttl).contents m
      then store_entry k (entry_of v ttl) m
      else record m { table = L.touch k m.table }

  unfoldable pub do_invalidate : String → MemoryCache → MemoryCache
  do_invalidate k m = record m { table = L.delete k m.table; tracker = remove_entry k m.tracker }

  abbrev pub invalidate_keys : (String → Bool) → List String → MemoryCache → ℕ × MemoryCache
  invalidate_keys matches [] m = (0, m)
  invalidate_keys matches (k ∷ ks) m =
      if matches k
      then (let (n, m') = invalidate_keys matches ks (do_invalidate k m) in (suc n, m'))
      else invalidate_keys matches ks m

  -- the keys that match the pattern are a parameter
  unfoldable pub do_invalidate_pattern : (String → Bool) → MemoryCache → ℕ × MemoryCache
  do_invalidate_pattern matches m = invalidate_keys matches (L.keys m.table) m

  abbrev pub new_counter : String → ℕ → MemoryCache → ℕ × MemoryCache
  new_counter k delta m =
      let e = entry_with (number delta true) cfg.default_ttl false none in
      (
        delta,
        record m {
          table = L.set k e none (L.touch k m.table);
          tracker = track_entry k (number delta true) (metadata_of_counter e) m.tracker;
        },
      )

  -- the contents of an entry that is there, a number or not
  abbrev pub count_up : String → ℕ → JsValue → CacheEntry → MemoryCache → ℕ × MemoryCache
  count_up k delta (number n whole) e m = (
    n + delta,
    record m {
      table =
          L.set k
            (record e { contents = number (n + delta) whole; timestamp = now; hits = suc e.hits })
            none (L.touch k m.table);
    },
  )
  count_up k delta _ e m = new_counter k delta m

  abbrev pub increment_entry : String → ℕ → Option CacheEntry → MemoryCache → ℕ × MemoryCache
  increment_entry k delta none m = new_counter k delta m
  increment_entry k delta (some e) m = count_up k delta e.contents e m

  unfoldable pub do_increment : String → ℕ → MemoryCache → ℕ × MemoryCache
  do_increment k delta m = increment_entry k delta (find k m.table) m

  abbrev pub expire_entry : String → ℕ → Option CacheEntry → MemoryCache → Bool × MemoryCache
  expire_entry k ttl none m = (false, record m { table = L.touch k m.table })
  expire_entry k ttl (some e) m = (
    true,
    record m { table = L.set k (record e { ttl = ttl }) (some (ttl * 1000)) (L.touch k m.table) },
  )

  unfoldable pub do_expire : String → ℕ → MemoryCache → Bool × MemoryCache
  do_expire k ttl m = expire_entry k ttl (find k m.table) m

  unfoldable pub dispose : MemoryCache → MemoryCache
  dispose m = record { table = L.empty; tracker = clear m.tracker }
