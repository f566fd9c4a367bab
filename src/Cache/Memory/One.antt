-- ===== src/Cache/Memory/One.antt =====
-- An LRU table of one entry, and a compressor that packs nothing.
use Prim.Native.String.{String}
use text.Mathlib.Text.{◌==◌ as str_eq}
use text.Mathlib.TextEquality.{eq_iff}
use wince_backend.Prelude.{
  ◌≡◌, ◌⊎◌, inl, inr, refl, sym, arith, true, false, Option, none, some, List, [], ◌∷◌,
  if◌then◌else◌, Bool-cases,
}
use wince_backend.Cache.Value.{JsValue}
use wince_backend.Cache.Memory.{CacheEntry, Lru, Compressor, as_is, packed, MemoryConfig}

abbrev pub Table : Type 0
Table = Option (String × CacheEntry)

abbrev pub find : String → Table → Option CacheEntry
find k none = none
find k (some (j, e)) = if str_eq k j then some e else none

abbrev pub delete : String → Table → Table
delete k none = none
delete k (some (j, e)) = if str_eq k j then none else some (j, e)

abbrev pub keys : Table → List String
keys none = []
keys (some (j, e)) = j ∷ []

pub find-set :
    (k j : String) (e : CacheEntry) (t : Table) (x : CacheEntry)
    → find j (some (k, e)) ≡ some x
    → ((j ≡ k) × (x ≡ e)) ⊎ (find j t ≡ some x)
find-set k j e t x h = elim (Bool-cases (str_eq j k)) [
  | inl q ↦ inl ((eq_iff j k).0 q, cc (rw q at h))
  | inr q ↦ cc (rw q at h)
]

pub find-set_self :
    (k : String) (e : CacheEntry) (x : CacheEntry) → find k (some (k, e)) ≡ some x → x ≡ e
find-set_self k e x h = ground (arith, h, eq_iff k k)

pub find-delete :
    (k j : String) (t : Table) (e : CacheEntry) → find j (delete k t) ≡ some e → find j t ≡ some e
find-delete k j none e h = h
find-delete k j (some (i, x)) e h = ground (arith, h, eq_iff j i, eq_iff k i)

pub find-delete_self : (k : String) (t : Table) → find k (delete k t) ≡ none
find-delete_self k none = refl
find-delete_self k (some (i, x)) = ground (arith, eq_iff k i)

abbrev pub one_entry : Lru
one_entry = record {
  Table = Table;
  find = find;
  touch = λ k t. t;
  set = λ k e ttl t. some (k, e);
  delete = delete;
  keys = keys;
  empty = none;
  find-touch = λ k j t e h. h;
  find-set = λ k j e ttl t x h. find-set k j e t x h;
  find-set_self = λ k e ttl t x h. find-set_self k e x h;
  find-delete = λ k j t e h. find-delete k j t e h;
  find-delete_self = λ k t. find-delete_self k t;
  find-empty = λ k. refl;
}

pub not_packed : (v c : JsValue) (a : String) → as_is ≡ packed c a → some v ≡ some c
not_packed v c a h = cc h

abbrev pub plain : Compressor
plain = record {
  compress = λ v. as_is;
  decompress = λ v. some v;
  decompress-packed = λ v c a h. sym (not_packed v c a h);
}

abbrev pub config : MemoryConfig
config = record {
  default_ttl = 3600;
  enable = true;
  enable_compression = false;
  max_memory_mb = 50;
  critical_threshold_percent = 90;
}
