-- ===== src/Cache/Tracker.antt =====
-- packages/cache/src/utils/MemoryTracker.ts: an estimate of the memory that the entries of a cache
-- take, by key.
use Prim.Native.String.{String}
use text.Mathlib.Text.{◌==◌ as str_eq}
use text.Mathlib.TextEquality.{eq_iff}
use wince_backend.Prelude.{
  ℕ, suc, ◌+◌, ◌-◌, ◌*◌, ◌≡◌, refl, ap, arith, true, false, Option, none, some, is_some, List, [],
  ◌∷◌, if◌then◌else◌,
}
use wince_backend.Cache.Value.{
  JsValue, undefined, null, opaque, boolean, number, string, array, object, JsItems, nil, cons,
  JsFields, end, field, utf16_length,
}

-- `calculateObjectSize`
unfoldable mutual
  pub calculate_object_size : JsValue → ℕ
  calculate_object_size undefined = 0
  calculate_object_size null = 0
  calculate_object_size opaque = 8
  calculate_object_size (boolean b) = 4
  calculate_object_size (number n is_whole) = if is_whole then 8 else 16
  calculate_object_size (string s) = utf16_length s * 2
  calculate_object_size (array vs) = calculate_items_size vs + 8
  calculate_object_size (object fs) = 8 + calculate_fields_size fs

  pub calculate_items_size : JsItems → ℕ
  calculate_items_size nil = 0
  calculate_items_size (cons v vs) = calculate_object_size v + calculate_items_size vs

  pub calculate_fields_size : JsFields → ℕ
  calculate_fields_size end = 0
  calculate_fields_size (field k v fs) =
      utf16_length k * 2 + calculate_object_size v + calculate_fields_size fs

pub record MemoryInfo : Type 0 where
  pub key_size : ℕ
  pub value_size : ℕ
  pub metadata_size : ℕ
  pub total_size : ℕ

pub record MemoryTracker : Type 0 where
  pub memory_map : List (String × MemoryInfo)
  pub total_memory_usage : ℕ
  pub operation_count : ℕ

-- `memoryMap.get`, `set` and `delete`
unfoldable pub lookup : String → List (String × MemoryInfo) → Option MemoryInfo
lookup k [] = none
lookup k ((j, i) ∷ m) = if str_eq k j then some i else lookup k m

unfoldable pub insert :
    String → MemoryInfo → List (String × MemoryInfo) → List (String × MemoryInfo)
insert k i [] = (k, i) ∷ []
insert k i ((j, h) ∷ m) = if str_eq k j then (j, i) ∷ m else (j, h) ∷ insert k i m

unfoldable pub erase : String → List (String × MemoryInfo) → List (String × MemoryInfo)
erase k [] = []
erase k ((j, h) ∷ m) = let rest = erase k m in if str_eq k j then m else (j, h) ∷ rest

abbrev pub size_of : Option MemoryInfo → ℕ
size_of none = 0
size_of (some i) = i.total_size

unfoldable pub calculate_memory_info : String → JsValue → JsValue → MemoryInfo
calculate_memory_info k v metadata = record {
  key_size = utf16_length k * 2;
  value_size = calculate_object_size v;
  metadata_size = calculate_object_size metadata;
  total_size = utf16_length k * 2 + calculate_object_size v + calculate_object_size metadata;
}

abbrev pub track_info : String → MemoryInfo → MemoryTracker → MemoryTracker
track_info k i t = record t {
  memory_map = insert k i t.memory_map;
  total_memory_usage = t.total_memory_usage - size_of (lookup k t.memory_map) + i.total_size;
  operation_count = suc t.operation_count;
}

unfoldable pub track_entry : String → JsValue → JsValue → MemoryTracker → MemoryTracker
track_entry k v metadata t = track_info k (calculate_memory_info k v metadata) t

abbrev remove_info : Option MemoryInfo → String → MemoryTracker → MemoryTracker
remove_info none k t = t
remove_info (some i) k t = record t {
  memory_map = erase k t.memory_map;
  total_memory_usage = t.total_memory_usage - i.total_size;
}

unfoldable pub remove_entry : String → MemoryTracker → MemoryTracker
remove_entry k t = remove_info (lookup k t.memory_map) k t

unfoldable pub clear : MemoryTracker → MemoryTracker
clear t = record { memory_map = []; total_memory_usage = 0; operation_count = 0 }

abbrev pub total_size : List (String × MemoryInfo) → ℕ
total_size [] = 0
total_size ((k, i) ∷ m) = i.total_size + total_size m

-- The usage is the sum of the entries.
abbrev pub IsBalanced : MemoryTracker → Type 0
IsBalanced t = t.total_memory_usage ≡ total_size t.memory_map

total_size-insert :
    (k : String) (i : MemoryInfo) (m : List (String × MemoryInfo))
    → total_size (insert k i m) + size_of (lookup k m) ≡ total_size m + i.total_size
unfolding insert lookup
total_size-insert k i [] = omega arith
total_size-insert k i ((j, h) ∷ m) = ground (arith, total_size-insert k i m)

total_size-erase :
    (k : String) (m : List (String × MemoryInfo))
    → total_size (erase k m) + size_of (lookup k m) ≡ total_size m
unfolding erase lookup
total_size-erase k [] = omega arith
total_size-erase k ((j, h) ∷ m) = ground (arith, total_size-erase k m)

pub track_entry-IsBalanced :
    (k : String) (v metadata : JsValue) (t : MemoryTracker)
    → IsBalanced t
    → IsBalanced (track_entry k v metadata t)
unfolding track_entry
track_entry-IsBalanced k v metadata t b =
    let i = calculate_memory_info k v metadata in
    omega (arith, b, total_size-insert k i t.memory_map, total_size-erase k t.memory_map)

remove_info-IsBalanced :
    (o : Option MemoryInfo) (k : String) (t : MemoryTracker)
    → lookup k t.memory_map ≡ o
    → IsBalanced t
    → IsBalanced (remove_info o k t)
remove_info-IsBalanced none k t e b = b
remove_info-IsBalanced (some i) k t e b =
    omega (arith, b, total_size-erase k t.memory_map, ap size_of e)

pub remove_entry-IsBalanced :
    (k : String) (t : MemoryTracker) → IsBalanced t → IsBalanced (remove_entry k t)
unfolding remove_entry
remove_entry-IsBalanced k t b = remove_info-IsBalanced (lookup k t.memory_map) k t refl b

pub lookup-insert :
    (j k : String) (i : MemoryInfo) (m : List (String × MemoryInfo))
    → is_some (lookup j m) ≡ true
    → is_some (lookup j (insert k i m)) ≡ true
unfolding lookup insert
lookup-insert j k i [] h = ground arith
lookup-insert j k i ((l, x) ∷ m) h = ground (arith, lookup-insert j k i m, eq_iff j l, eq_iff k l)

pub lookup-insert_self :
    (k : String) (i : MemoryInfo) (m : List (String × MemoryInfo))
    → is_some (lookup k (insert k i m)) ≡ true
unfolding lookup insert
lookup-insert_self k i [] = ground (arith, eq_iff k k)
lookup-insert_self k i ((l, x) ∷ m) = ground (arith, lookup-insert_self k i m, eq_iff k l)

pub lookup-erase :
    (j k : String) (m : List (String × MemoryInfo))
    → str_eq j k ≡ false
    → is_some (lookup j m) ≡ true
    → is_some (lookup j (erase k m)) ≡ true
unfolding lookup erase
lookup-erase j k [] q h = h
lookup-erase j k ((l, x) ∷ m) q h =
    ground (arith, lookup-erase j k m, eq_iff j l, eq_iff k l, eq_iff j k)

remove_info-lookup :
    (o : Option MemoryInfo) (j k : String) (t : MemoryTracker)
    → str_eq j k ≡ false
    → is_some (lookup j t.memory_map) ≡ true
    → is_some (lookup j (remove_info o k t).memory_map) ≡ true
remove_info-lookup none j k t q h = h
remove_info-lookup (some i) j k t q h = lookup-erase j k t.memory_map q h

pub lookup-remove_entry :
    (j k : String) (t : MemoryTracker)
    → str_eq j k ≡ false
    → is_some (lookup j t.memory_map) ≡ true
    → is_some (lookup j (remove_entry k t).memory_map) ≡ true
unfolding remove_entry
lookup-remove_entry j k t q h = remove_info-lookup (lookup k t.memory_map) j k t q h
