-- ===== src/Cache/Memory/Tracked.antt =====
-- The estimate of MemoryCache.ts under its operations.
use Prim.Native.String.{String}
use text.Mathlib.Text.{◌==◌ as str_eq}
use text.Mathlib.TextEquality.{eq_iff}
use wince_backend.Prelude.{
  ℕ, ◌*◌, ◌≡◌, ◌⊎◌, inl, inr, refl, Bool, true, Option, none, some, is_some, List, [], ◌∷◌,
  Bool-cases,
}
use wince_backend.Cache.Value.{
  JsValue, number, is_undefined, undefined, null, opaque, boolean, string, array, object,
}
use wince_backend.Cache.Tracker.{
  lookup, track_entry, IsBalanced, track_entry-IsBalanced, remove_entry-IsBalanced, lookup-insert,
  lookup-insert_self, lookup-remove_entry, clear,
}
use wince_backend.Cache.Memory.{
  CacheEntry, Lru, Compressor, MemoryConfig, MemoryCache, do_get, do_set, do_invalidate,
  do_invalidate_pattern, invalidate_keys, do_increment, increment_entry, count_up, new_counter,
  do_expire, expire_entry, dispose, entry_of, check_memory_limits, metadata_of,
}

pub data Op : Type 0 where
  get invalidate : String → Op
  set : String → JsValue → ℕ → Op
  increment expire : String → ℕ → Op
  invalidate_pattern : (String → Bool) → Op
  dispose_all : Op

module _ (L : Lru) (Z : Compressor) (cfg : MemoryConfig) (now : ℕ) where
  open L use {Table, find}

  -- The usage is the sum of the tracked entries, and every entry of the table is tracked.
  pub record IsTracked (m : MemoryCache L Z cfg now) : Type 0 where
    pub balanced : IsBalanced m.tracker
    pub tracked :
        (k : String) (e : CacheEntry)
        → find k m.table ≡ some e
        → is_some (lookup k m.tracker.memory_map) ≡ true

  -- a table in which nothing appears
  IsTracked-shrink :
      (m : MemoryCache L Z cfg now) (t : Table)
      → ((k : String) (e : CacheEntry) → find k t ≡ some e → find k m.table ≡ some e)
      → IsTracked m
      → IsTracked (record m { table = t })
  IsTracked-shrink m t s x = record {
    balanced = x.balanced;
    tracked = λ k e h. x.tracked k e (s k e h);
  }

  -- a write to the table together with the tracker
  IsTracked-store :
      (k : String) (e : CacheEntry) (v metadata : JsValue) (ttl : Option ℕ)
      (m : MemoryCache L Z cfg now)
      → IsTracked m
      → IsTracked (record m {
        table = L.set k e ttl (L.touch k m.table);
        tracker = track_entry k v metadata m.tracker;
      })
  unfolding track_entry
  IsTracked-store k e v metadata ttl m x = record {
    balanced = track_entry-IsBalanced k v metadata m.tracker x.balanced;
    tracked = λ j y h. new_or_old j y (L.find-set k j e ttl (L.touch k m.table) y h);
  }
    where
      new_or_old :
          (j : String) (y : CacheEntry)
          → ((j ≡ k) × (y ≡ e)) ⊎ (find j (L.touch k m.table) ≡ some y)
          → is_some (lookup j (track_entry k v metadata m.tracker).memory_map) ≡ true
      new_or_old j y (inl (p, q)) = rw p (lookup-insert_self k _ m.tracker.memory_map)
      new_or_old j y (inr q) =
          lookup-insert j k _ m.tracker.memory_map (x.tracked j y (L.find-touch k j m.table y q))

  -- a write to the table of an entry that was there
  IsTracked-rewrite :
      (k : String) (old e : CacheEntry) (ttl : Option ℕ) (m : MemoryCache L Z cfg now)
      → find k m.table ≡ some old
      → IsTracked m
      → IsTracked (record m { table = L.set k e ttl (L.touch k m.table) })
  IsTracked-rewrite k old e ttl m f x = record {
    balanced = x.balanced;
    tracked = λ j y h. new_or_old j y (L.find-set k j e ttl (L.touch k m.table) y h);
  }
    where
      new_or_old :
          (j : String) (y : CacheEntry)
          → ((j ≡ k) × (y ≡ e)) ⊎ (find j (L.touch k m.table) ≡ some y)
          → is_some (lookup j m.tracker.memory_map) ≡ true
      new_or_old j y (inl (p, q)) = rw p (x.tracked k old f)
      new_or_old j y (inr q) = x.tracked j y (L.find-touch k j m.table y q)

  do_get-IsTracked :
      (k : String) (m : MemoryCache L Z cfg now)
      → IsTracked m
      → IsTracked (do_get L Z cfg now k m).1
  unfolding do_get
  do_get-IsTracked k m x =
      IsTracked-shrink m (L.touch k m.table) (λ j e h. L.find-touch k j m.table e h) x

  do_set-IsTracked :
      (k : String) (v : JsValue) (ttl : ℕ) (m : MemoryCache L Z cfg now)
      → IsTracked m
      → IsTracked (do_set L Z cfg now k v ttl m)
  unfolding do_set do_get
  do_set-IsTracked k v ttl m x = elim (Bool-cases (is_undefined v)) [
    | inl q ↦ rw q x
    | inr q ↦
        rw q
          (elim (Bool-cases
            (check_memory_limits L Z cfg now k (entry_of L Z cfg now v ttl).contents m)) [
              | inl r ↦ rw r (
                  let e = entry_of L Z cfg now v ttl in
                  IsTracked-store k e e.contents (metadata_of L Z cfg now e) none m x)
              | inr r ↦ rw r (do_get-IsTracked k m x)
            ])
  ]

  do_invalidate-IsTracked :
      (k : String) (m : MemoryCache L Z cfg now)
      → IsTracked m
      → IsTracked (do_invalidate L Z cfg now k m)
  unfolding do_invalidate
  do_invalidate-IsTracked k m x = record {
    balanced = remove_entry-IsBalanced k m.tracker x.balanced;
    tracked = λ j e h. elim (Bool-cases (str_eq j k)) [
      | inl q ↦ cc (L.find-delete_self k m.table, h, (eq_iff j k).0 q)
      | inr q ↦ lookup-remove_entry j k m.tracker q (x.tracked j e (L.find-delete k j m.table e h))
    ];
  }

  invalidate_keys-IsTracked :
      (p : String → Bool) (ks : List String) (m : MemoryCache L Z cfg now)
      → IsTracked m
      → IsTracked (invalidate_keys L Z cfg now p ks m).1
  invalidate_keys-IsTracked p [] m x = x
  invalidate_keys-IsTracked p (k ∷ ks) m x = elim (Bool-cases (p k)) [
    | inl q ↦ rw q (invalidate_keys-IsTracked p ks _ (do_invalidate-IsTracked k m x))
    | inr q ↦ rw q (invalidate_keys-IsTracked p ks m x)
  ]

  new_counter-IsTracked :
      (k : String) (n : ℕ) (m : MemoryCache L Z cfg now)
      → IsTracked m
      → IsTracked (new_counter L Z cfg now k n m).1
  new_counter-IsTracked k n m x = IsTracked-store k _ (number n true) _ none m x

  count_up-IsTracked :
      (k : String) (n : ℕ) (v : JsValue) (e : CacheEntry) (m : MemoryCache L Z cfg now)
      → find k m.table ≡ some e
      → IsTracked m
      → IsTracked (count_up L Z cfg now k n v e m).1
  count_up-IsTracked k n (number i w) e m f x = IsTracked-rewrite k e _ none m f x
  count_up-IsTracked k n undefined e m f x = new_counter-IsTracked k n m x
  count_up-IsTracked k n null e m f x = new_counter-IsTracked k n m x
  count_up-IsTracked k n opaque e m f x = new_counter-IsTracked k n m x
  count_up-IsTracked k n (boolean b) e m f x = new_counter-IsTracked k n m x
  count_up-IsTracked k n (string s) e m f x = new_counter-IsTracked k n m x
  count_up-IsTracked k n (array vs) e m f x = new_counter-IsTracked k n m x
  count_up-IsTracked k n (object fs) e m f x = new_counter-IsTracked k n m x

  increment_entry-IsTracked :
      (k : String) (n : ℕ) (o : Option CacheEntry) (m : MemoryCache L Z cfg now)
      → find k m.table ≡ o
      → IsTracked m
      → IsTracked (increment_entry L Z cfg now k n o m).1
  increment_entry-IsTracked k n none m f x = new_counter-IsTracked k n m x
  increment_entry-IsTracked k n (some e) m f x = count_up-IsTracked k n e.contents e m f x

  expire_entry-IsTracked :
      (k : String) (ttl : ℕ) (o : Option CacheEntry) (m : MemoryCache L Z cfg now)
      → find k m.table ≡ o
      → IsTracked m
      → IsTracked (expire_entry L Z cfg now k ttl o m).1
  expire_entry-IsTracked k ttl none m f x =
      IsTracked-shrink m (L.touch k m.table) (λ j e h. L.find-touch k j m.table e h) x
  expire_entry-IsTracked k ttl (some e) m f x =
      IsTracked-rewrite k e (record e { ttl = ttl }) (some (ttl * 1000)) m f x

  dispose-IsTracked : (m : MemoryCache L Z cfg now) → IsTracked (dispose L Z cfg now m)
  unfolding dispose clear
  dispose-IsTracked m = record { balanced = refl; tracked = λ k e h. cc (h, L.find-empty k) }

  unfoldable pub apply : Op → MemoryCache L Z cfg now → MemoryCache L Z cfg now
  apply (get k) m = (do_get L Z cfg now k m).1
  apply (set k v ttl) m = do_set L Z cfg now k v ttl m
  apply (invalidate k) m = do_invalidate L Z cfg now k m
  apply (invalidate_pattern p) m = (do_invalidate_pattern L Z cfg now p m).1
  apply (increment k n) m = (do_increment L Z cfg now k n m).1
  apply (expire k ttl) m = (do_expire L Z cfg now k ttl m).1
  apply dispose_all m = dispose L Z cfg now m

  unfoldable pub apply_all : List Op → MemoryCache L Z cfg now → MemoryCache L Z cfg now
  apply_all [] m = m
  apply_all (o ∷ os) m = apply_all os (apply o m)

  apply-IsTracked : (o : Op) (m : MemoryCache L Z cfg now) → IsTracked m → IsTracked (apply o m)
  unfolding apply do_invalidate_pattern do_increment do_expire
  apply-IsTracked (get k) m x = do_get-IsTracked k m x
  apply-IsTracked (set k v ttl) m x = do_set-IsTracked k v ttl m x
  apply-IsTracked (invalidate k) m x = do_invalidate-IsTracked k m x
  apply-IsTracked (invalidate_pattern p) m x = invalidate_keys-IsTracked p (L.keys m.table) m x
  apply-IsTracked (increment k n) m x = increment_entry-IsTracked k n (find k m.table) m refl x
  apply-IsTracked (expire k ttl) m x = expire_entry-IsTracked k ttl (find k m.table) m refl x
  apply-IsTracked dispose_all m x = dispose-IsTracked m

  -- Any sequence of operations of the memory cache keeps the usage at the sum of the tracked entries
  -- and every entry of the table tracked.
  pub apply_all-IsTracked :
      (os : List Op) (m : MemoryCache L Z cfg now) → IsTracked m → IsTracked (apply_all os m)
  unfolding apply_all
  apply_all-IsTracked [] m x = x
  apply_all-IsTracked (o ∷ os) m x = apply_all-IsTracked os (apply o m) (apply-IsTracked o m x)
