-- ===== src/Cache/Memory/Limits.antt =====
-- The limit of MemoryCache.ts on the estimate.
use Prim.Native.String.{String}
use wince_backend.Prelude.{
  ℕ, ◌+◌, ◌*◌, ◌≤◌, ◌<◌, ◌≡◌, ◌⊎◌, inl, inr, refl, arith, Option, none, some, ltb, ltb→lt,
  Bool-cases,
}
use wince_backend.Cache.Value.{JsValue, is_undefined}
use wince_backend.Cache.Tracker.{
  MemoryTracker, lookup, size_of, track_entry, calculate_memory_info, calculate_object_size,
}
use wince_backend.Cache.Memory.{
  CacheEntry, Lru, Compressor, MemoryConfig, MemoryCache, do_set, store_entry, entry_of,
  check_memory_limits, projected_usage, metadata_of, base_metadata, algorithm_value, freed,
}

module _ (L : Lru) (Z : Compressor) (cfg : MemoryConfig) (now : ℕ) where
  abbrev pub limit : ℕ
  limit = cfg.critical_threshold_percent * (cfg.max_memory_mb * 1048576)

  -- The field for the algorithm, which the check leaves out.
  abbrev pub overlooked : CacheEntry → ℕ
  overlooked e = 40 + calculate_object_size (algorithm_value L Z cfg now e.compression_algorithm)

  metadata_size :
      (e : CacheEntry)
      → calculate_object_size (metadata_of L Z cfg now e)
        ≡ calculate_object_size (base_metadata L Z cfg now) + overlooked e
  unfolding calculate_object_size
  metadata_size e = omega arith

  freed-le :
      (o : Option CacheEntry) (k : String) (t : MemoryTracker)
      → freed L Z cfg now o k t ≤ size_of (lookup k t.memory_map)
  freed-le none k t = omega arith
  freed-le (some e) k t = omega arith

  store_entry-limit :
      (k : String) (e : CacheEntry) (m : MemoryCache L Z cfg now)
      → projected_usage L Z cfg now k e.contents m * 100 < limit
      → (store_entry L Z cfg now k e m).tracker.total_memory_usage * 100
        < limit + overlooked e * 100
  unfolding projected_usage track_entry calculate_memory_info
  store_entry-limit k e m h =
      omega (arith, h, metadata_size e, freed-le (L.find k m.table) k m.tracker)

  -- A set leaves the estimate as it was, or below the critical share of the maximum but for the field
  -- that the check overlooks.
  pub do_set-limit :
      (k : String) (v : JsValue) (ttl : ℕ) (m : MemoryCache L Z cfg now)
      → let m' = do_set L Z cfg now k v ttl m in
        (m'.tracker ≡ m.tracker)
        ⊎ (m'.tracker.total_memory_usage * 100
            < limit + overlooked (entry_of L Z cfg now v ttl) * 100)
  unfolding do_set check_memory_limits
  do_set-limit k v ttl m = elim (Bool-cases (is_undefined v)) [
    | inl q ↦ rw q (inl refl)
    | inr q ↦ rw q (
        let e = entry_of L Z cfg now v ttl in
        elim (Bool-cases (ltb (projected_usage L Z cfg now k e.contents m * 100) limit)) [
          | inl r ↦ rw r (inr (store_entry-limit k e m (ltb→lt _ _ r)))
          | inr r ↦ rw r (inl refl)
        ])
  ]
