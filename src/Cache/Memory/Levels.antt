-- ===== src/Cache/Memory/Levels.antt =====
-- MemoryCache.ts as a level of cache.service.ts.
use Prim.Native.String.{String}
use wince_backend.Prelude.{
  ℕ, ◌≡◌, ◌⊎◌, inl, inr, refl, ap, ◌∙◌, arith, Bool, true, false, not, ◌&&◌, Option, none, some,
  Bool-cases,
}
use wince_backend.Cache.{CacheLevel, hit}
use wince_backend.Cache.Value.{JsValue, is_undefined}
use wince_backend.Cache.Memory.{
  CacheEntry, Lru, Compressor, Compression, packed, as_is, compress_failed, MemoryConfig,
  MemoryCache, value_of, peek_entry, reply_of, do_get, do_set, do_invalidate, store_entry, entry_of,
  entry_of_compression, check_memory_limits,
}

module _ (L : Lru) (Z : Compressor) (cfg : MemoryConfig) (now : ℕ) where
  open L use {find}

  abbrev pub Cached : Type 0
  Cached = MemoryCache L Z cfg now

  abbrev pub peek : String → Cached → Option JsValue
  peek k m = peek_entry L Z cfg now (find k m.table)

  abbrev pub stores_value : String → JsValue → ℕ → Cached → Bool
  stores_value k v ttl m =
      not (is_undefined v)
      && check_memory_limits L Z cfg now k (entry_of L Z cfg now v ttl).contents m

  pub reply-peek : (o : Option JsValue) (v : JsValue) → reply_of L Z cfg now o ≡ hit v → o ≡ some v
  reply-peek none v e = ground arith
  reply-peek (some w) v e = ground arith

  value_of-compression :
      (v : JsValue) (ttl : ℕ) (c : Compression)
      → Z.compress v ≡ c
      → value_of L Z cfg now (entry_of_compression L Z cfg now v ttl c) ≡ some v
  value_of-compression v ttl (packed c a) q = Z.decompress-packed v c a q
  value_of-compression v ttl as_is q = refl
  value_of-compression v ttl compress_failed q = refl

  -- An entry reads back as its value.
  value_of-entry_of :
      (v : JsValue) (ttl : ℕ) → value_of L Z cfg now (entry_of L Z cfg now v ttl) ≡ some v
  unfolding entry_of
  value_of-entry_of v ttl = elim (Bool-cases cfg.enable_compression) [
    | inl q ↦ simp q (value_of-compression v ttl (Z.compress v) refl)
    | inr q ↦ simp q refl
  ]

  peek_entry-some :
      (o : Option CacheEntry) (w : JsValue)
      → peek_entry L Z cfg now o ≡ some w
      → (x : CacheEntry) × (o ≡ some x) × (value_of L Z cfg now x ≡ some w)
  peek_entry-some none w h = cc h
  peek_entry-some (some x) w h = (x, refl, h)

  -- A table in which no entry appears shows nothing new.
  pub peek-shrink :
      (o p : Option CacheEntry) (w : JsValue)
      → ((x : CacheEntry) → o ≡ some x → p ≡ some x)
      → peek_entry L Z cfg now o ≡ some w
      → peek_entry L Z cfg now p ≡ some w
  peek-shrink o p w s h =
      let (x, q, r) = peek_entry-some o w h in ap (peek_entry L Z cfg now) (s x q) ∙ r

  pub peek-touch :
      (k j : String) (m : Cached) (w : JsValue)
      → peek j (record m { table = L.touch k m.table }) ≡ some w
      → peek j m ≡ some w
  peek-touch k j m w = peek-shrink _ _ w (λ x q. L.find-touch k j m.table x q)

  store_entry-peek :
      (k j : String) (v : JsValue) (ttl : ℕ) (m : Cached) (w : JsValue)
      → peek j (store_entry L Z cfg now k (entry_of L Z cfg now v ttl) m) ≡ some w
      → ((j ≡ k) × (w ≡ v)) ⊎ (peek j m ≡ some w)
  store_entry-peek k j v ttl m w h =
      let e = entry_of L Z cfg now v ttl in
      let (x, q, r) = peek_entry-some _ w h in
      elim (L.find-set k j e none (L.touch k m.table) x q) [
        | inl (p, s) ↦ inl (p, cc (r, s, value_of-entry_of v ttl))
        | inr s ↦ inr (peek-touch k j m w (ap (peek_entry L Z cfg now) s ∙ r))
      ]

  pub do_set-peek :
      (k j : String) (v : JsValue) (ttl : ℕ) (m : Cached) (w : JsValue)
      → peek j (do_set L Z cfg now k v ttl m) ≡ some w
      → ((j ≡ k) × (w ≡ v)) ⊎ (peek j m ≡ some w)
  unfolding do_set
  do_set-peek k j v ttl m w = elim (Bool-cases (is_undefined v)) [
    | inl q ↦ rw q (λ h. inr h)
    | inr q ↦
        rw q
          (elim (Bool-cases
            (check_memory_limits L Z cfg now k (entry_of L Z cfg now v ttl).contents m)) [
              | inl r ↦ rw r (store_entry-peek k j v ttl m w)
              | inr r ↦ rw r (λ h. inr (peek-touch k j m w h))
            ])
  ]

  pub do_set-peek_taken :
      (k : String) (v : JsValue) (ttl : ℕ) (m : Cached) (w : JsValue)
      → stores_value k v ttl m ≡ true
      → peek k (do_set L Z cfg now k v ttl m) ≡ some w
      → w ≡ v
  unfolding do_set
  do_set-peek_taken k v ttl m w t = elim (Bool-cases (is_undefined v)) [
    | inl q ↦ cc (rw q at t)
    | inr q ↦
        rw q
          (elim (Bool-cases
            (check_memory_limits L Z cfg now k (entry_of L Z cfg now v ttl).contents m)) [
              | inl r ↦ rw r (λ h.
                  let e = entry_of L Z cfg now v ttl in
                  let (x, p, s) = peek_entry-some _ w h in
                  let f = L.find-set_self k e none (L.touch k m.table) x p in
                  cc (f, s, value_of-entry_of v ttl))
              | inr r ↦ absurd (refused r)
            ])
  ]
    where
      refused :
          check_memory_limits L Z cfg now k (entry_of L Z cfg now v ttl).contents m ≡ false → ⊥
      refused r = ground (arith, t, r)

  -- The level: its reads and writes are those of `doGet`, `doSet` and `doInvalidate`, and a write that
  -- is past the limit of memory is the one that does not go through.
  unfoldable pub memory_level : CacheLevel
  unfolding do_get do_invalidate
  memory_level = record {
    Store = Cached;
    is_enabled = λ m. cfg.enable;
    get = do_get L Z cfg now;
    set = do_set L Z cfg now;
    invalidate = do_invalidate L Z cfg now;
    peek = peek;
    takes = stores_value;
    drops = λ k m. true;
    hit-peek = λ k m v e. reply-peek (peek k m) v e;
    peek-get = λ k j m v h. peek-touch k j m v h;
    peek-set = λ k j v ttl m w h. do_set-peek k j v ttl m w h;
    peek-set_taken = λ k v ttl m w t h. do_set-peek_taken k v ttl m w t h;
    peek-invalidate = λ k j m w. peek-shrink _ _ w (λ x q. L.find-delete k j m.table x q);
    peek-invalidate_dropped = λ k m t. ap (peek_entry L Z cfg now) (L.find-delete_self k m.table);
  }
