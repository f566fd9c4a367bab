-- ===== src/Cache/Coherent.antt =====
-- `getOrCompute` of cache.service.ts over levels that hold nothing but the computed value.
use Prim.Native.String.{String}
use wince_backend.Prelude.{
  ℕ, ◌≡◌, ◌⊎◌, inl, inr, refl, ap, arith, true, not, ◌&&◌, Option, none, some, List, [], ◌∷◌, All,
  Bool-cases,
}
use wince_backend.Cache.Value.{JsValue, is_null, is_undefined}
use wince_backend.Cache.{
  Reply, hit, miss, threw, Slot, Config, value, returned, is_valid_key, get_at, or_else, get_from,
  get, set_at, set_in, set, after_read, get_or_compute, effective_ttl,
}

-- A level holds the value for the key, or nothing.
abbrev pub Holds : String → JsValue → Slot → Type 0
Holds k v c = (w : JsValue) → c.level.peek k c.store ≡ some w → w ≡ v

module _ (k : String) (v : JsValue) where
  -- A read answers nothing or the value.
  record Answers (r : Option JsValue) (cs : List Slot) : Type 1 where
    answer : (r ≡ none) ⊎ (r ≡ some v)
    holds : All (Holds k v) cs

  -- the same of one level
  record Replies (r : Reply) (c : Slot) : Type 1 where
    reply : (w : JsValue) → r ≡ hit w → w ≡ v
    keeps : Holds k v c

  get_at-Replies : (c : Slot) → Holds k v c → let (r, c') = get_at k c in Replies r c'
  get_at-Replies c h = elim (Bool-cases (c.level.is_enabled c.store)) [
    | inl q ↦ rw q (record {
      reply = λ w e. h w (c.level.hit-peek k c.store w e);
      keeps = λ w e. h w (c.level.peek-get k k c.store w e);
    })
    | inr q ↦ rw q (record { reply = λ w e. ground arith; keeps = h })
  ]

  or_else-Answers :
      (r : Reply) (c : Slot) (cs cs' : List Slot) (a : Option JsValue)
      → Replies r c
      → All (Holds k v) cs
      → Answers a cs'
      → let (b, ds) = or_else r c cs (a, cs') in Answers b ds
  or_else-Answers miss c cs cs' a p h x = record { answer = x.answer; holds = (p.keeps, x.holds) }
  or_else-Answers threw c cs cs' a p h x = record { answer = x.answer; holds = (p.keeps, x.holds) }
  or_else-Answers (hit w) c cs cs' a p h x = elim (Bool-cases (is_null w)) [
    | inl q ↦ rw q (record { answer = x.answer; holds = (p.keeps, x.holds) })
    | inr q ↦ rw q (record { answer = inr (ap some (p.reply w refl)); holds = (p.keeps, h) })
  ]

  get_from-Answers :
      (cs : List Slot) → All (Holds k v) cs → let (r, cs') = get_from k cs in Answers r cs'
  unfolding get_from
  get_from-Answers [] h = record { answer = inl refl; holds = tt }
  get_from-Answers (c ∷ cs) h =
      let (r, c') = get_at k c in
      let (a, cs') = get_from k cs in
      or_else-Answers r c' cs cs' a (get_at-Replies c h.0) h.1 (get_from-Answers cs h.1)

  set_at-Holds : (ttl : ℕ) (c : Slot) → Holds k v c → Holds k v (set_at k v ttl c)
  set_at-Holds ttl c h = elim (Bool-cases (c.level.is_enabled c.store)) [
    | inl q ↦ rw q (λ w e. old_or_new w (c.level.peek-set k k v ttl c.store w e))
    | inr q ↦ rw q h
  ]
    where
      old_or_new : (w : JsValue) → ((k ≡ k) × (w ≡ v)) ⊎ (c.level.peek k c.store ≡ some w) → w ≡ v
      old_or_new w (inl (e, f)) = f
      old_or_new w (inr e) = h w e

  set_in-Holds :
      (ttl : ℕ) (cs : List Slot) → All (Holds k v) cs → All (Holds k v) (set_in k v ttl cs)
  unfolding set_in
  set_in-Holds ttl [] h = tt
  set_in-Holds ttl (c ∷ cs) h = (set_at-Holds ttl c h.0, set_in-Holds ttl cs h.1)

  set-Holds :
      (cfg : Config) (ttl : ℕ) (cs : List Slot)
      → All (Holds k v) cs
      → All (Holds k v) (set cfg k v ttl cs)
  unfolding set
  set-Holds cfg ttl cs h = elim (Bool-cases (is_valid_key k && not (is_undefined v))) [
    | inl q ↦ rw q (set_in-Holds (effective_ttl cfg ttl) cs h)
    | inr q ↦ rw q h
  ]

  after_read-returned :
      (cfg : Config) (ttl : ℕ) (a : Option JsValue) (cs : List Slot)
      → Answers a cs
      → let (r, cs') = after_read cfg k ttl (value v) (a, cs) in
        (r ≡ returned v) × All (Holds k v) cs'
  after_read-returned cfg ttl none cs x = (refl, set-Holds cfg ttl cs x.holds)
  after_read-returned cfg ttl (some w) cs x = (ground (arith, x.answer), x.holds)

  -- Where every level holds nothing for a valid key but the value that the computation comes to,
  -- getOrCompute returns that value, whichever levels are disabled, empty, failing or swallowing the
  -- write, and leaves every level so.
  pub get_or_compute-returned :
      (cfg : Config) (ttl : ℕ) (cs : List Slot)
      → is_valid_key k ≡ true
      → All (Holds k v) cs
      → let (r, cs') = get_or_compute cfg k (value v) ttl cs in
        (r ≡ returned v) × All (Holds k v) cs'
  unfolding get_or_compute get
  get_or_compute-returned cfg ttl cs q h =
      rw q
        (let (a, cs') = get_from k cs in after_read-returned cfg ttl a cs' (get_from-Answers cs h))
