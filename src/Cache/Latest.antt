-- ===== src/Cache/Latest.antt =====
-- cache.service.ts against a map from keys to the values last written.
use Prim.Native.String.{String}
use text.Mathlib.Text.{◌==◌ as str_eq}
use text.Mathlib.TextEquality.{eq_iff}
use wince_backend.Prelude.{
  ℕ, ◌≡◌, ◌⊎◌, inl, inr, refl, ap, sym, ◌∙◌, subst, arith, true, false, not, ◌&&◌, Option, none,
  some, List, [], ◌∷◌, All, Bool-cases, if◌then◌else◌,
}
use wince_backend.Cache.Value.{JsValue, is_null, is_undefined}
use wince_backend.Cache.{
  Reply, hit, miss, threw, Slot, Config, is_valid_key, get_at, or_else, get_from, get, set_at,
  set_in, set, invalidate_at, invalidate_in, invalidate, effective_ttl,
}

-- The abstract cache: for each key the value last written, or none after an invalidation.
abbrev pub Spec : Type 0
Spec = String → Option JsValue

abbrev pub put : String → Option JsValue → Spec → Spec
put k v f j = if str_eq j k then v else f j

pub data Op : Type 0 where
  read drop : String → Op
  write : String → JsValue → ℕ → Op

-- The answer of an operation, none but for a read, and what it leaves.
abbrev pub apply : Config → Op → List Slot → Option JsValue × List Slot
apply cfg (read k) cs = get k cs
apply cfg (drop k) cs = (none, invalidate k cs)
apply cfg (write k v ttl) cs = (none, set cfg k v ttl cs)

abbrev pub apply_spec : Op → Spec → Option JsValue × Spec
apply_spec (read k) f = (f k, f)
apply_spec (drop k) f = (none, if is_valid_key k then put k none f else f)
apply_spec (write k v ttl) f =
    (none, if is_valid_key k && not (is_undefined v) then put k (some v) f else f)

unfoldable pub answers : Config → List Op → List Slot → List (Option JsValue)
answers cfg [] cs = []
answers cfg (o ∷ os) cs = let (r, cs') = apply cfg o cs in r ∷ answers cfg os cs'

pub spec_answers : List Op → Spec → List (Option JsValue)
spec_answers [] f = []
spec_answers (o ∷ os) f = let (r, f') = apply_spec o f in r ∷ spec_answers os f'

-- A write or an invalidation goes through at every level, which is enabled.
abbrev pub GoesThrough : Config → Op → List Slot → Type 0
GoesThrough cfg (read k) cs = Unit
GoesThrough cfg (drop k) cs =
    All (λ (c : Slot). (c.level.is_enabled c.store ≡ true) × (c.level.drops k c.store ≡ true)) cs
GoesThrough cfg (write k v ttl) cs =
    All
      (λ (c : Slot).
        (c.level.is_enabled c.store ≡ true)
        × (c.level.takes k v (effective_ttl cfg ttl) c.store ≡ true))
      cs

abbrev pub AllGoThrough : Config → List Op → List Slot → Type 0
AllGoThrough cfg [] cs = Unit
AllGoThrough cfg (o ∷ os) cs = GoesThrough cfg o cs × AllGoThrough cfg os (apply cfg o cs).1

-- Each answer is none or the abstract one.
abbrev pub Forgets : List (Option JsValue) → List (Option JsValue) → Type 0
Forgets [] [] = Unit
Forgets (r ∷ rs) (a ∷ as') = ((r ≡ none) ⊎ (r ≡ a)) × Forgets rs as'
Forgets _ _ = ⊥

-- A level holds nothing but what was last written.
abbrev pub IsLatest : Spec → Slot → Type 0
IsLatest f c = (k : String) (w : JsValue) → c.level.peek k c.store ≡ some w → f k ≡ some w

record Answers (f : Spec) (k : String) (r : Option JsValue) (cs : List Slot) : Type 1 where
  answer : (r ≡ none) ⊎ (r ≡ f k)
  latest : All (IsLatest f) cs

record Replies (f : Spec) (k : String) (r : Reply) (c : Slot) : Type 1 where
  reply : (w : JsValue) → r ≡ hit w → f k ≡ some w
  keeps : IsLatest f c

module _ (f : Spec) (k : String) where
  get_at-Replies : (c : Slot) → IsLatest f c → let (r, c') = get_at k c in Replies f k r c'
  get_at-Replies c h = elim (Bool-cases (c.level.is_enabled c.store)) [
    | inl q ↦ rw q (record {
      reply = λ w e. h k w (c.level.hit-peek k c.store w e);
      keeps = λ j w e. h j w (c.level.peek-get k j c.store w e);
    })
    | inr q ↦ rw q (record { reply = λ w e. ground arith; keeps = h })
  ]

  or_else-Answers :
      (r : Reply) (c : Slot) (cs cs' : List Slot) (a : Option JsValue)
      → Replies f k r c
      → All (IsLatest f) cs
      → Answers f k a cs'
      → let (b, ds) = or_else r c cs (a, cs') in Answers f k b ds
  or_else-Answers miss c cs cs' a p h x = record { answer = x.answer; latest = (p.keeps, x.latest) }
  or_else-Answers threw c cs cs' a p h x = record {
    answer = x.answer;
    latest = (p.keeps, x.latest);
  }
  or_else-Answers (hit w) c cs cs' a p h x = elim (Bool-cases (is_null w)) [
    | inl q ↦ rw q (record { answer = x.answer; latest = (p.keeps, x.latest) })
    | inr q ↦ rw q (record { answer = inr (sym (p.reply w refl)); latest = (p.keeps, h) })
  ]

  get_from-Answers :
      (cs : List Slot) → All (IsLatest f) cs → let (r, cs') = get_from k cs in Answers f k r cs'
  unfolding get_from
  get_from-Answers [] h = record { answer = inl refl; latest = tt }
  get_from-Answers (c ∷ cs) h =
      let (r, c') = get_at k c in
      let (a, cs') = get_from k cs in
      or_else-Answers r c' cs cs' a (get_at-Replies c h.0) h.1 (get_from-Answers cs h.1)

  get-Answers :
      (cs : List Slot) → All (IsLatest f) cs → let (r, cs') = get k cs in Answers f k r cs'
  unfolding get
  get-Answers cs h = elim (Bool-cases (is_valid_key k)) [
    | inl q ↦ rw q (get_from-Answers cs h)
    | inr q ↦ rw q (record { answer = inl refl; latest = h })
  ]

  -- a write that goes through
  set_at-IsLatest :
      (v : JsValue) (ttl : ℕ) (c : Slot)
      → IsLatest f c
      → c.level.is_enabled c.store ≡ true
      → c.level.takes k v ttl c.store ≡ true
      → IsLatest (put k (some v) f) (set_at k v ttl c)
  set_at-IsLatest v ttl c h on t = rw on (λ j w e. elim (Bool-cases (str_eq j k)) [
    | inl q ↦ rw q (
        sym (
          ap some (
            c.level.peek-set_taken k v ttl c.store w t (
              subst (λ i. c.level.peek i (c.level.set k v ttl c.store) ≡ some w) ((eq_iff j k).0 q)
                e))))
    | inr q ↦ rw q (other j w q (c.level.peek-set k j v ttl c.store w e))
  ])
    where
      other :
          (j : String) (w : JsValue)
          → str_eq j k ≡ false
          → ((j ≡ k) × (w ≡ v)) ⊎ (c.level.peek j c.store ≡ some w)
          → f j ≡ some w
      other j w q (inl (e, g)) = cc (q, (eq_iff j k).1 e)
      other j w q (inr e) = h j w e

  set_in-IsLatest :
      (v : JsValue) (ttl : ℕ) (cs : List Slot)
      → All (IsLatest f) cs
      → All
          (λ (c : Slot).
            (c.level.is_enabled c.store ≡ true) × (c.level.takes k v ttl c.store ≡ true))
          cs
      → All (IsLatest (put k (some v) f)) (set_in k v ttl cs)
  unfolding set_in
  set_in-IsLatest v ttl [] h t = tt
  set_in-IsLatest v ttl (c ∷ cs) h t =
      (set_at-IsLatest v ttl c h.0 t.0.0 t.0.1, set_in-IsLatest v ttl cs h.1 t.1)

  invalidate_at-IsLatest :
      (c : Slot)
      → IsLatest f c
      → c.level.is_enabled c.store ≡ true
      → c.level.drops k c.store ≡ true
      → IsLatest (put k none f) (invalidate_at k c)
  invalidate_at-IsLatest c h on t = rw on (λ j w e. elim (Bool-cases (str_eq j k)) [
    | inl q ↦ rw q (
        sym (c.level.peek-invalidate_dropped k c.store t)
        ∙ subst (λ i. c.level.peek i (c.level.invalidate k c.store) ≡ some w) ((eq_iff j k).0 q) e)
    | inr q ↦ rw q (h j w (c.level.peek-invalidate k j c.store w e))
  ])

  invalidate_in-IsLatest :
      (cs : List Slot)
      → All (IsLatest f) cs
      → All
          (λ (c : Slot). (c.level.is_enabled c.store ≡ true) × (c.level.drops k c.store ≡ true))
          cs
      → All (IsLatest (put k none f)) (invalidate_in k cs)
  unfolding invalidate_in
  invalidate_in-IsLatest [] h t = tt
  invalidate_in-IsLatest (c ∷ cs) h t =
      (invalidate_at-IsLatest c h.0 t.0.0 t.0.1, invalidate_in-IsLatest cs h.1 t.1)

-- One operation keeps the levels at what was last written.
apply-IsLatest :
    (cfg : Config) (o : Op) (f : Spec) (cs : List Slot)
    → All (IsLatest f) cs
    → GoesThrough cfg o cs
    → All (IsLatest (apply_spec o f).1) (apply cfg o cs).1
unfolding set invalidate
apply-IsLatest cfg (read k) f cs h g = (get-Answers f k cs h).latest
apply-IsLatest cfg (drop k) f cs h g = elim (Bool-cases (is_valid_key k)) [
  | inl q ↦ rw q (invalidate_in-IsLatest f k cs h g)
  | inr q ↦ rw q h
]
apply-IsLatest cfg (write k v ttl) f cs h g =
    elim (Bool-cases (is_valid_key k && not (is_undefined v))) [
      | inl q ↦ rw q (set_in-IsLatest f k v (effective_ttl cfg ttl) cs h g)
      | inr q ↦ rw q h
    ]

apply-answer :
    (cfg : Config) (o : Op) (f : Spec) (cs : List Slot)
    → All (IsLatest f) cs
    → ((apply cfg o cs).0 ≡ none) ⊎ ((apply cfg o cs).0 ≡ (apply_spec o f).0)
apply-answer cfg (read k) f cs h = (get-Answers f k cs h).answer
apply-answer cfg (drop k) f cs h = inl refl
apply-answer cfg (write k v ttl) f cs h = inl refl

-- The levels refine the map of the values last written, where they forget: in any sequence of reads,
-- writes and invalidations of which the latter two go through at every level, from levels that hold
-- nothing but what the map does, each answer is none or the one of the map.
pub answers-Forgets :
    (cfg : Config) (os : List Op) (f : Spec) (cs : List Slot)
    → All (IsLatest f) cs
    → AllGoThrough cfg os cs
    → Forgets (answers cfg os cs) (spec_answers os f)
unfolding answers spec_answers
answers-Forgets cfg [] f cs h g = tt
answers-Forgets cfg (o ∷ os) f cs h g = (
  apply-answer cfg o f cs h,
  answers-Forgets cfg os (apply_spec o f).1 (apply cfg o cs).1 (apply-IsLatest cfg o f cs h g.0)
      g.1,
)
