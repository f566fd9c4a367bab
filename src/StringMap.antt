-- ===== src/StringMap.antt =====
-- A JavaScript Map with strings for keys: `get`, `set` and `delete`, in the order in which the keys
-- came.
use Prim.Native.String.{String}
use text.Mathlib.Text.{◌==◌ as str_eq}
use text.Mathlib.TextEquality.{eq_iff}
use wince_backend.Prelude.{
  ◌≡◌, refl, arith, Bool, true, false, Option, none, some, List, [], ◌∷◌, if◌then◌else◌,
}

module _ {ℓ} {A : Type ℓ} where
  unfoldable pub find : String → List (String × A) → Option A
  find k [] = none
  find k ((j, a) ∷ m) = if str_eq k j then some a else find k m

  unfoldable pub insert : String → A → List (String × A) → List (String × A)
  insert k a [] = (k, a) ∷ []
  insert k a ((j, b) ∷ m) =
      let rest = insert k a m in if str_eq k j then (k, a) ∷ m else (j, b) ∷ rest

  unfoldable pub erase : String → List (String × A) → List (String × A)
  erase k [] = []
  erase k ((j, b) ∷ m) = let rest = erase k m in if str_eq k j then rest else (j, b) ∷ rest

  abbrev pub all_of : (String × A → Bool) → List (String × A) → Bool
  all_of p [] = true
  all_of p (e ∷ m) = if p e then all_of p m else false

  pub find-all_of :
      (p : String × A → Bool) (k : String) (a : A) (m : List (String × A))
      → all_of p m ≡ true
      → find k m ≡ some a
      → p (k, a) ≡ true
  unfolding find
  find-all_of p k a [] h e = ground arith
  find-all_of p k a ((j, b) ∷ m) h e = ground (arith, eq_iff k j, find-all_of p k a m)

  pub all_of-insert :
      (p : String × A → Bool) (k : String) (a : A) (m : List (String × A))
      → all_of p m ≡ true
      → p (k, a) ≡ true
      → all_of p (insert k a m) ≡ true
  unfolding insert
  all_of-insert p k a [] h q = ground arith
  all_of-insert p k a ((j, b) ∷ m) h q = ground (arith, all_of-insert p k a m)

  pub all_of-erase :
      (p : String × A → Bool) (k : String) (m : List (String × A))
      → all_of p m ≡ true
      → all_of p (erase k m) ≡ true
  unfolding erase
  all_of-erase p k [] h = refl
  all_of-erase p k ((j, b) ∷ m) h = ground (arith, all_of-erase p k m)

  pub all_of-weaken :
      (p q : String × A → Bool)
      → ((e : String × A) → p e ≡ true → q e ≡ true)
      → (m : List (String × A)) → all_of p m ≡ true
      → all_of q m ≡ true
  all_of-weaken p q w [] h = refl
  all_of-weaken p q w (e ∷ m) h = ground (arith, w e, all_of-weaken p q w m)

  pub find-insert :
      (j k : String) (a : A) (m : List (String × A))
      → find j (insert k a m) ≡ (if str_eq j k then some a else find j m)
  unfolding find insert
  find-insert j k a [] = refl
  find-insert j k a ((i, b) ∷ m) =
      ground (arith, eq_iff k i, eq_iff j k, eq_iff j i, eq_iff k k, find-insert j k a m)

  pub find-erase :
      (j k : String) (m : List (String × A))
      → find j (erase k m) ≡ (if str_eq j k then none else find j m)
  unfolding find erase
  find-erase j k [] = ground arith
  find-erase j k ((i, b) ∷ m) = ground (arith, eq_iff k i, eq_iff j k, eq_iff j i, find-erase j k m)
