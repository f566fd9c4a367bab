-- ===== src/Expiry/Pending.antt =====
-- What expireRecommendations of stale-scanner.service.ts does to the rows of recommendations.
use Prim.Native.String.{String}
use text.Mathlib.Text.{◌==◌ as str_eq}
use wince_backend.Prelude.{
  ℕ, ◌≡◌, ◌⊎◌, inl, inr, refl, subst, sym, ap, arith, Bool-cases, Bool, true, false, Option, none,
  some, List, [], ◌∷◌,
}
use wince_backend.Redis.{Redis}
use wince_backend.World.{
  World, Recommendation, Status, pending, approved, rejected, executed, expired,
}
use wince_backend.World.Monad.{ok}
use wince_backend.World.Monad.Keeps.{Keeps, IsBlind, Keeps-bind, keeps_rules}
use wince_backend.World.Monad.Total.{IsTotal, IsTotal-pure, IsTotal-try, IsTotal-bind}
use wince_backend.Expiry.{
  is_pending, expire_row, expire_rows, expire_one, expire_all, due_in, expire_stores, scan_locked,
  acquire_expiry_lock, scan_expired, expire_recommendations,
}

-- A row that was pending and is now expired, and otherwise the same.
pub record IsExpiry (a b : Option Recommendation) : Type 0 where
  pub row : Recommendation
  pub before : a ≡ some row
  pub was_pending : row.status ≡ pending
  pub after : b ≡ some (record row { status = expired })

abbrev pub OnlyExpires : (a b : Option Recommendation) → Type 0
OnlyExpires a b = (b ≡ a) ⊎ IsExpiry a b

is_pending-eq : (s : Status) → is_pending s ≡ true → s ≡ pending
is_pending-eq pending q = refl
is_pending-eq approved q = ground arith
is_pending-eq rejected q = ground arith
is_pending-eq executed q = ground arith
is_pending-eq expired q = ground arith

expire_row-same : (a : Option Recommendation) → OnlyExpires a (expire_row a)
expire_row-same none = inl refl
expire_row-same (some r) = elim (Bool-cases (is_pending r.status)) [
  | inl q ↦ simp q (
      inr (record { row = r; before = refl; was_pending = is_pending-eq r.status q; after = refl }))
  | inr q ↦ simp q (inl refl)
]

expire_row-OnlyExpires :
    (a b : Option Recommendation) → OnlyExpires a b → OnlyExpires a (expire_row b)
expire_row-OnlyExpires a b (inl e) =
    subst (λ x. OnlyExpires a (expire_row x)) (sym e) (expire_row-same a)
expire_row-OnlyExpires a b (inr x) = inr (record {
  row = x.row;
  before = x.before;
  was_pending = x.was_pending;
  after = ap expire_row x.after;
})

module _ (R : Redis) (show_uuid : ℕ → String) (stores_of : R.Store → List ℕ) (start : World R) where
  -- every row, from the first state on
  pub record AllOnlyExpire (w : World R) : Type 0 where
    pub rows : (j : ℕ) → OnlyExpires (start.recommendations j) (w.recommendations j)

  AllOnlyExpire-IsBlind : IsBlind AllOnlyExpire
  AllOnlyExpire-IsBlind = record {
    store_blind = λ w s n p. record { rows = p.rows };
    redis_blind = λ w n p. record { rows = p.rows };
    db_blind = λ w n p. record { rows = p.rows };
    kafka_blind = λ w n p. record { rows = p.rows };
    messages_blind = λ w l n p. record { rows = p.rows };
    uuid_blind = λ w n p. record { rows = p.rows };
  }

  expire_rows-AllOnlyExpire :
      (m : String) (w : World R)
      → AllOnlyExpire w
      → AllOnlyExpire (expire_rows R show_uuid stores_of m w)
  expire_rows-AllOnlyExpire m w p = record {
    rows = λ j. elim (Bool-cases (str_eq (show_uuid j) m)) [
      | inl q ↦
          rw q (expire_row-OnlyExpires (start.recommendations j) (w.recommendations j) (p.rows j))
      | inr q ↦ rw q (p.rows j)
    ];
  }

  expire_one-Keeps :
      (k : ℕ) (m : String) → Keeps AllOnlyExpire (expire_one R show_uuid stores_of k m)
  unfolding expire_one
  expire_one-Keeps k m = search (keeps_rules, AllOnlyExpire-IsBlind, expire_rows-AllOnlyExpire)

  expire_all-Keeps :
      (k : ℕ) (ms : List String) → Keeps AllOnlyExpire (expire_all R show_uuid stores_of k ms)
  unfolding expire_all
  expire_all-Keeps k [] = search keeps_rules
  expire_all-Keeps k (m ∷ ms) =
      Keeps-bind (expire_one R show_uuid stores_of k m) _ (expire_one-Keeps k m)
        (λ _. expire_all-Keeps k ms)

  due_in-Keeps : (now k : ℕ) → Keeps AllOnlyExpire (due_in R show_uuid stores_of now k)
  unfolding due_in
  due_in-Keeps now k = search (keeps_rules, AllOnlyExpire-IsBlind)

  expire_stores-Keeps :
      (now : ℕ) (ks : List ℕ) → Keeps AllOnlyExpire (expire_stores R show_uuid stores_of now ks)
  unfolding expire_stores
  expire_stores-Keeps now [] = search keeps_rules
  expire_stores-Keeps now (k ∷ ks) =
      Keeps-bind (due_in R show_uuid stores_of now k) _ (due_in-Keeps now k) (λ due.
        Keeps-bind (expire_all R show_uuid stores_of k due) _ (expire_all-Keeps k due)
          (λ _. expire_stores-Keeps now ks))

  scan_expired-Keeps : Keeps AllOnlyExpire (scan_expired R show_uuid stores_of)
  unfolding scan_expired
  scan_expired-Keeps = search (keeps_rules, AllOnlyExpire-IsBlind, expire_stores-Keeps)

  acquire_expiry_lock-Keeps : Keeps AllOnlyExpire (acquire_expiry_lock R show_uuid stores_of)
  unfolding acquire_expiry_lock
  acquire_expiry_lock-Keeps = search (keeps_rules, AllOnlyExpire-IsBlind)

  scan_locked-Keeps : (b : Bool) → Keeps AllOnlyExpire (scan_locked R show_uuid stores_of b)
  scan_locked-Keeps false = search keeps_rules
  scan_locked-Keeps true = search (keeps_rules, AllOnlyExpire-IsBlind, scan_expired-Keeps)

  expire_recommendations-Keeps : Keeps AllOnlyExpire (expire_recommendations R show_uuid stores_of)
  unfolding expire_recommendations
  expire_recommendations-Keeps =
      Keeps-bind (acquire_expiry_lock R show_uuid stores_of) (scan_locked R show_uuid stores_of)
        acquire_expiry_lock-Keeps scan_locked-Keeps

  scan_locked-IsTotal : (b : Bool) → IsTotal (scan_locked R show_uuid stores_of b)
  scan_locked-IsTotal false = IsTotal-pure tt
  scan_locked-IsTotal true = search (IsTotal-pure, IsTotal-try, IsTotal-bind)

  acquire_expiry_lock-IsTotal : IsTotal (acquire_expiry_lock R show_uuid stores_of)
  unfolding acquire_expiry_lock
  acquire_expiry_lock-IsTotal = search (IsTotal-pure, IsTotal-try)

  expire_recommendations-IsTotal : IsTotal (expire_recommendations R show_uuid stores_of)
  unfolding expire_recommendations
  expire_recommendations-IsTotal =
      IsTotal-bind (acquire_expiry_lock R show_uuid stores_of) (scan_locked R show_uuid stores_of)
        acquire_expiry_lock-IsTotal scan_locked-IsTotal

  expire_recommendations-returns :
      (w : World R) → (expire_recommendations R show_uuid stores_of w).0 ≡ ok tt
  expire_recommendations-returns w = let (a, q) = expire_recommendations-IsTotal.returns w in q

  -- A scan for expired recommendations returns, whatever fails under it, and leaves each row as it was
  -- or finds it pending and leaves it expired and otherwise the same.
  pub expire_recommendations-OnlyExpires :
      let (r, w) = expire_recommendations R show_uuid stores_of start in
      (r ≡ ok tt) × ((j : ℕ) → OnlyExpires (start.recommendations j) (w.recommendations j))
  expire_recommendations-OnlyExpires = (
    expire_recommendations-returns start,
    (expire_recommendations-Keeps.at start (record { rows = λ j. inl refl })).rows,
  )
