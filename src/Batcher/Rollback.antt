-- ===== src/Batcher/Rollback.antt =====
-- A rollback of what was added.
use wince_backend.Prelude.{
  ℕ, suc, ◌≤◌, length-take, ◌-◌, ◌≡◌, refl, ap, map, sym, length-map, ◌∙◌, arith, List, [], ◌∷◌,
  ◌++◌, length, take, length-append, take-length-append, append-nil,
}
use wince_backend.Batcher.{BatchOffset, Batcher, add, rollback, cut_last, size, drain}

module _ {T : Type 0} where
  abbrev pub add_all : List (T × BatchOffset) → Batcher T → Batcher T
  add_all [] b = b
  add_all ((row, o) ∷ ps) b = add_all ps (add row o b)

module _ {X : Type 0} where
  cut_last-append : (xs ys : List X) → cut_last (length ys) (xs ++ ys) ≡ xs
  cut_last-append xs ys =
      let h : length (xs ++ ys) - length ys ≡ length xs = omega (arith, length-append xs ys) in
      ap (λ n. take n (xs ++ ys)) h ∙ take-length-append xs ys

  append-snoc : (xs : List X) (y : X) (ys : List X) → (xs ++ y ∷ []) ++ ys ≡ xs ++ y ∷ ys
  append-snoc [] y ys = refl
  append-snoc (x ∷ xs) y ys = ap (◌∷◌ x) (append-snoc xs y ys)

module _ {T : Type 0} where
  abbrev pub added : List (T × BatchOffset) → Batcher T → Batcher T
  added ps b = record b {
    rows = b.rows ++ map (λ p. p.0) ps;
    offsets = b.offsets ++ map (λ p. p.1) ps;
  }

  add_all-added : (ps : List (T × BatchOffset)) (b : Batcher T) → add_all ps b ≡ added ps b
  unfolding add
  add_all-added [] b = simp append-nil
  add_all-added ((row, o) ∷ ps) b = add_all-added ps (add row o b) ∙ simp append-snoc

  cut_last-map :
      {X : Type 0} (f : T × BatchOffset → X) (xs : List X) (ps : List (T × BatchOffset))
      → cut_last (length ps) (xs ++ map f ps) ≡ xs
  cut_last-map f xs ps =
      ap (λ n. cut_last n (xs ++ map f ps)) (sym (length-map f ps)) ∙ cut_last-append xs (map f ps)

  -- A rollback of as many rows as were added gives the batcher back.
  pub rollback-add_all :
      (ps : List (T × BatchOffset)) (b : Batcher T) → rollback (length ps) (add_all ps b) ≡ b
  unfolding rollback
  rollback-add_all ps b =
      ap (rollback (length ps)) (add_all-added ps b)
      ∙ simp (cut_last-map (λ p. p.0) b.rows ps, cut_last-map (λ p. p.1) b.offsets ps)

module _ {T : Type 0} where
  -- the sizes after each operation
  pub size-add :
      (row : T) (o : BatchOffset) (b : Batcher T)
      → (size (add row o b) ≡ suc (size b)) × ((add row o b).batch_size ≡ b.batch_size)
  unfolding add
  size-add row o b = (omega (arith, length-append b.rows (row ∷ [])), refl)

  pub size-drain :
      (now : ℕ) (b : Batcher T)
      → (size (drain now b).1 ≡ 0) × ((drain now b).1.batch_size ≡ b.batch_size)
  unfolding drain
  size-drain now b = (refl, refl)

  pub size-rollback :
      (count : ℕ) (b : Batcher T)
      → (size (rollback count b) ≤ size b) × ((rollback count b).batch_size ≡ b.batch_size)
  unfolding rollback
  size-rollback count b = (omega (arith, length-take (size b - count) b.rows), refl)
