-- ===== src/Clickhouse/Chunks.antt =====
-- The chunks of `batchInsert`.
use wince_backend.Prelude.{
  ℕ, zero, suc, ◌-◌, ◌≤◌, ◌<◌, ◌≡◌, refl, ap, ◌∙◌, sym, arith, Bool, some, List, [], ◌∷◌, ◌++◌, All,
  length, length-take, take, drop, take-append-drop, take-length-append, append-nil,
}
use wince_backend.Clickhouse.{chunks_of, BatchResult, batch_insert, process_batches, count_batch}
use wince_backend.Retry.{resolved}

module _ {X : Type 0} where
  abbrev pub concat : List (List X) → List X
  concat [] = []
  concat (xs ∷ xss) = xs ++ concat xss

  length-drop : (n : ℕ) (xs : List X) → length (drop n xs) ≡ length xs - n
  length-drop zero xs = omega arith
  length-drop (suc n) [] = omega arith
  length-drop (suc n) (x ∷ xs) = omega (arith, length-drop n xs)

  -- With a size above zero and as much fuel as rows, the chunks are the rows in their order, and no
  -- chunk is longer than the size.
  pub concat-chunks_of :
      (fuel size : ℕ) (xs : List X)
      → 0 < size
      → length xs ≤ fuel
      → (concat (chunks_of fuel size xs) ≡ xs) × All (λ c. length c ≤ size) (chunks_of fuel size xs)
  concat-chunks_of fuel size [] p h = (refl, tt)
  concat-chunks_of zero size (x ∷ xs) p h = ground arith
  concat-chunks_of (suc fuel) size (x ∷ xs) p h =
      let (c, a) =
        concat-chunks_of fuel size (drop size (x ∷ xs)) p
          (omega (arith, p, h, length-drop size (x ∷ xs))) in
      (
        ap (λ r. take size (x ∷ xs) ++ r) c ∙ take-append-drop size (x ∷ xs),
        (omega (arith, length-take size (x ∷ xs)), a),
      )

  drop-length : (xs : List X) → drop (length xs) xs ≡ []
  drop-length [] = refl
  drop-length (x ∷ xs) = drop-length xs

  -- one chunk, where the size is the number of rows
  pub chunks_of-length :
      (fuel : ℕ) (x : X) (xs : List X)
      → chunks_of (suc fuel) (length (x ∷ xs)) (x ∷ xs) ≡ (x ∷ xs) ∷ []
  chunks_of-length fuel x xs =
      ap (λ r. (x ∷ r) ∷ chunks_of fuel (length (x ∷ xs)) (drop (length xs) xs))
        (ap (take (length xs)) (sym (append-nil xs)) ∙ take-length-append xs [])
      ∙ ap (λ r. (x ∷ xs) ∷ chunks_of fuel (length (x ∷ xs)) r) (drop-length xs)

module _ {S Row : Type 0} (insert : List Row → S → Bool × S) where
  -- `batchInsert` of its rows as one chunk: it resolves whether the insert went through or not.
  pub batch_insert-resolves :
      (row : Row) (rows : List Row) (s : S)
      → (r : BatchResult) × (batch_insert insert (length (row ∷ rows)) (row ∷ rows) s
          ≡ (resolved (some r), (insert (row ∷ rows) s).1))
  unfolding batch_insert process_batches
  batch_insert-resolves row rows s = rw (chunks_of-length (length rows) row rows) (_, refl)

module _ {S Row : Type 0} (P : S → Type 0) (insert : List Row → S → Bool × S)
    (keeps : (rows : List Row) (s : S) → P s → P (insert rows s).1) where
  process_batches-keeps :
      (batches : List (List Row)) (counts : ℕ × ℕ) (s : S)
      → P s
      → P (process_batches insert batches counts s).1
  unfolding process_batches
  process_batches-keeps [] counts s p = p
  process_batches-keeps (batch ∷ batches) counts s p =
      let (done, s') = insert batch s in
      process_batches-keeps batches (count_batch insert done counts) s' (keeps batch s p)

  -- What each insert keeps, `batchInsert` keeps.
  pub batch_insert-keeps :
      (size : ℕ) (rows : List Row) (s : S) → P s → P (batch_insert insert size rows s).1
  unfolding batch_insert
  batch_insert-keeps size [] s p = p
  batch_insert-keeps size (row ∷ rows) s p =
      process_batches-keeps (chunks_of (length (row ∷ rows)) size (row ∷ rows)) (0, 0) s p
