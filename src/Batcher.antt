-- ===== src/Batcher.antt =====
-- apps/analytics-consumer/src/batcher.ts: the rows that wait for the next flush, with their offsets.
mod Tests
pub mod Rollback
use Prim.Native.String.{String}
use wince_backend.Prelude.{
  ℕ, zero, suc, ◌+◌, ◌-◌, Bool, false, not, ◌&&◌, List, [], ◌∷◌, ◌++◌, length, take, leb, ltb, ◌==◌,
}

pub record BatchOffset : Type 0 where
  pub topic : String
  pub partition : ℕ
  pub offset : ℕ

pub record Batcher (T : Type 0) : Type 0 where
  pub rows : List T
  pub offsets : List BatchOffset
  pub last_drain_at : ℕ
  pub batch_size : ℕ
  pub batch_timeout_ms : ℕ

-- `splice(-count, count)`, which starts at 0 where there are fewer
abbrev pub cut_last {ℓ} : {X : Type ℓ} → ℕ → List X → List X
cut_last count xs = take (length xs - count) xs

module _ {T : Type 0} where
  pub add : T → BatchOffset → Batcher T → Batcher T
  add row o b = record b { rows = b.rows ++ row ∷ []; offsets = b.offsets ++ o ∷ [] }

  abbrev pub size : Batcher T → ℕ
  size b = length b.rows

  abbrev pub is_empty : Batcher T → Bool
  is_empty b = size b == 0

  abbrev pub is_size_full : Batcher T → Bool
  is_size_full b = leb b.batch_size (size b)

  -- A clock that went back is not expired.
  abbrev pub is_time_expired : ℕ → Batcher T → Bool
  is_time_expired now b = ltb 0 (size b) && leb (b.last_drain_at + b.batch_timeout_ms) now

  pub drain : ℕ → Batcher T → (List T × List BatchOffset) × Batcher T
  drain now b = ((b.rows, b.offsets), record b { rows = []; offsets = []; last_drain_at = now })

  pub rollback : ℕ → Batcher T → Batcher T
  rollback count b = record b { rows = cut_last count b.rows; offsets = cut_last count b.offsets }
