-- ===== src/Consumer/Order.antt =====
-- The order in which decision.consumer.ts processes a batch.
use Prim.Native.String.{String}
use text.Mathlib.Text.{◌==◌ as str_eq}
use text.Mathlib.TextEquality.{eq_iff}
use wince_backend.Prelude.{
  ℕ, ◌≤◌, ◌<◌, ◌≡◌, refl, ap, ◌∙◌, ◌⊎◌, inl, inr, arith, Bool, false, not, ◌||◌, Option, none, some,
  List, [], ◌∷◌, ◌++◌, filter, All, All-append, leb, ◌==◌, Bool-cases,
}
use wince_backend.Consumer.{
  Parsed, rank, event_priority, priority_rank, insert_by_rank, sort_by_rank,
}

-- the event of the message carries the priority
abbrev pub carries : String → Option String → Bool
carries name none = false
carries name (some p) = str_eq p name

abbrev pub has_priority : String → Parsed → Bool
has_priority name m = carries name (event_priority m.event)

-- none of the three names
abbrev pub is_unranked : Parsed → Bool
is_unranked m =
    not (has_priority "critical" m || (has_priority "high" m || has_priority "normal" m))

-- The messages of one rank, in their order.
abbrev of_rank : ℕ → List Parsed → List Parsed
of_rank r = filter (λ m. rank m == r)

All-of_rank : (r : ℕ) (ms : List Parsed) → All (λ n. rank n ≡ r) (of_rank r ms)
All-of_rank r [] = tt
All-of_rank r (m ∷ ms) = elim (Bool-cases (rank m == r)) [
  | inl q ↦ rw q (ground arith, All-of_rank r ms)
  | inr q ↦ rw q (All-of_rank r ms)
]

-- A message comes after those of lower ranks, and before the first of its own or a higher one.
insert-skip :
    (r : ℕ) (m : Parsed) (xs ys : List Parsed)
    → All (λ n. rank n ≡ r) xs
    → r < rank m
    → insert_by_rank m (xs ++ ys) ≡ xs ++ insert_by_rank m ys
unfolding insert_by_rank
insert-skip r m [] ys a l = refl
insert-skip r m (x ∷ xs) ys a l = elim (Bool-cases (leb (rank m) (rank x))) [
  | inl q ↦ ground (arith, a.0, q, l)
  | inr q ↦ rw q (ap (◌∷◌ x) (insert-skip r m xs ys a.1 l))
]

insert-stop :
    (m : Parsed) (ys : List Parsed) → All (λ n. rank m ≤ rank n) ys → insert_by_rank m ys ≡ m ∷ ys
unfolding insert_by_rank
insert-stop m [] a = refl
insert-stop m (y ∷ ys) a = elim (Bool-cases (leb (rank m) (rank y))) [
  | inl q ↦ rw q refl
  | inr q ↦ ground (arith, a.0, q)
]

All-above :
    (s r : ℕ) (ms : List Parsed) → s ≤ r → All (λ n. rank n ≡ r) ms → All (λ n. s ≤ rank n) ms
All-above s r [] l a = tt
All-above s r (m ∷ ms) l a = (omega (arith, l, a.0), All-above s r ms l a.1)

rank-cases :
    (p : Option String)
    → (priority_rank p ≡ 0)
      ⊎ ((priority_rank p ≡ 1) ⊎ ((priority_rank p ≡ 2) ⊎ (priority_rank p ≡ 3)))
rank-cases none = inr (inr (inr refl))
rank-cases (some p) = ground arith

-- the messages from a rank on, one rank after the other
abbrev from_rank_2 : List Parsed → List Parsed
from_rank_2 ms = of_rank 2 ms ++ of_rank 3 ms

abbrev from_rank_1 : List Parsed → List Parsed
from_rank_1 ms = of_rank 1 ms ++ from_rank_2 ms

abbrev by_rank : List Parsed → List Parsed
by_rank ms = of_rank 0 ms ++ from_rank_1 ms

module _ (s : ℕ) (ms : List Parsed) where
  above_3 : s ≤ 3 → All (λ n. s ≤ rank n) (of_rank 3 ms)
  above_3 l = All-above s 3 (of_rank 3 ms) l (All-of_rank 3 ms)

  above_2 : s ≤ 2 → All (λ n. s ≤ rank n) (from_rank_2 ms)
  above_2 l =
      All-append (λ n. s ≤ rank n) (of_rank 2 ms) (of_rank 3 ms)
        (All-above s 2 (of_rank 2 ms) l (All-of_rank 2 ms)) (above_3 (omega (arith, l)))

  above_1 : s ≤ 1 → All (λ n. s ≤ rank n) (from_rank_1 ms)
  above_1 l =
      All-append (λ n. s ≤ rank n) (of_rank 1 ms) (from_rank_2 ms)
        (All-above s 1 (of_rank 1 ms) l (All-of_rank 1 ms)) (above_2 (omega (arith, l)))

  above_0 : s ≤ 0 → All (λ n. s ≤ rank n) (by_rank ms)
  above_0 l =
      All-append (λ n. s ≤ rank n) (of_rank 0 ms) (from_rank_1 ms)
        (All-above s 0 (of_rank 0 ms) l (All-of_rank 0 ms)) (above_1 (omega (arith, l)))

module _ (m : Parsed) (ms : List Parsed) where
  insert-skip_0 :
      0 < rank m → insert_by_rank m (by_rank ms) ≡ of_rank 0 ms ++ insert_by_rank m (from_rank_1 ms)
  insert-skip_0 l = insert-skip 0 m (of_rank 0 ms) (from_rank_1 ms) (All-of_rank 0 ms) l

  insert-skip_1 :
      1 < rank m
      → insert_by_rank m (from_rank_1 ms) ≡ of_rank 1 ms ++ insert_by_rank m (from_rank_2 ms)
  insert-skip_1 l = insert-skip 1 m (of_rank 1 ms) (from_rank_2 ms) (All-of_rank 1 ms) l

  insert-skip_2 :
      2 < rank m
      → insert_by_rank m (from_rank_2 ms) ≡ of_rank 2 ms ++ insert_by_rank m (of_rank 3 ms)
  insert-skip_2 l = insert-skip 2 m (of_rank 2 ms) (of_rank 3 ms) (All-of_rank 2 ms) l

  insert-rank_0 : rank m ≡ 0 → insert_by_rank m (by_rank ms) ≡ m ∷ by_rank ms
  insert-rank_0 q = insert-stop m (by_rank ms) (above_0 (rank m) ms (omega (arith, q)))

  insert-rank_1 : rank m ≡ 1 → insert_by_rank m (by_rank ms) ≡ of_rank 0 ms ++ m ∷ from_rank_1 ms
  insert-rank_1 q =
      insert-skip_0 (omega (arith, q))
      ∙ ap (λ l. of_rank 0 ms ++ l)
          (insert-stop m (from_rank_1 ms) (above_1 (rank m) ms (omega (arith, q))))

  insert-rank_2 :
      rank m ≡ 2
      → insert_by_rank m (by_rank ms) ≡ of_rank 0 ms ++ (of_rank 1 ms ++ m ∷ from_rank_2 ms)
  insert-rank_2 q =
      insert-skip_0 (omega (arith, q))
      ∙ ap (λ l. of_rank 0 ms ++ l)
          (insert-skip_1 (omega (arith, q))
            ∙ ap (λ l. of_rank 1 ms ++ l)
                (insert-stop m (from_rank_2 ms) (above_2 (rank m) ms (omega (arith, q)))))

  insert-rank_3 :
      rank m ≡ 3
      → insert_by_rank m (by_rank ms)
        ≡ of_rank 0 ms ++ (of_rank 1 ms ++ (of_rank 2 ms ++ m ∷ of_rank 3 ms))
  insert-rank_3 q =
      insert-skip_0 (omega (arith, q))
      ∙ ap (λ l. of_rank 0 ms ++ l)
          (insert-skip_1 (omega (arith, q))
            ∙ ap (λ l. of_rank 1 ms ++ l)
                (insert-skip_2 (omega (arith, q))
                  ∙ ap (λ l. of_rank 2 ms ++ l)
                      (insert-stop m (of_rank 3 ms) (above_3 (rank m) ms (omega (arith, q))))))

  insert-ranked :
      (rank m ≡ 0) ⊎ ((rank m ≡ 1) ⊎ ((rank m ≡ 2) ⊎ (rank m ≡ 3)))
      → insert_by_rank m (by_rank ms) ≡ by_rank (m ∷ ms)
  insert-ranked (inl q) = insert-rank_0 q ∙ rw q refl
  insert-ranked (inr (inl q)) = insert-rank_1 q ∙ rw q refl
  insert-ranked (inr (inr (inl q))) = insert-rank_2 q ∙ rw q refl
  insert-ranked (inr (inr (inr q))) = insert-rank_3 q ∙ rw q refl

rank_of-cases : (m : Parsed) → (rank m ≡ 0) ⊎ ((rank m ≡ 1) ⊎ ((rank m ≡ 2) ⊎ (rank m ≡ 3)))
unfolding rank
rank_of-cases m = rank-cases (event_priority m.event)

sort-ranked : (ms : List Parsed) → sort_by_rank ms ≡ by_rank ms
unfolding sort_by_rank
sort-ranked [] = refl
sort-ranked (m ∷ ms) = ap (insert_by_rank m) (sort-ranked ms) ∙ insert-ranked m ms (rank_of-cases m)

-- What each rank stands for.
critical-rank : (p : Option String) → (priority_rank p == 0) ≡ carries "critical" p
critical-rank none = refl
critical-rank (some p) = ground arith

high-rank : (p : Option String) → (priority_rank p == 1) ≡ carries "high" p
high-rank none = refl
high-rank (some p) = elim (Bool-cases (str_eq p "critical")) [
  | inl q ↦ rw ((eq_iff p "critical").0 q) refl
  | inr q ↦ ground (arith, q)
]

normal-rank : (p : Option String) → (priority_rank p == 2) ≡ carries "normal" p
normal-rank none = refl
normal-rank (some p) = elim (Bool-cases (str_eq p "critical")) [
  | inl q ↦ rw ((eq_iff p "critical").0 q) refl
  | inr q ↦ elim (Bool-cases (str_eq p "high")) [
    | inl h ↦ rw ((eq_iff p "high").0 h) refl
    | inr h ↦ ground (arith, q, h)
  ]
]

unranked-rank :
    (p : Option String)
    → (priority_rank p == 3)
      ≡ not (carries "critical" p || (carries "high" p || carries "normal" p))
unranked-rank none = refl
unranked-rank (some p) = ground arith

filter-same :
    (p q : Parsed → Bool)
    → ((m : Parsed) → p m ≡ q m)
    → (ms : List Parsed) → filter p ms ≡ filter q ms
filter-same p q h [] = refl
filter-same p q h (m ∷ ms) = ground (arith, h m, filter-same p q h ms)

-- The messages are processed in four groups, each in the order of the partition: those with priority
-- critical, those with high, those with normal, and those with another priority or none.
pub sort_by_rank_lem :
    (ms : List Parsed)
    → sort_by_rank ms
      ≡ filter (has_priority "critical") ms
        ++ (filter (has_priority "high") ms
            ++ (filter (has_priority "normal") ms ++ filter is_unranked ms))
unfolding rank
sort_by_rank_lem ms =
    sort-ranked ms
    ∙ rw
        (
          filter-same _ _ (λ m. critical-rank (event_priority m.event)) ms,
          filter-same _ _ (λ m. high-rank (event_priority m.event)) ms,
          filter-same _ _ (λ m. normal-rank (event_priority m.event)) ms,
          filter-same _ _ (λ m. unranked-rank (event_priority m.event)) ms,
        )
        refl
