-- ===== src/Consumer/Resolve.antt =====
-- The offsets that a batch of decision.consumer.ts marks as done and resolves.
use Prim.Native.String.{String}
use wince_backend.Prelude.{
  ℕ, suc, ◌≡◌, refl, ap, sym, ◌∙◌, arith, Bool, true, Option, List, [], ◌∷◌, ◌++◌, map, any, All,
  ◌==◌, ==_refl, if◌then◌else◌, Bool-cases, inl, inr,
}
use wince_backend.Consumer.{
  Parsed, Incoming, Message, parse_message, insert_by_rank, sort_by_rank, resolve_prefix,
}

abbrev pub offsets : List Parsed → List ℕ
offsets = map (λ m. m.offset)

abbrev pub is_in : List ℕ → ℕ → Bool
is_in done o = any (λ x. x == o) done

-- The messages of a list that the loop gets to: it stops at the first turn that is not running.
abbrev pub handled : (ℕ → Bool) → ℕ → List Parsed → List Parsed
handled running n [] = []
handled running n (m ∷ ms) =
    let rest = handled running (suc n) ms in if running n then m ∷ rest else []

-- What was resolved is a prefix of the batch, all of it done.
pub resolve_prefix-prefix :
    (done : List ℕ) (ms : List Parsed)
    → (rest : List ℕ) × (resolve_prefix done ms ++ rest ≡ offsets ms)
unfolding resolve_prefix
resolve_prefix-prefix done [] = ([], refl)
resolve_prefix-prefix done (m ∷ ms) = elim (Bool-cases (is_in done m.offset)) [
  | inl q ↦ (let (rest, h) = resolve_prefix-prefix done ms in (rest, rw q (ap (◌∷◌ m.offset) h)))
  | inr q ↦ (offsets (m ∷ ms), rw q refl)
]

pub resolve_prefix-done :
    (done : List ℕ) (ms : List Parsed) → All (λ o. is_in done o ≡ true) (resolve_prefix done ms)
unfolding resolve_prefix
resolve_prefix-done done [] = tt
resolve_prefix-done done (m ∷ ms) = elim (Bool-cases (is_in done m.offset)) [
  | inl q ↦ rw q (q, resolve_prefix-done done ms)
  | inr q ↦ rw q tt
]

-- Where all is done, the whole batch is resolved.
pub resolve_prefix-of_done :
    (done : List ℕ) (ms : List Parsed)
    → All (λ m. is_in done m.offset ≡ true) ms
    → resolve_prefix done ms ≡ offsets ms
unfolding resolve_prefix
resolve_prefix-of_done done [] a = refl
resolve_prefix-of_done done (m ∷ ms) a =
    rw a.0 (ap (◌∷◌ m.offset) (resolve_prefix-of_done done ms a.1))

is_in-insert :
    (m : Parsed) (ms : List Parsed) (o : ℕ)
    → is_in (offsets (insert_by_rank m ms)) o ≡ is_in (offsets (m ∷ ms)) o
unfolding insert_by_rank
is_in-insert m [] o = refl
is_in-insert m (n ∷ ns) o = ground (arith, is_in-insert m ns o)

pub is_in-sort :
    (ms : List Parsed) (o : ℕ) → is_in (offsets (sort_by_rank ms)) o ≡ is_in (offsets ms) o
unfolding sort_by_rank
is_in-sort [] o = refl
is_in-sort (m ∷ ms) o = ground (arith, is_in-insert m (sort_by_rank ms) o, is_in-sort ms o)

All-is_in-cons :
    (done : List ℕ) (o : ℕ) (ms : List Parsed)
    → All (λ m. is_in done m.offset ≡ true) ms
    → All (λ m. is_in (o ∷ done) m.offset ≡ true) ms
All-is_in-cons done o [] a = tt
All-is_in-cons done o (m ∷ ms) a = (ground (arith, a.0), All-is_in-cons done o ms a.1)

pub All-is_in-offsets : (ms : List Parsed) → All (λ m. is_in (offsets ms) m.offset ≡ true) ms
All-is_in-offsets [] = tt
All-is_in-offsets (m ∷ ms) =
    (rw (==_refl m.offset) refl, All-is_in-cons (offsets ms) m.offset ms (All-is_in-offsets ms))

-- What holds of two sets with the same members.
pub All-is_in-transfer :
    (d e : List ℕ)
    → ((o : ℕ) → is_in d o ≡ is_in e o)
    → (os : List ℕ) → All (λ o. is_in d o ≡ true) os
    → All (λ o. is_in e o ≡ true) os
All-is_in-transfer d e h [] a = tt
All-is_in-transfer d e h (o ∷ os) a = (sym (h o) ∙ a.0, All-is_in-transfer d e h os a.1)

pub All-offsets :
    (d e : List ℕ)
    → ((o : ℕ) → is_in d o ≡ is_in e o)
    → (ms : List Parsed) → All (λ m. is_in e m.offset ≡ true) ms
    → All (λ m. is_in d m.offset ≡ true) ms
All-offsets d e h [] a = tt
All-offsets d e h (m ∷ ms) a = (h m.offset ∙ a.0, All-offsets d e h ms a.1)

pub handled-all :
    (running : ℕ → Bool) (n : ℕ) (ms : List Parsed)
    → ((i : ℕ) → running i ≡ true)
    → handled running n ms ≡ ms
handled-all running n [] h = refl
handled-all running n (m ∷ ms) h = rw (h n) (ap (◌∷◌ m) (handled-all running (suc n) ms h))

pub offsets-parse :
    (parse_json : String → Option Incoming) (ms : List Message)
    → offsets (map (parse_message parse_json) ms) ≡ map (λ m. m.offset) ms
offsets-parse parse_json [] = refl
offsets-parse parse_json (m ∷ ms) = ap (◌∷◌ m.offset) (offsets-parse parse_json ms)
