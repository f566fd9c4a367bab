-- ===== src/Gateway/Registered.antt =====
-- The pushes of push-handler.ts whose handlers have begun, and the registry of acknowledgements.
use Prim.Native.String.{String}
use text.Mathlib.Text.{◌==◌ as str_eq}
use text.Mathlib.TextEquality.{eq_iff}
use wince_backend.Prelude.{
  ℕ, suc, ◌≡◌, ◌⊎◌, inl, inr, refl, subst, arith, Bool, true, false, not, Option, none, some, List,
  [], ◌∷◌, any, ltb, ◌==◌, ==_iff, Bool-cases, if◌then◌else◌,
}
use wince_backend.Types.{InShopPayload}
use wince_backend.StringMap.{insert, all_of, all_of-insert, all_of-weaken}
use wince_backend.Gateway.{
  Socket, Pod, delivered_ws, delivered_forwarded, stored_pending, Stage, awaiting_ack, asking,
  forwarding, storing, answered, try_local, send_with_ack,
}
use wince_backend.Gateway.Runs.{InFlight, find_push, advance}

-- the push was forwarded to another address than `own`
abbrev pub is_elsewhere : String → ℕ → ℕ × String → Bool
is_elsewhere own push (t, ip) = if t == push then not (str_eq ip own) else false

-- on the pod at `own`, an answer as delivered over the socket is for an acknowledged intervention, one
-- as forwarded for a push that was forwarded to another pod, and no push is being forwarded to the pod
-- itself; nothing is asked of the other stages
abbrev pub justified_by : String → List String → List (ℕ × String) → Stage → String → ℕ → Bool
justified_by own acked forwarded (answered delivered_ws) id push = any (str_eq id) acked
justified_by own acked forwarded (answered delivered_forwarded) id push =
    any (is_elsewhere own push) forwarded
justified_by own acked forwarded (forwarding ip) id push = not (str_eq ip own)
justified_by own acked forwarded _ id push = true

-- Each push that is answered as delivered is so by an acknowledgement or by another pod.
unfoldable pub all_justified : String → List String → List (ℕ × String) → List InFlight → Bool
all_justified own acked forwarded [] = true
all_justified own acked forwarded (f ∷ l) =
    let rest = all_justified own acked forwarded l in
    if justified_by own acked forwarded f.stage f.payload.intervention_id f.push
    then rest
    else false

-- the pushes are numbered below `n`
unfoldable pub below : ℕ → List InFlight → Bool
below n [] = true
below n (f ∷ l) = let rest = below n l in if ltb f.push n then rest else false

-- an entry of the registry: its push is of the intervention
unfoldable pub matches : String → ℕ → List InFlight → Bool
matches id push [] = true
matches id push (f ∷ l) =
    let rest = matches id push l in
    if push == f.push then (if str_eq id f.payload.intervention_id then rest else false) else rest

abbrev pub registered : ℕ → List InFlight → String × ℕ → Bool
registered n l (id, push) = if ltb push n then matches id push l else false

pub below-suc : (n : ℕ) (l : List InFlight) → below n l ≡ true → below (suc n) l ≡ true
unfolding below
below-suc n [] h = refl
below-suc n (f ∷ l) h = ground (arith, below-suc n l)

pub below-advance :
    (n push : ℕ) (g : Stage) (l : List InFlight) → below n (advance push g l) ≡ below n l
unfolding below advance
below-advance n push g [] = refl
below-advance n push g (f ∷ l) = ground (arith, below-advance n push g l)

matches-advance :
    (id : String) (t push : ℕ) (g : Stage) (l : List InFlight)
    → matches id t (advance push g l) ≡ matches id t l
unfolding matches advance
matches-advance id t push g [] = refl
matches-advance id t push g (f ∷ l) = ground (arith, matches-advance id t push g l)

matches-new : (id : String) (n : ℕ) (l : List InFlight) → below n l ≡ true → matches id n l ≡ true
unfolding matches below
matches-new id n [] h = refl
matches-new id n (f ∷ l) h = ground (arith, matches-new id n l)

pub matches-find_push :
    (id : String) (push : ℕ) (f : InFlight) (l : List InFlight)
    → matches id push l ≡ true
    → find_push push l ≡ some f
    → str_eq id f.payload.intervention_id ≡ true
unfolding matches find_push
matches-find_push id push f [] h e = ground arith
matches-find_push id push f (x ∷ l) h e = ground (arith, matches-find_push id push f l)

find_push-push :
    (push : ℕ) (f : InFlight) (l : List InFlight)
    → find_push push l ≡ some f
    → (push == f.push) ≡ true
unfolding find_push
find_push-push push f [] e = ground arith
find_push-push push f (x ∷ l) e = ground (arith, find_push-push push f l)

module _ (own : String) (acked : List String) (forwarded : List (ℕ × String)) where
  pub all_justified-advance :
      (push : ℕ) (g : Stage) (f : InFlight) (l : List InFlight)
      → find_push push l ≡ some f
      → justified_by own acked forwarded g f.payload.intervention_id f.push ≡ true
      → all_justified own acked forwarded l ≡ true
      → all_justified own acked forwarded (advance push g l) ≡ true
  unfolding all_justified advance find_push
  all_justified-advance push g f [] e j h = refl
  all_justified-advance push g f (x ∷ l) e j h = ground (arith, all_justified-advance push g f l)

  pub find_push-justified :
      (push : ℕ) (f : InFlight) (l : List InFlight)
      → find_push push l ≡ some f
      → all_justified own acked forwarded l ≡ true
      → justified_by own acked forwarded f.stage f.payload.intervention_id f.push ≡ true
  unfolding all_justified find_push
  find_push-justified push f [] e h = ground arith
  find_push-justified push f (x ∷ l) e h = ground (arith, find_push-justified push f l)

  justified_by-acked :
      (i : String) (g : Stage) (id : String) (push : ℕ)
      → justified_by own acked forwarded g id push ≡ true
      → justified_by own (i ∷ acked) forwarded g id push ≡ true
  justified_by-acked i (answered delivered_ws) id push h = ground arith
  justified_by-acked i (answered delivered_forwarded) id push h = h
  justified_by-acked i (answered stored_pending) id push h = h
  justified_by-acked i awaiting_ack id push h = h
  justified_by-acked i asking id push h = h
  justified_by-acked i (forwarding ip) id push h = h
  justified_by-acked i storing id push h = h

  justified_by-forwarded :
      (t : ℕ × String) (g : Stage) (id : String) (push : ℕ)
      → justified_by own acked forwarded g id push ≡ true
      → justified_by own acked (t ∷ forwarded) g id push ≡ true
  justified_by-forwarded t (answered delivered_forwarded) id push h = ground arith
  justified_by-forwarded t (answered delivered_ws) id push h = h
  justified_by-forwarded t (answered stored_pending) id push h = h
  justified_by-forwarded t awaiting_ack id push h = h
  justified_by-forwarded t asking id push h = h
  justified_by-forwarded t (forwarding ip) id push h = h
  justified_by-forwarded t storing id push h = h

  pub all_justified-acked :
      (i : String) (l : List InFlight)
      → all_justified own acked forwarded l ≡ true
      → all_justified own (i ∷ acked) forwarded l ≡ true
  unfolding all_justified
  all_justified-acked i [] h = refl
  all_justified-acked i (f ∷ l) h = ground (
    arith,
    justified_by-acked i f.stage f.payload.intervention_id f.push,
    all_justified-acked i l,
  )

  pub all_justified-forwarded :
      (t : ℕ × String) (l : List InFlight)
      → all_justified own acked forwarded l ≡ true
      → all_justified own acked (t ∷ forwarded) l ≡ true
  unfolding all_justified
  all_justified-forwarded t [] h = refl
  all_justified-forwarded t (f ∷ l) h = ground (
    arith,
    justified_by-forwarded t f.stage f.payload.intervention_id f.push,
    all_justified-forwarded t l,
  )

pub find_push_self :
    (push : ℕ) (f : InFlight) (l : List InFlight)
    → find_push push l ≡ some f
    → find_push f.push l ≡ some f
find_push_self push f l e =
    subst (λ t. find_push t l ≡ some f) ((==_iff push f.push).0 (find_push-push push f l e)) e

pub registered-advance :
    (n push : ℕ) (g : Stage) (l : List InFlight) (m : List (String × ℕ))
    → all_of (registered n l) m ≡ true
    → all_of (registered n (advance push g l)) m ≡ true
registered-advance n push g l m h =
    all_of-weaken (registered n l) (registered n (advance push g l))
      (λ e r. ground (arith, matches-advance e.0 e.1 push g l)) m h

pub local-cases :
    (o : Option Socket) (r push : ℕ) (p : InShopPayload) (pod : Pod)
    → (try_local o r push p pod ≡ (asking, pod))
      ⊎ (try_local o r push p pod ≡ (
        awaiting_ack,
        record pod { ack_registry = insert p.intervention_id push pod.ack_registry },
      ))
unfolding send_with_ack
local-cases none r push p pod = inl refl
local-cases (some ws) r push p pod = elim (Bool-cases (r == 2)) [
  | inl q ↦ rw q (inl refl)
  | inr q ↦ rw q (inr refl)
]

pub registered-new :
    (n : ℕ) (f : InFlight) (l : List InFlight) (m : List (String × ℕ))
    → f.push ≡ n
    → all_of (registered n l) m ≡ true
    → all_of (registered (suc n) (f ∷ l)) m ≡ true
unfolding matches
registered-new n f l m q h =
    all_of-weaken (registered n l) (registered (suc n) (f ∷ l)) (λ e r. ground arith) m h

pub registered-insert :
    (f : InFlight) (l : List InFlight) (m : List (String × ℕ))
    → below f.push l ≡ true
    → all_of (registered f.push l) m ≡ true
    → all_of (registered (suc f.push) (f ∷ l)) (insert f.payload.intervention_id f.push m) ≡ true
unfolding matches
registered-insert f l m b h =
    all_of-insert (registered (suc f.push) (f ∷ l)) f.payload.intervention_id f.push m
      (registered-new f.push f l m refl h)
      (ground (
        arith,
        eq_iff f.payload.intervention_id f.payload.intervention_id,
        matches-new f.payload.intervention_id f.push l,
      ))
