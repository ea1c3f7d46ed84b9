-- ===== src/Models/Route/Complete.antt =====
-- Without a pinned model, `route` of src/aegis_fabric/models.py offers every model of the fallback
-- chain that passes the policy.
use aegis_capstone.Common.{
  String, ◌≡◌, refl, ◌⊎◌, inl, inr, true, false, ◌&&◌, ◌||◌, not, Option, none, some, List, [], ◌∷◌,
  ◌++◌, arith, ◌==◌, eq_iff, Bool-cases, is_empty, contains,
}
use aegis_capstone.Models.{Registry, Environment, ModelProfile, Found, find, to_profile}
use aegis_capstone.Models.Route.{
  Request, Refusal, candidates, Scan, judge, visit, visit_found, scan, start, conclude, route,
  satisfies, ordered_ids, given,
}
use mathlib.Core.Bool.{false≢true}
use mathlib.Core.Path.{subst}

-- The profile stands among the candidates.
abbrev pub Offered : ModelProfile → List ModelProfile → Type 0
Offered p [] = ⊥
Offered p (q ∷ ps) = (p ≡ q) ⊎ Offered p ps

-- The id stands in the chain.
abbrev pub InChain : String → List String → Type 0
InChain x [] = ⊥
InChain x (y ∷ ys) = (x ≡ y) ⊎ InChain x ys

Offered-append_left :
    (p : ModelProfile) (xs ys : List ModelProfile) → Offered p xs → Offered p (xs ++ ys)
Offered-append_left p [] ys h = elim h [ ]
Offered-append_left p (x ∷ xs) ys (inl e) = inl e
Offered-append_left p (x ∷ xs) ys (inr h) = inr (Offered-append_left p xs ys h)

Offered-append_last : (p : ModelProfile) (xs : List ModelProfile) → Offered p (xs ++ p ∷ [])
Offered-append_last p [] = inl refl
Offered-append_last p (x ∷ xs) = inr (Offered-append_last p xs)

module _ (env : Environment) (raw : Registry) (r : Request) (mid : String) (f : Found) where
  -- While the scan runs, an id that was seen has left its profile behind.
  abbrev IsKept : Scan → Type 0
  IsKept s = contains mid s.seen ≡ true → Offered (to_profile env f) s.found

  module _ (known : find raw mid ≡ some f) (passed : satisfies raw r (to_profile env f) ≡ none)
      (named : given mid ≡ true) where
    visit-offers : (s : Scan) → IsKept s → Offered (to_profile env f) (visit env raw r mid s).found
    unfolding visit
    visit-offers s k = elim (Bool-cases (contains mid s.seen)) [
      | inl old ↦ rw (named, old) (k old)
      | inr new ↦ rw (named, new, known, passed) (Offered-append_last (to_profile env f) s.found)
    ]

-- No round takes a profile away.
module _ (env : Environment) (raw : Registry) (r : Request) (p : ModelProfile) where
  judge-keeps :
      (x : String) (q : ModelProfile) (o : Option Refusal) (s : Scan)
      → Offered p s.found
      → Offered p (judge r x q o s).found
  judge-keeps x q none s h = Offered-append_left p s.found (q ∷ []) h
  judge-keeps x q (some why) s h = elim (Bool-cases (given r.requested && x == r.requested)) [
    | inl t ↦ rw t h
    | inr t ↦ rw t h
  ]

  visit_found-keeps :
      (x : String) (o : Option Found) (s : Scan)
      → Offered p s.found
      → Offered p (visit_found env raw r x o s).found
  unfolding visit_found
  visit_found-keeps x none s h = h
  visit_found-keeps x (some g) s h = judge-keeps x (to_profile env g) _ s h

  visit-keeps : (x : String) (s : Scan) → Offered p s.found → Offered p (visit env raw r x s).found
  unfolding visit
  visit-keeps x s h = elim (Bool-cases (not (given x) || contains x s.seen)) [
    | inl t ↦ rw t h
    | inr t ↦ rw t (visit_found-keeps x (find raw x) _ h)
  ]

  scan-keeps :
      (ids : List String) (s : Scan) → Offered p s.found → Offered p (scan env raw r ids s).found
  unfolding scan
  scan-keeps [] s h = h
  scan-keeps (x ∷ ids) s h = scan-keeps ids (visit env raw r x s) (visit-keeps x s h)

seen-judge :
    (r : Request) (x : String) (q : ModelProfile) (o : Option Refusal) (s : Scan)
    → (judge r x q o s).seen ≡ s.seen
seen-judge r x q o s = ground arith

seen-visit_found :
    (env : Environment) (raw : Registry) (r : Request) (x : String) (o : Option Found) (s : Scan)
    → (visit_found env raw r x o s).seen ≡ s.seen
unfolding visit_found
seen-visit_found env raw r x none s = refl
seen-visit_found env raw r x (some g) s = seen-judge r x _ _ s

seen_before :
    (env : Environment) (raw : Registry) (r : Request) (mid x : String) (s : Scan)
    → (mid == x) ≡ false
    → contains mid (visit env raw r x s).seen ≡ true
    → contains mid s.seen ≡ true
unfolding visit
seen_before env raw r mid x s other m =
    ground (arith, seen-visit_found env raw r x (find raw x) (record s { seen = x ∷ s.seen }))

module _ (env : Environment) (raw : Registry) (r : Request) (mid : String) (f : Found)
    (known : find raw mid ≡ some f) (passed : satisfies raw r (to_profile env f) ≡ none)
    (named : given mid ≡ true) where
  visit-IsKept :
      (x : String) (s : Scan)
      → IsKept env raw r mid f s
      → IsKept env raw r mid f (visit env raw r x s)
  visit-IsKept x s k m = elim (Bool-cases (mid == x)) [
    | inl same ↦
        subst (λ y. Offered (to_profile env f) (visit env raw r y s).found) ((eq_iff mid x).0 same)
          (visit-offers env raw r mid f known passed named s k)
    | inr other ↦
        visit-keeps env raw r (to_profile env f) x s (k (seen_before env raw r mid x s other m))
  ]

  scan-offers :
      (ids : List String) (s : Scan)
      → IsKept env raw r mid f s
      → InChain mid ids
      → Offered (to_profile env f) (scan env raw r ids s).found
  unfolding scan
  scan-offers [] s k h = elim h [ ]
  scan-offers (x ∷ ids) s k (inl e) =
      scan-keeps env raw r (to_profile env f) ids (visit env raw r x s) (
        subst (λ y. Offered (to_profile env f) (visit env raw r y s).found) e
          (visit-offers env raw r mid f known passed named s k))
  scan-offers (x ∷ ids) s k (inr h) = scan-offers ids (visit env raw r x s) (visit-IsKept x s k) h

Offered-found : (p : ModelProfile) (xs : List ModelProfile) → Offered p xs → is_empty xs ≡ false
Offered-found p [] h = elim h [ ]
Offered-found p (x ∷ xs) h = refl

conclude_open :
    (env : Environment) (raw : Registry) (r : Request) (s : Scan)
    → r.requested ≡ ""
    → (r.caps.fallback_mode == "strict" || r.caps.residency_strict) ≡ false
    → is_empty s.found ≡ false
    → conclude env raw r s ≡ candidates s.found
unfolding conclude
conclude_open env raw r s e t full = ground (arith, eq_iff r.requested "")

-- When the user pins no model and fallbacks are allowed, the request is routed as soon as one model
-- of the chain (the default and the fallbacks) is registered and passes, and every such model is
-- among the candidates.
pub route_complete :
    (env : Environment) (raw : Registry) (r : Request) (mid : String) (f : Found)
    → r.requested ≡ ""
    → (r.caps.fallback_mode == "strict" || r.caps.residency_strict) ≡ false
    → given mid ≡ true
    → InChain mid (ordered_ids env raw r)
    → find raw mid ≡ some f
    → satisfies raw r (to_profile env f) ≡ none
    → (cs : List ModelProfile) × (route env raw r ≡ candidates cs) × Offered (to_profile env f) cs
unfolding route
route_complete env raw r mid f e t named inn known passed =
    let s = scan env raw r (ordered_ids env raw r) start in
    let o =
      scan-offers env raw r mid f known passed named (ordered_ids env raw r) start
        (λ h. absurd (false≢true h)) inn in
    (s.found, conclude_open env raw r s e t (Offered-found _ s.found o), o)
