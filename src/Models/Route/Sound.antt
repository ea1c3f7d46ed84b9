-- ===== src/Models/Route/Sound.antt =====
-- Every candidate that `route` of src/aegis_fabric/models.py offers passes the routing policy.
use aegis_capstone.Common.{
  String, ◌≡◌, refl, ◌⊎◌, inl, inr, false, ◌&&◌, ◌||◌, not, Option, none, some, List, [], ◌∷◌,
  arith, ◌==◌, Bool-cases, is_empty, All, contains, All-append, take, true, eq_iff, length, ◌∙◌,
  All-map, All-take,
}
use aegis_capstone.Models.{Registry, Environment, ModelProfile, Found, find, to_profile}
use aegis_capstone.Models.Route.{
  Request, Refusal, candidates, Scan, judge, visit, visit_found, scan, conclude, satisfies, given,
  is_restricted, route, ordered_ids, start,
}

-- The profile comes from the registry and no rule refuses it.
pub record Passes (env : Environment) (raw : Registry) (r : Request) (p : ModelProfile)
    : Type 0 where
  pub mid : String
  pub entry : Found
  pub registered : find raw mid ≡ some entry
  pub built : p ≡ to_profile env entry
  pub allowed : satisfies raw r p ≡ none

module _ (env : Environment) (raw : Registry) (r : Request) where
  abbrev AllPass : List ModelProfile → Type 0
  AllPass = All (Passes env raw r)

  judge-AllPass :
      (mid x : String) (f : Found) (s : Scan)
      → find raw mid ≡ some f
      → AllPass s.found
      → AllPass (judge r x (to_profile env f) (satisfies raw r (to_profile env f)) s).found
  judge-AllPass mid x f s e h = split (satisfies raw r (to_profile env f)) refl
    where
      split :
          (o : Option Refusal)
          → satisfies raw r (to_profile env f) ≡ o
          → AllPass (judge r x (to_profile env f) o s).found
      split none q =
          All-append (Passes env raw r) s.found (to_profile env f ∷ []) h
            (record { mid = mid; entry = f; registered = e; built = refl; allowed = q }, tt)
      split (some why) q = elim (Bool-cases (given r.requested && x == r.requested)) [
        | inl t ↦ rw t h
        | inr t ↦ rw t h
      ]

  visit_found-AllPass :
      (mid : String) (o : Option Found) (s : Scan)
      → find raw mid ≡ o
      → AllPass s.found
      → AllPass (visit_found env raw r mid o s).found
  unfolding visit_found
  visit_found-AllPass mid none s e h = h
  visit_found-AllPass mid (some f) s e h = judge-AllPass mid mid f s e h

  visit-AllPass :
      (mid : String) (s : Scan) → AllPass s.found → AllPass (visit env raw r mid s).found
  unfolding visit
  visit-AllPass mid s h = elim (Bool-cases (not (given mid) || contains mid s.seen)) [
    | inl t ↦ rw t h
    | inr t ↦ rw t (visit_found-AllPass mid (find raw mid) _ refl h)
  ]

  scan-AllPass :
      (ids : List String) (s : Scan) → AllPass s.found → AllPass (scan env raw r ids s).found
  unfolding scan
  scan-AllPass [] s h = h
  scan-AllPass (mid ∷ ids) s h = scan-AllPass ids (visit env raw r mid s) (visit-AllPass mid s h)

  -- The ways in which `conclude` can end.
  conclude-cases :
      (s : Scan) (cs : List ModelProfile)
      → conclude env raw r s ≡ candidates cs
      → ((cs ≡ s.found) ⊎ (cs ≡ take 1 s.found)) × (is_empty s.found ≡ false)
  unfolding conclude
  conclude-cases s cs h = ground arith

take_one-empty {ℓ} : {A : Type ℓ} (xs : List A) → is_empty (take 1 xs) ≡ is_empty xs
take_one-empty [] = refl
take_one-empty (x ∷ []) = refl
take_one-empty (x ∷ y ∷ xs) = refl

-- If `route` offers candidates, there is at least one, and each is the profile of a model that the
-- registry holds and that no rule of the request refuses.
pub route-Passes :
    (env : Environment) (raw : Registry) (r : Request) (cs : List ModelProfile)
    → route env raw r ≡ candidates cs
    → All (Passes env raw r) cs × (is_empty cs ≡ false)
unfolding route
route-Passes env raw r cs h =
    let s = scan env raw r (ordered_ids env raw r) start in
    let sound = scan-AllPass env raw r (ordered_ids env raw r) start tt in
    let (how, full) = conclude-cases env raw r s cs h in
    elim how [
      | inl e ↦ rw e (sound, full)
      | inr e ↦ rw e (All-take (Passes env raw r) 1 s.found sound, take_one-empty s.found ∙ full)
    ]

Passes-local :
    (env : Environment) (raw : Registry) (r : Request) (p : ModelProfile)
    → is_restricted raw r ≡ true
    → Passes env raw r p
    → (p.local ≡ true) × (p.region ≡ r.allowed_region)
unfolding satisfies
Passes-local env raw r p t h = ground (arith, h.allowed, eq_iff p.region r.allowed_region)

-- Data whose class must stay local, by the registry's policy or by the role's threshold, is only ever
-- offered to local models of the allowed region.
pub route_residency :
    (env : Environment) (raw : Registry) (r : Request) (cs : List ModelProfile)
    → is_restricted raw r ≡ true
    → route env raw r ≡ candidates cs
    → All (λ p. (p.local ≡ true) × (p.region ≡ r.allowed_region)) cs
route_residency env raw r cs t h =
    All-map _ _ (λ p. Passes-local env raw r p t) cs (route-Passes env raw r cs h).0

length-take_one {ℓ} : {A : Type ℓ} (xs : List A) → is_empty xs ≡ false → length (take 1 xs) ≡ 1
length-take_one [] h = cc
length-take_one (x ∷ []) h = refl
length-take_one (x ∷ y ∷ xs) h = refl

conclude_strict :
    (env : Environment) (raw : Registry) (r : Request) (s : Scan) (cs : List ModelProfile)
    → (r.caps.fallback_mode == "strict" || r.caps.residency_strict) ≡ true
    → conclude env raw r s ≡ candidates cs
    → (cs ≡ take 1 s.found) × (is_empty s.found ≡ false)
unfolding conclude
conclude_strict env raw r s cs t h = ground arith

-- Under `fallback_mode=strict` or strict residency exactly one candidate is offered.
pub route_strict :
    (env : Environment) (raw : Registry) (r : Request) (cs : List ModelProfile)
    → (r.caps.fallback_mode == "strict" || r.caps.residency_strict) ≡ true
    → route env raw r ≡ candidates cs
    → length cs ≡ 1
unfolding route
route_strict env raw r cs t h =
    let s = scan env raw r (ordered_ids env raw r) start in
    let (e, full) = conclude_strict env raw r s cs t h in rw e (length-take_one s.found full)
