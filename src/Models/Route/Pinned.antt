-- ===== src/Models/Route/Pinned.antt =====
-- A model that the user pins, under `fail_visible_for_user_pinned_model`: the routing of
-- src/aegis_fabric/models.py never goes elsewhere.
use aegis_capstone.Common.{◌≡◌, true, Option, none, some, [], ◌∷◌, arith, eq_iff}
use aegis_capstone.Models.{Registry, Environment, Found, find, to_profile}
use aegis_capstone.Models.Route.{
  Request, Routed, candidates, refused, violates_policy, no_model, visit, visit_found, scan,
  conclude, route, satisfies, strict_requested, ordered_ids,
}

-- What a pinned request must come to, in terms of the registry's entry for the pinned id alone.
abbrev pub pinned_outcome : Environment → Registry → Request → Option Found → Routed
pinned_outcome env raw r none = refused no_model
pinned_outcome env raw r (some f) = elim (satisfies raw r (to_profile env f)) [
  | none ↦ candidates (to_profile env f ∷ [])
  | some why ↦ refused (violates_policy r.requested (why ∷ []))
]

-- A pinned model is the only candidate if it is registered and passes the policy; if a rule refuses
-- it the request fails with that rule as the reason; if it is unknown the request fails.
pub route_pinned :
    (env : Environment) (raw : Registry) (r : Request)
    → strict_requested raw r ≡ true
    → route env raw r ≡ pinned_outcome env raw r (find raw r.requested)
unfolding route ordered_ids strict_requested scan visit visit_found conclude
route_pinned env raw r h = ground (arith, eq_iff r.requested r.requested)
