-- ===== src/Mcp/Callable.antt =====
-- Which servers can be called, and what the updates of the registry do to that.
use aegis_capstone.Common.{
  String, ◌≡◌, refl, inl, inr, Bool, true, false, not, Option, none, some, List, [], ◌∷◌, ◌++◌,
  arith, ◌==◌, eq_iff, Bool-cases, keep,
}
use aegis_capstone.Mcp.Register.{
  Server, ServerStatus, find_server, server_approved, update_server, approve_server, launch_row,
  launch_with, LaunchConfig, launched, pending_approval, quarantined,
}

unfoldable pub is_approved : ServerStatus → Bool
is_approved server_approved = true
is_approved _ = false

unfoldable pub approved_row : Option Server → Bool
unfolding is_approved
approved_row none = false
approved_row (some s) = is_approved s.status

-- `call_tool` finds the server, and finds it approved.
unfoldable pub callable : String → List Server → Bool
unfolding approved_row
callable id servers = approved_row (find_server id servers)

-- An update that approves nothing.
pub record Harmless (f : Server → Server) : Type 0 where
  pub same_id : (s : Server) → (f s).server_id ≡ s.server_id
  pub not_more : (s : Server) → is_approved (f s).status ≡ true → is_approved s.status ≡ true

pub callable-update :
    (id j : String) (f : Server → Server) (ss : List Server)
    → Harmless f
    → callable id (update_server j f ss) ≡ true
    → callable id ss ≡ true
unfolding callable find_server update_server
callable-update id j f [] k h = h
callable-update id j f (s ∷ ss) k h =
    let q = k.same_id s in
    let m = k.not_more s in
    let rest = callable-update id j f ss k in
    elim (Bool-cases (s.server_id == j)) [
      | inl e ↦ elim (Bool-cases (s.server_id == id)) [
        | inl d ↦ rw d (m (rw (e, q, d) at h))
        | inr d ↦ rw d (rest (rw (e, q, d) at h))
      ]
      | inr e ↦ elim (Bool-cases (s.server_id == id)) [
        | inl d ↦ rw d (rw (e, d) at h)
        | inr d ↦ rw d (rest (rw (e, d) at h))
      ]
    ]

pub callable-approve :
    (id j : String) (ss : List Server)
    → callable id (update_server j (approve_server none) ss) ≡ true
    → callable id ss ≡ false
    → j ≡ id
unfolding callable find_server update_server approve_server
callable-approve id j [] h n = cc
callable-approve id j (s ∷ ss) h n =
    let rest = callable-approve id j ss in
    elim (Bool-cases (s.server_id == j)) [
      | inl e ↦ elim (Bool-cases (s.server_id == id)) [
        | inl d ↦ grind (arith, eq_iff s.server_id j, eq_iff s.server_id id)
        | inr d ↦ rest (rw (e, d) at h) (rw d at n)
      ]
      | inr e ↦ elim (Bool-cases (s.server_id == id)) [
        | inl d ↦ let x = rw (e, d) at h in let y = rw d at n in cc
        | inr d ↦ rest (rw (e, d) at h) (rw d at n)
      ]
    ]

pub callable-append :
    (id : String) (ss : List Server) (t : Server)
    → is_approved t.status ≡ false
    → callable id (ss ++ t ∷ []) ≡ true
    → callable id ss ≡ true
unfolding callable find_server
callable-append id [] t f h = ground arith
callable-append id (s ∷ ss) t f h = elim (Bool-cases (s.server_id == id)) [
  | inl d ↦ rw d (rw d at h)
  | inr d ↦ rw d (callable-append id ss t f (rw d at h))
]

-- What was deleted is not callable.
pub callable-keep_same :
    (j : String) (ss : List Server)
    → callable j (keep (λ (r : Server). not (r.server_id == j)) ss) ≡ false
unfolding callable find_server
callable-keep_same j [] = refl
callable-keep_same j (s ∷ ss) = elim (Bool-cases (s.server_id == j)) [
  | inl e ↦ rw e (callable-keep_same j ss)
  | inr e ↦ rw e (rw e (callable-keep_same j ss))
]

pub callable-keep :
    (id j : String) (ss : List Server)
    → callable id (keep (λ (r : Server). not (r.server_id == j)) ss) ≡ true
    → callable id ss ≡ true
unfolding callable find_server
callable-keep id j [] h = h
callable-keep id j (s ∷ ss) h = elim (Bool-cases (s.server_id == j)) [
  | inl e ↦ elim (Bool-cases (s.server_id == id)) [
    | inl d ↦
        let q : j ≡ id = grind (arith, eq_iff s.server_id j, eq_iff s.server_id id) in
        let n = callable-keep_same j ss in
        let y : callable id (keep (λ (r : Server). not (r.server_id == j)) ss) ≡ true = rw e at h in
        let z = rw q at n in cc
    | inr d ↦ rw d (callable-keep id j ss (rw e at h))
  ]
  | inr e ↦ elim (Bool-cases (s.server_id == id)) [
    | inl d ↦ rw d (rw (e, d) at h)
    | inr d ↦ rw d (callable-keep id j ss (rw (e, d) at h))
  ]
]

launch_with-approved :
    (t : ServerStatus) (b c : LaunchConfig) → launch_with t b ≡ launched c → is_approved t ≡ true
unfolding launch_with is_approved
launch_with-approved server_approved b c h = refl
launch_with-approved pending_approval b c h = cc
launch_with-approved quarantined b c h = cc

approved-launch_with :
    (t : ServerStatus) (b : LaunchConfig) → is_approved t ≡ true → launch_with t b ≡ launched b
unfolding launch_with is_approved
approved-launch_with server_approved b h = refl
approved-launch_with pending_approval b h = cc
approved-launch_with quarantined b h = cc

pub launch_row-approved :
    (o : Option Server) (c : LaunchConfig) → launch_row o ≡ launched c → approved_row o ≡ true
unfolding launch_row approved_row is_approved
launch_row-approved none c h = cc
launch_row-approved (some s) c h = launch_with-approved s.status _ c h

pub approved-launch_row :
    (o : Option Server) → approved_row o ≡ true → (c : LaunchConfig) × (launch_row o ≡ launched c)
unfolding launch_row approved_row is_approved
approved-launch_row none h = cc
approved-launch_row (some s) h = (_, approved-launch_with s.status _ h)
