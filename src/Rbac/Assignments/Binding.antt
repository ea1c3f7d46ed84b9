-- ===== src/Rbac/Assignments/Binding.antt =====
-- How `resolve_assignment` of src/aegis_fabric/rbac.py binds an identity to a row of the table.
use aegis_capstone.Common.{
  String, ◌≡◌, refl, sym, ap, ◌∙◌, inl, inr, Bool, true, false, ◌&&◌, not, Option, none, some, List,
  [], ◌∷◌, arith, ◌==◌, if◌then◌else◌, Bool-cases, Option-cases, is_some, eq_refl,
}
use aegis_capstone.Rbac.Assignments.{
  Assignment, bind, bound_to, Place, is_unbound, is_sub, place_of, resolve_assignment, or_bind,
}

-- A row of the table that gives the place, with what is said of it.
pub data HasRow (P : Assignment → Type 0) (p : Place) : List Assignment → Type 0 where
  here : (a : Assignment) (rows : List Assignment) → P a → place_of a ≡ p → HasRow P p (a ∷ rows)
  there : (a : Assignment) (rows : List Assignment) → HasRow P p rows → HasRow P p (a ∷ rows)

-- Why an identity has a place: a row is bound to it, or its verified email is that of an unbound row.
pub data Entitled (lower : String → String) (allow : Bool) (sub email : String) (verified : Bool)
    (rows : List Assignment) (p : Place) : Type 0 where
  bound :
      HasRow (λ a. is_sub sub a.sub ≡ true) p rows → Entitled lower allow sub email verified rows p
  by_email :
      allow ≡ true
      → verified ≡ true
      → bound_to sub rows ≡ none
      → HasRow (λ a. is_unbound lower email a ≡ true) p rows
      → Entitled lower allow sub email verified rows p

bound_to-HasRow :
    (sub : String) (rows : List Assignment) (p : Place)
    → bound_to sub rows ≡ some p
    → HasRow (λ a. is_sub sub a.sub ≡ true) p rows
unfolding bound_to
bound_to-HasRow sub [] p h = cc
bound_to-HasRow sub (a ∷ rows) p h = elim (Bool-cases (is_sub sub a.sub)) [
  | inl e ↦ let q : some (place_of a) ≡ some p = rw e at h in here a rows e cc
  | inr e ↦ there a rows (bound_to-HasRow sub rows p (rw e at h))
]

is_sub-unbound :
    (sub : String) (o : Option String) (b : Bool)
    → not (is_some o) && b ≡ true
    → is_sub sub o ≡ false
is_sub-unbound sub none b h = refl
is_sub-unbound sub (some t) b h = cc

module _ (lower : String → String) where
  bind-HasRow :
      (sub email : String) (rows : List Assignment) (p : Place)
      → (bind lower sub email rows).0 ≡ some p
      → HasRow (λ a. is_unbound lower email a ≡ true) p rows
  unfolding bind
  bind-HasRow sub email [] p h = cc
  bind-HasRow sub email (a ∷ rows) p h = elim (Bool-cases (is_unbound lower email a)) [
    | inl e ↦ let q : some (place_of a) ≡ some p = rw e at h in here a rows e cc
    | inr e ↦ there a rows (bind-HasRow sub email rows p (rw e at h))
  ]

  bound_to-bind :
      (sub email : String) (rows : List Assignment) (p : Place)
      → bound_to sub rows ≡ none
      → (bind lower sub email rows).0 ≡ some p
      → bound_to sub (bind lower sub email rows).1 ≡ some p
  unfolding bind bound_to
  bound_to-bind sub email [] p n h = cc
  bound_to-bind sub email (a ∷ rows) p n h = elim (Bool-cases (is_unbound lower email a)) [
    | inl e ↦ let q : some (place_of a) ≡ some p = rw e at h in rw (e, eq_refl sub) q
    | inr e ↦ elim (Bool-cases (is_sub sub a.sub)) [
      | inl f ↦ absurd (let z : some (place_of a) ≡ none = rw f at n in cc)
      | inr f ↦ rw (e, f) (bound_to-bind sub email rows p (rw f at n) (rw e at h))
    ]
  ]

  bound_to-bind_other :
      (sub other email : String) (rows : List Assignment)
      → (sub == other) ≡ false
      → bound_to other (bind lower sub email rows).1 ≡ bound_to other rows
  unfolding bind bound_to
  bound_to-bind_other sub other email [] n = refl
  bound_to-bind_other sub other email (a ∷ rows) n = elim (Bool-cases (is_unbound lower email a)) [
    | inl e ↦ rw (e, n, is_sub-unbound other a.sub (lower a.user_email == lower email) e) refl
    | inr e ↦ rw (e, bound_to-bind_other sub other email rows n) refl
  ]

  -- What a resolution guarantees: the place is one that the identity is entitled to, a later
  -- resolution of the same identity gives the same place and changes nothing, and what is bound to
  -- other identities stays.
  pub record Resolved (allow : Bool) (sub email : String) (verified : Bool) (rows : List Assignment)
      (p : Place) (after : List Assignment) : Type 0 where
    pub entitled : Entitled lower allow sub email verified rows p
    pub stable :
        (email2 : String) (verified2 : Bool)
        → resolve_assignment lower allow sub email2 verified2 after ≡ (some p, after)
    pub others_kept :
        (other : String) → (sub == other) ≡ false → bound_to other after ≡ bound_to other rows

  resolve-bound :
      (allow : Bool) (sub email : String) (verified : Bool) (rows : List Assignment) (p : Place)
      → bound_to sub rows ≡ some p
      → resolve_assignment lower allow sub email verified rows ≡ (some p, rows)
  unfolding resolve_assignment
  resolve-bound allow sub email verified rows p h =
      ap (λ o. or_bind lower o allow sub email verified rows) h

  resolve-unbound :
      (allow : Bool) (sub email : String) (verified : Bool) (rows : List Assignment)
      → bound_to sub rows ≡ none
      → resolve_assignment lower allow sub email verified rows ≡ (
          if allow && not (email == "") && verified
          then bind lower sub email rows
          else (none, rows))
  unfolding resolve_assignment
  resolve-unbound allow sub email verified rows h =
      ap (λ o. or_bind lower o allow sub email verified rows) h

  -- When `resolve_assignment` gives an identity a place, a row bound to it gives that place, or else
  -- binding by email is on, the email is verified and an unbound row has it; a later resolution of
  -- the same identity, with whatever email, gives the same place and changes nothing; and what is
  -- bound to other identities stays as it was.
  pub resolve_assignment-Resolved :
      (allow : Bool) (sub email : String) (verified : Bool) (rows after : List Assignment)
      (p : Place)
      → resolve_assignment lower allow sub email verified rows ≡ (some p, after)
      → Resolved allow sub email verified rows p after
  resolve_assignment-Resolved allow sub email verified rows after p h =
      elim (Option-cases (bound_to sub rows)) [
        | inl n ↦ elim (Bool-cases (allow && not (email == "") && verified)) [
          | inl e ↦
              let k : bind lower sub email rows ≡ (some p, after) =
                sym (resolve-unbound allow sub email verified rows n ∙ rw e refl) ∙ h in
              let q = ap (λ r. r.0) k in
              let t = ap (λ r. r.1) k in
              let b : bound_to sub after ≡ some p =
                rw (sym t) (bound_to-bind sub email rows p n q) in
              record {
                entitled =
                    by_email (ground arith) (ground arith) n (bind-HasRow sub email rows p q);
                stable = λ email2 verified2. resolve-bound allow sub email2 verified2 after p b;
                others_kept = λ other m. rw (sym t) (bound_to-bind_other sub other email rows m);
              }
          | inr e ↦
              let k : (none, rows) ≡ (some p, after) =
                sym (resolve-unbound allow sub email verified rows n ∙ rw e refl) ∙ h in
              absurd (let z : none ≡ some p = ap (λ r. r.0) k in cc)
        ]
        | inr (b, n) ↦
            let k : (some b, rows) ≡ (some p, after) =
              sym (resolve-bound allow sub email verified rows b n) ∙ h in
            let q : some b ≡ some p = ap (λ r. r.0) k in
            let t : rows ≡ after = ap (λ r. r.1) k in
            let m : bound_to sub rows ≡ some p = n ∙ q in
            record {
              entitled = bound (bound_to-HasRow sub rows p m);
              stable = λ email2 verified2.
                  rw (sym t) (resolve-bound allow sub email2 verified2 rows p m);
              others_kept = λ other z. rw (sym t) refl;
            }
      ]
