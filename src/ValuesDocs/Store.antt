-- ===== src/ValuesDocs/Store.antt =====
-- The table of values documents of src/aegis_fabric/values_docs.py under its endpoints.
use aegis_capstone.Common.{
  ℕ, ◌+◌, ◌≤◌, String, ◌≡◌, refl, sym, ap, ◌∙◌, inl, inr, Bool, true, false, ◌&&◌, Option, List, [],
  ◌∷◌, ◌++◌, arith, ◌==◌, eq_iff, if◌then◌else◌, Bool-cases, keep, any, not, some, contains,
  eq_refl, none,
}
use aegis_capstone.ValuesDocs.{
  Document, DocumentIn, Table, revise, Subject, create_document, has_key, Principal, coalesce,
  rewrite, update_document, delete_document, body_key, has_id, upsert, find_by, fresh, if_writable,
  other_id, valid_scopes, writable, can_write, Reply, ok, err, bad_request, forbidden,
}
use aegis_capstone.ValuesDocs.Access.{MayWrite, can_write_iff}

-- A call of an endpoint that writes, by a subject who may have an admin principal.
pub data Write : Type 0 where
  creates : DocumentIn → ℕ → Write
  updates : ℕ → DocumentIn → ℕ → Write
  deletes : ℕ → Write

pub record Caller : Type 0 where
  pub subject : Subject
  pub principal : Option Principal

unfoldable pub apply : Caller → Write → Table → Table
apply c (creates body now) t = (create_document body c.subject c.principal now t).1
apply c (updates i body now) t = (update_document i body c.subject c.principal now t).1
apply c (deletes i) t = (delete_document i c.subject c.principal t).1

abbrev is_err : {A : Type 0} → Reply A → Bool
is_err (ok a) = false
is_err (err e) = true

-- Whether the call raises.
unfoldable pub raises : Caller → Write → Table → Bool
raises c (creates body now) t = is_err (create_document body c.subject c.principal now t).0
raises c (updates i body now) t = is_err (update_document i body c.subject c.principal now t).0
raises c (deletes i) t = is_err (delete_document i c.subject c.principal t).0

unfoldable pub apply_all : List (Caller × Write) → Table → Table
unfolding apply
apply_all [] t = t
apply_all ((c, w) ∷ ws) t = apply_all ws (apply c w t)

-- How many documents have the key.
unfoldable pub count : Option String → String → Option String → List Document → ℕ
count t s i [] = 0
count t s i (d ∷ ds) = (if has_key t s i d then 1 else 0) + count t s i ds

-- The unique index holds.
abbrev pub IsUnique : List Document → Type 0
IsUnique ds = (t : Option String) (s : String) (i : Option String) → count t s i ds ≤ 1

count-revise :
    (t : Option String) (s : String) (i : Option String) (p : Document → Bool) (body : DocumentIn)
    (subject : Subject) (now : ℕ) (ds : List Document)
    → count t s i (revise p (rewrite body subject now) ds) ≡ count t s i ds
unfolding count revise
count-revise t s i p body subject now [] = refl
count-revise t s i p body subject now (d ∷ ds) = elim (Bool-cases (p d)) [
  | inl e ↦ rw (e, count-revise t s i p body subject now ds) refl
  | inr e ↦ rw (e, count-revise t s i p body subject now ds) refl
]

count-keep-le :
    (t : Option String) (s : String) (i : Option String) (p : Document → Bool) (ds : List Document)
    → count t s i (keep p ds) ≤ count t s i ds
unfolding count
count-keep-le t s i p [] = omega arith
count-keep-le t s i p (d ∷ ds) = elim (Bool-cases (p d)) [
  | inl e ↦ rw e (omega (arith, count-keep-le t s i p ds))
  | inr e ↦ rw e (omega (arith, count-keep-le t s i p ds))
]

count-snoc :
    (t : Option String) (s : String) (i : Option String) (d : Document) (ds : List Document)
    → count t s i (ds ++ d ∷ []) ≡ count t s i ds + (if has_key t s i d then 1 else 0)
unfolding count
count-snoc t s i d [] = omega arith
count-snoc t s i d (e ∷ ds) = omega (arith, count-snoc t s i d ds)

-- Two keys that one document has agree on every document.
has_key-agree :
    (t u : Option String) (s v : String) (i j : Option String) (d e : Document)
    → has_key t s i d ≡ true
    → has_key u v j d ≡ true
    → has_key t s i e ≡ has_key u v j e
has_key-agree t u s v i j d e h k =
    let a : coalesce t ≡ coalesce u =
      sym ((eq_iff (coalesce d.tenant_id) (coalesce t)).0 (ground arith))
      ∙ (eq_iff (coalesce d.tenant_id) (coalesce u)).0 (ground arith) in
    let b : s ≡ v =
      sym ((eq_iff d.scope_type s).0 (ground arith)) ∙ (eq_iff d.scope_type v).0 (ground arith) in
    let c : coalesce i ≡ coalesce j =
      sym ((eq_iff (coalesce d.scope_id) (coalesce i)).0 (ground arith))
      ∙ (eq_iff (coalesce d.scope_id) (coalesce j)).0 (ground arith) in
    ap (λ x. coalesce e.tenant_id == x && (e.scope_type == s && coalesce e.scope_id == coalesce i))
      a
    ∙ (ap
          (λ x.
            coalesce e.tenant_id == coalesce u
            && (e.scope_type == x && coalesce e.scope_id == coalesce i))
          b
        ∙ ap
            (λ x.
              coalesce e.tenant_id == coalesce u && (e.scope_type == v && coalesce e.scope_id == x))
            c)

count_none :
    (t u : Option String) (s v : String) (i j : Option String) (d : Document) (ds : List Document)
    → has_key t s i d ≡ true
    → has_key u v j d ≡ true
    → any (has_key u v j) ds ≡ false
    → count t s i ds ≡ 0
unfolding count
count_none t u s v i j d [] h k n = refl
count_none t u s v i j d (e ∷ ds) h k n = elim (Bool-cases (has_key u v j e)) [
  | inl q ↦ absurd (let z : true ≡ false = rw q at n in cc)
  | inr q ↦
      let z : has_key t s i e ≡ false = has_key-agree t u s v i j d e h k ∙ q in
      rw z (omega (arith, count_none t u s v i j d ds h k (rw q at n)))
]

body_key-fresh :
    (body : DocumentIn) (subject : Subject) (now n : ℕ)
    → body_key body (fresh body subject now n) ≡ true
body_key-fresh body subject now n =
    rw
      (eq_refl (coalesce body.tenant_id), eq_refl body.scope_type, eq_refl (coalesce body.scope_id))
      refl

upsert-IsUnique :
    (body : DocumentIn) (subject : Subject) (now : ℕ) (t : Table)
    → IsUnique t.documents
    → IsUnique (upsert body subject now t).documents
unfolding upsert
upsert-IsUnique body subject now t h u s i = elim (Bool-cases (any (body_key body) t.documents)) [
  | inl e ↦
      rw e (omega (arith, count-revise u s i (body_key body) body subject now t.documents, h u s i))
  | inr e ↦ rw e (elim (Bool-cases (has_key u s i (fresh body subject now t.next_id))) [
    | inl k ↦
        let z =
          count_none u body.tenant_id s body.scope_type i body.scope_id
            (fresh body subject now t.next_id) t.documents k
            (body_key-fresh body subject now t.next_id) e in
        let c = count-snoc u s i (fresh body subject now t.next_id) t.documents in
        omega (arith, (rw k at c), z)
    | inr k ↦
        let c = count-snoc u s i (fresh body subject now t.next_id) t.documents in
        omega (arith, (rw k at c), h u s i)
  ])
]

-- What a call did: it raised and nothing changed, or it returned and made a write that the caller may
-- make at the document's scope.
pub data Outcome (c : Caller) (t : Table) : Write → Bool → Table → Type 0 where
  unchanged : (w : Write) → Outcome c t w true t
  created :
      (body : DocumentIn) (now : ℕ)
      → MayWrite c.principal c.subject body.scope_type body.tenant_id body.scope_id
      → Outcome c t (creates body now) false (upsert body c.subject now t)
  updated :
      (i : ℕ) (body : DocumentIn) (now : ℕ) (d : Document)
      → find_by (has_id i) t.documents ≡ some d
      → MayWrite c.principal c.subject d.scope_type d.tenant_id d.scope_id
      → Outcome c t
          (updates i body now)
          false
          (record t { documents = revise (has_id i) (rewrite body c.subject now) t.documents })
  deleted :
      (i : ℕ) (d : Document)
      → find_by (has_id i) t.documents ≡ some d
      → MayWrite c.principal c.subject d.scope_type d.tenant_id d.scope_id
      → Outcome c t (deletes i) false (record t { documents = keep (other_id i) t.documents })

abbrev Did : {A : Type 0} → Caller → Table → Write → Reply A × Table → Type 0
Did c t w r = Outcome c t w (is_err r.0) r.1

Outcome-if_writable :
    (c : Caller) (t after : Table) (w : Write) (o : Option Document)
    → ((d : Document)
        → o ≡ some d
        → MayWrite c.principal c.subject d.scope_type d.tenant_id d.scope_id
        → Outcome c t w false after)
    → Did c t w (if_writable c.principal c.subject o after t)
Outcome-if_writable c t after w none f = unchanged w
Outcome-if_writable c t after w (some d) f = elim (Bool-cases (writable c.principal c.subject d)) [
  | inl e ↦
      rw e
        (f d refl ((can_write_iff c.principal c.subject d.scope_type d.tenant_id d.scope_id).0 e))
  | inr e ↦ rw e (unchanged w)
]

Outcome-gate :
    (c : Caller) (t after : Table) (w : Write) (o : Option Document) (a b : Bool)
    → (b ≡ true → Outcome c t w false after)
    → Did c t w (
        if◌then◌else◌ {A = Reply (Option Document) × Table} a
          (err bad_request, t)
          (if not b then (err forbidden, t) else (ok o, after)))
Outcome-gate c t after w o true b f = unchanged w
Outcome-gate c t after w o false true f = f refl
Outcome-gate c t after w o false false f = unchanged w

-- A call that creates, updates or deletes a document either raises and leaves the table as it is, or
-- returns after exactly the write it stands for, at a scope where the caller may write: that of the document created, or of the stored document that is updated or deleted. May
-- write: a platform admin the organization's document; the user of that email, any platform admin,
-- and the admin whose tenant is the document's, an individual document; an admin whose own tenant is
-- the document's, a department, team or role document.
pub apply-Outcome :
    (c : Caller) (w : Write) (t : Table) → Outcome c t w (raises c w t) (apply c w t)
unfolding apply raises create_document update_document delete_document
apply-Outcome c (creates body now) t =
    Outcome-gate c t (upsert body c.subject now t) (creates body now)
      (find_by (body_key body) (upsert body c.subject now t).documents)
      (not (contains body.scope_type valid_scopes))
      (can_write c.principal c.subject body.scope_type body.tenant_id body.scope_id)
      (λ e.
        created body now
          ((can_write_iff c.principal c.subject body.scope_type body.tenant_id body.scope_id).0 e))
apply-Outcome c (updates i body now) t =
    Outcome-if_writable c t
      (record t { documents = revise (has_id i) (rewrite body c.subject now) t.documents })
      (updates i body now) (find_by (has_id i) t.documents) (λ d e m. updated i body now d e m)
apply-Outcome c (deletes i) t =
    Outcome-if_writable c t (record t { documents = keep (other_id i) t.documents }) (deletes i)
      (find_by (has_id i) t.documents) (λ d e m. deleted i d e m)

Outcome-IsUnique :
    (c : Caller) (t after : Table) (w : Write) (raised : Bool)
    → Outcome c t w raised after
    → IsUnique t.documents
    → IsUnique after.documents
Outcome-IsUnique c t _ _ _ (unchanged w) h = h
Outcome-IsUnique c t _ _ _ (created body now m) h = upsert-IsUnique body c.subject now t h
Outcome-IsUnique c t _ _ _ (updated i body now d e m) h =
    λ u s j. omega (arith, count-revise u s j (has_id i) body c.subject now t.documents, h u s j)
Outcome-IsUnique c t _ _ _ (deleted i d e m) h =
    λ u s j. omega (arith, count-keep-le u s j (other_id i) t.documents, h u s j)

-- Whatever calls are made, by whomever and in whatever order, there is at most one document for each
-- tenant, scope type and scope id, where a missing tenant or scope id counts as the empty text, when
-- there was at most one at the start.
pub apply_all-IsUnique :
    (ws : List (Caller × Write)) (t : Table)
    → IsUnique t.documents
    → IsUnique (apply_all ws t).documents
unfolding apply_all
apply_all-IsUnique [] t h = h
apply_all-IsUnique ((c, w) ∷ ws) t h =
    apply_all-IsUnique ws (apply c w t)
      (Outcome-IsUnique c t (apply c w t) w (raises c w t) (apply-Outcome c w t) h)
