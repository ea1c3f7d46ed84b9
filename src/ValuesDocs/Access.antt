-- ===== src/ValuesDocs/Access.antt =====
-- Who may write and read a values document of src/aegis_fabric/values_docs.py.
use aegis_capstone.Common.{
  String, ◌≡◌, refl, sym, ap, ◌⊎◌, inl, inr, Bool, true, false, ◌&&◌, not, Option, none, some, List,
  arith, ◌==◌, eq_iff, if◌then◌else◌, Bool-cases, keep, All, contains, eq_refl, ◌↔◌, All-keep,
}
use aegis_capstone.ValuesDocs.{
  Principal, can_write, is_shared, same, Subject, has_scope, of_tenant, Document, can_read,
  list_documents, ok, Table, readable, valid_scopes, err, bad_request, matching,
}

abbrev pub Shared : String → Type 0
Shared scope_type = is_shared scope_type ≡ true

-- Who may write at a scope, clause by clause.
pub data MayWrite (principal : Option Principal) (subject : Subject)
    : String → Option String → Option String → Type 0 where
  platform_org :
      (tenant_id scope_id : Option String)
      → has_scope "platform" principal ≡ true
      → MayWrite principal subject "organization" tenant_id scope_id
  own :
      (tenant_id : Option String)
      → MayWrite principal subject "individual" tenant_id (some subject.email)
  platform_individual :
      (tenant_id scope_id : Option String)
      → has_scope "platform" principal ≡ true
      → MayWrite principal subject "individual" tenant_id scope_id
  tenant_individual :
      (tenant_id scope_id : Option String)
      → has_scope "tenant" principal ≡ true
      → of_tenant tenant_id principal ≡ true
      → MayWrite principal subject "individual" tenant_id scope_id
  admin_shared :
      (scope_type : String) (tenant_id scope_id : Option String)
      → Shared scope_type
      → (has_scope "platform" principal ≡ true) ⊎ (has_scope "tenant" principal ≡ true)
      → of_tenant tenant_id principal ≡ true
      → MayWrite principal subject scope_type tenant_id scope_id

same-eq : (a b : Option String) → same a b ≡ true → a ≡ b
same-eq none none h = refl
same-eq none (some t) h = cc
same-eq (some s) none h = cc
same-eq (some s) (some t) h = ap some ((eq_iff s t).0 h)

shared_split :
    (p t o : Bool)
    → (if p && o then true else t && o) ≡ true
    → ((p ≡ true) ⊎ (t ≡ true)) × (o ≡ true)
shared_split true t true h = (inl refl, refl)
shared_split true true false h = cc
shared_split true false false h = cc
shared_split false true o h = (inr refl, h)
shared_split false false o h = cc

shared_apart :
    (s : String)
    → is_shared s ≡ true
    → ((s == "organization") ≡ false) × ((s == "individual") ≡ false)
shared_apart s h = (
  elim (Bool-cases (s == "organization")) [
    | inl e ↦ absurd (
        let q = (eq_iff s "organization").0 e in
        let k : is_shared "organization" ≡ true = rw q at h in cc)
    | inr e ↦ e
  ],
  elim (Bool-cases (s == "individual")) [
    | inl e ↦ absurd (
        let q = (eq_iff s "individual").0 e in
        let k : is_shared "individual" ≡ true = rw q at h in cc)
    | inr e ↦ e
  ],
)

can_write-MayWrite :
    (principal : Option Principal) (subject : Subject) (scope_type : String)
    (tenant_id scope_id : Option String)
    → can_write principal subject scope_type tenant_id scope_id ≡ true
    → MayWrite principal subject scope_type tenant_id scope_id
unfolding can_write
can_write-MayWrite principal subject scope_type tenant_id scope_id h =
    elim (Bool-cases (scope_type == "organization")) [
      | inl e ↦
          rw ((eq_iff scope_type "organization").0 e) (platform_org tenant_id scope_id (rw e at h))
      | inr e ↦ elim (Bool-cases (scope_type == "individual")) [
        | inl f ↦
            rw ((eq_iff scope_type "individual").0 f)
              (elim (Bool-cases (same scope_id (some subject.email))) [
                | inl o ↦ rw (same-eq scope_id (some subject.email) o) (own tenant_id)
                | inr o ↦ elim (Bool-cases (has_scope "platform" principal)) [
                  | inl p ↦ platform_individual tenant_id scope_id p
                  | inr p ↦
                      let k : has_scope "tenant" principal && of_tenant tenant_id principal ≡ true =
                        rw (e, f, o, p) at h in
                      tenant_individual tenant_id scope_id (ground arith) (ground arith)
                ]
              ])
        | inr f ↦ elim (Bool-cases (is_shared scope_type)) [
          | inl g ↦
              let k =
                shared_split (has_scope "platform" principal) (has_scope "tenant" principal)
                  (of_tenant tenant_id principal) (rw (e, f, g) at h) in
              admin_shared scope_type tenant_id scope_id g k.0 k.1
          | inr g ↦ absurd (let k : false ≡ true = rw (e, f, g) at h in cc)
        ]
      ]
    ]

MayWrite-can_write :
    (principal : Option Principal) (subject : Subject) (scope_type : String)
    (tenant_id scope_id : Option String)
    → MayWrite principal subject scope_type tenant_id scope_id
    → can_write principal subject scope_type tenant_id scope_id ≡ true
unfolding can_write
MayWrite-can_write principal subject _ _ _ (platform_org t i h) = h
MayWrite-can_write principal subject _ _ _ (own t) = rw (eq_refl subject.email) refl
MayWrite-can_write principal subject _ _ _ (platform_individual t i h) = ground arith
MayWrite-can_write principal subject _ _ _ (tenant_individual t i h k) = ground arith
MayWrite-can_write principal subject _ _ _ (admin_shared s t i g h k) =
    let a = shared_apart s g in rw (a.0, a.1, g, k) (ground arith)

-- `_can_write` allows exactly these: the organization's document to platform
-- admins; an individual document to the user of that email, to platform admins and to the admins of
-- the document's tenant; and a department, team or role document to the admins whose own tenant is
-- the document's.
pub can_write_iff :
    (principal : Option Principal) (subject : Subject) (scope_type : String)
    (tenant_id scope_id : Option String)
    → (can_write principal subject scope_type tenant_id scope_id ≡ true)
      ↔ MayWrite principal subject scope_type tenant_id scope_id
can_write_iff principal subject scope_type tenant_id scope_id = (
  can_write-MayWrite principal subject scope_type tenant_id scope_id,
  MayWrite-can_write principal subject scope_type tenant_id scope_id,
)

-- What a reader of the document is: it is the organization's, or of the reader's tenant, or the
-- reader's own.
pub record MayRead (subject : Subject) (d : Document) : Type 0 where
  pub reason :
      (d.scope_type ≡ "organization")
      ⊎ ((d.tenant_id ≡ some subject.tenant_id)
          ⊎ ((d.scope_type ≡ "individual") × (d.scope_id ≡ some subject.email)))

can_read-MayRead :
    (subject : Subject) (d : Document) → readable subject d ≡ true → MayRead subject d
unfolding can_read
can_read-MayRead subject d h = elim (Bool-cases (d.scope_type == "organization")) [
  | inl e ↦ record { reason = inl ((eq_iff d.scope_type "organization").0 e) }
  | inr e ↦ elim (Bool-cases (same (some subject.tenant_id) d.tenant_id)) [
    | inl q ↦ record { reason = inr (inl (sym (same-eq (some subject.tenant_id) d.tenant_id q))) }
    | inr q ↦ elim (Bool-cases (d.scope_type == "individual")) [
      | inl f ↦ elim (Bool-cases (same d.scope_id (some subject.email))) [
        | inl o ↦ record {
          reason = inr (
              inr (
                (eq_iff d.scope_type "individual").0 f,
                same-eq d.scope_id (some subject.email) o,
              ));
        }
        | inr o ↦ absurd (let k = rw (e, f, o, q) at h in ground arith)
      ]
      | inr f ↦ absurd (let k = rw (e, f, q) at h in ground arith)
    ]
  ]
]

ok-inj : {A : Type 0} (a b : A) → ok a ≡ ok b → a ≡ b
ok-inj a b h = cc

-- Whatever the filters, every document that `list_documents` returns is the organization's, or of the
-- reader's tenant, or the reader's own individual document.
pub list_documents-MayRead :
    (scope_type tenant_id scope_id : String) (subject : Subject) (t : Table) (ds : List Document)
    → list_documents scope_type tenant_id scope_id subject t ≡ ok ds
    → All (MayRead subject) ds
unfolding list_documents
list_documents-MayRead scope_type tenant_id scope_id subject t ds h =
    elim (Bool-cases (not (scope_type == "") && not (contains scope_type valid_scopes))) [
      | inl e ↦ absurd (let k : err bad_request ≡ ok ds = rw e at h in cc)
      | inr e ↦
          let q : keep (readable subject)
                (keep (matching scope_type tenant_id scope_id) t.documents)
              ≡ ds =
            ok-inj _ ds (rw e at h) in
          rw (sym q) (
            All-keep (MayRead subject) (readable subject) (can_read-MayRead subject)
              (keep (matching scope_type tenant_id scope_id) t.documents))
    ]
