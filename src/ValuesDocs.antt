-- ===== src/ValuesDocs.antt =====
-- The values documents of src/aegis_fabric/values_docs.py: who may write and read, and the endpoints over the
-- table `values_documents`. Ids and times that the database gives are numbers; the table is listed in
-- the order of its rows, so that the ORDER BY of `list_documents` is left out.
pub mod Access
pub mod Store
mod Examples
use aegis_capstone.Common.{
  ◌<>◌, ℕ, zero, suc, ◌+◌, ◌-◌, ◌≤◌, ◌<◌, String, ◌≡◌, refl, sym, ap, ◌∙◌, ◌≢◌, ◌⊎◌, inl, inr, Bool,
  true, false, ◌&&◌, ◌||◌, not, Option, none, some, List, [], ◌∷◌, ◌++◌, map, arith, ◌==◌, eq_iff,
  ltb, leb, eqb, if◌then◌else◌, Bool-cases, Option-cases, or_else, is_some, length, is_empty, keep,
  any, All, contains,
}

pub record Subject : Type 0 where
  pub email : String
  pub tenant_id : String
  pub role : String

-- The fields of `AdminPrincipal` that are read; a platform principal has no tenant.
pub record Principal : Type 0 where
  pub scope : String
  pub tenant_id : Option String

pub record Document : Type 0 where
  pub id : ℕ
  pub scope_type : String
  pub tenant_id : Option String
  pub scope_id : Option String
  pub title : String
  pub body_md : String
  pub author_user : String
  pub created_at : ℕ
  pub updated_at : ℕ

-- `ValuesDocIn`
pub record DocumentIn : Type 0 where
  pub scope_type : String
  pub tenant_id : Option String
  pub scope_id : Option String
  pub title : String
  pub body_md : String

pub record Table : Type 0 where
  pub next_id : ℕ
  pub documents : List Document

-- The status of an `HTTPException`.
pub data Failure : Type 0 where
  bad_request not_found forbidden : Failure

pub data Reply (A : Type 0) : Type 0 where
  ok : A → Reply A
  err : Failure → Reply A

unfoldable pub valid_scopes : List String
valid_scopes = "organization" ∷ "department" ∷ "team" ∷ "role" ∷ "individual" ∷ []

-- `a == b` where either may be `None`.
abbrev pub same : Option String → Option String → Bool
same none none = true
same none (some t) = false
same (some s) none = false
same (some s) (some t) = s == t

abbrev pub has_scope : String → Option Principal → Bool
has_scope s none = false
has_scope s (some p) = p.scope == s

abbrev pub of_tenant : Option String → Option Principal → Bool
of_tenant t none = false
of_tenant t (some p) = same p.tenant_id t

abbrev pub is_shared : String → Bool
is_shared scope_type = scope_type == "department" || (scope_type == "team" || scope_type == "role")

-- `_can_write`
unfoldable pub can_write :
    Option Principal → Subject → String → Option String → Option String → Bool
can_write principal subject scope_type tenant_id scope_id =
    if scope_type == "organization"
    then has_scope "platform" principal
    else if scope_type == "individual"
    then (if same scope_id (some subject.email)
        then true
        else if has_scope "platform" principal
        then true
        else has_scope "tenant" principal && of_tenant tenant_id principal)
    else if is_shared scope_type
    then (if has_scope "platform" principal && of_tenant tenant_id principal
        then true
        else has_scope "tenant" principal && of_tenant tenant_id principal)
    else false

-- `_can_read`
unfoldable pub can_read : Subject → String → Option String → Option String → Bool
can_read subject scope_type tenant_id scope_id =
    if scope_type == "organization"
    then true
    else if scope_type == "individual"
    then (if same scope_id (some subject.email)
        then true
        else (subject.role == "platform-admin" || subject.role == "tenant-admin")
          && same (some subject.tenant_id) tenant_id)
    else if is_shared scope_type
    then same (some subject.tenant_id) tenant_id
    else false

-- A filter of the query; an empty text is no filter.
abbrev pub passes : String → Option String → Bool
passes f column = f == "" || same column (some f)

unfoldable pub matching : String → String → String → Document → Bool
matching scope_type tenant_id scope_id d =
    passes scope_type (some d.scope_type)
    && (passes tenant_id d.tenant_id && passes scope_id d.scope_id)

abbrev pub readable : Subject → Document → Bool
readable subject d = can_read subject d.scope_type d.tenant_id d.scope_id

abbrev pub writable : Option Principal → Subject → Document → Bool
writable principal subject d = can_write principal subject d.scope_type d.tenant_id d.scope_id

-- `list_documents`
unfoldable pub list_documents : String → String → String → Subject → Table → Reply (List Document)
unfolding matching valid_scopes
list_documents scope_type tenant_id scope_id subject t =
    if not (scope_type == "") && not (contains scope_type valid_scopes)
    then err bad_request
    else ok (keep (readable subject) (keep (matching scope_type tenant_id scope_id) t.documents))

unfoldable pub find_by : (Document → Bool) → List Document → Option Document
find_by p [] = none
find_by p (d ∷ ds) = if p d then some d else find_by p ds

abbrev pub has_id : ℕ → Document → Bool
has_id i d = eqb d.id i

abbrev pub shown : Subject → Option Document → Reply Document
shown subject none = err not_found
shown subject (some d) = if readable subject d then ok d else err forbidden

-- `get_document`
unfoldable pub get_document : ℕ → Subject → Table → Reply Document
unfolding find_by
get_document doc_id subject t = shown subject (find_by (has_id doc_id) t.documents)

-- `UPDATE … WHERE`
unfoldable pub revise : (Document → Bool) → (Document → Document) → List Document → List Document
revise p f [] = []
revise p f (d ∷ ds) = if p d then f d ∷ revise p f ds else d ∷ revise p f ds

-- `COALESCE(x, '')`
abbrev pub coalesce : Option String → String
coalesce o = or_else o ""

-- The unique index `(COALESCE(tenant_id,''), scope_type, COALESCE(scope_id,''))`.
abbrev pub has_key : Option String → String → Option String → Document → Bool
has_key tenant_id scope_type scope_id d =
    coalesce d.tenant_id == coalesce tenant_id
    && (d.scope_type == scope_type && coalesce d.scope_id == coalesce scope_id)

abbrev pub rewrite : DocumentIn → Subject → ℕ → Document → Document
rewrite body subject now d = record d {
  title = body.title;
  body_md = body.body_md;
  author_user = subject.email;
  updated_at = now;
}

abbrev pub fresh : DocumentIn → Subject → ℕ → ℕ → Document
fresh body subject now i = record {
  id = i;
  scope_type = body.scope_type;
  tenant_id = body.tenant_id;
  scope_id = body.scope_id;
  title = body.title;
  body_md = body.body_md;
  author_user = subject.email;
  created_at = now;
  updated_at = now;
}

abbrev pub body_key : DocumentIn → Document → Bool
body_key body = has_key body.tenant_id body.scope_type body.scope_id

-- `INSERT … ON CONFLICT … DO UPDATE`
unfoldable pub upsert : DocumentIn → Subject → ℕ → Table → Table
unfolding revise
upsert body subject now t =
    if any (body_key body) t.documents
    then record t { documents = revise (body_key body) (rewrite body subject now) t.documents }
    else record {
      next_id = t.next_id + 1;
      documents = t.documents ++ fresh body subject now t.next_id ∷ [];
    }

-- `create_document`, with the row that it returns.
unfoldable pub create_document :
    DocumentIn → Subject → Option Principal → ℕ → Table → Reply (Option Document) × Table
unfolding upsert find_by valid_scopes
create_document body subject principal now t =
    if not (contains body.scope_type valid_scopes)
    then (err bad_request, t)
    else if not (can_write principal subject body.scope_type body.tenant_id body.scope_id)
    then (err forbidden, t)
    else (
      ok (find_by (body_key body) (upsert body subject now t).documents),
      upsert body subject now t,
    )

abbrev pub if_writable :
    Option Principal → Subject → Option Document → Table → Table → Reply ℕ × Table
if_writable principal subject none after t = (err not_found, t)
if_writable principal subject (some d) after t =
    if writable principal subject d then (ok d.id, after) else (err forbidden, t)

-- `update_document`, with the id of the row.
unfoldable pub update_document :
    ℕ → DocumentIn → Subject → Option Principal → ℕ → Table → Reply ℕ × Table
unfolding revise find_by
update_document doc_id body subject principal now t =
    if_writable principal subject (find_by (has_id doc_id) t.documents)
      (record t { documents = revise (has_id doc_id) (rewrite body subject now) t.documents }) t

abbrev pub other_id : ℕ → Document → Bool
other_id i d = not (has_id i d)

-- `delete_document`
unfoldable pub delete_document : ℕ → Subject → Option Principal → Table → Reply ℕ × Table
unfolding find_by
delete_document doc_id subject principal t =
    if_writable principal subject (find_by (has_id doc_id) t.documents)
      (record t { documents = keep (other_id doc_id) t.documents }) t

-- The scopes that `list_writable_scopes` shows as editable.
unfoldable pub writable_scopes : Subject → Option Principal → List (String × Bool)
writable_scopes subject principal =
    let own =
      (has_scope "platform" principal || has_scope "tenant" principal)
      && of_tenant (some subject.tenant_id) principal in
    ("organization", has_scope "platform" principal)
    ∷ ("department", own)
    ∷ ("team", own)
    ∷ ("role", own)
    ∷ ("individual", true)
    ∷ []
