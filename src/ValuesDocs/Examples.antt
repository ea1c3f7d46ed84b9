-- ===== src/ValuesDocs/Examples.antt =====
-- The theorems on src/aegis_fabric/values_docs.py at a user and a tenant admin.
use aegis_capstone.Common.{
  String, ◌≡◌, refl, false, Option, none, some, List, [], ◌∷◌, arith, length, true,
}
use aegis_capstone.ValuesDocs.{
  Subject, Principal, Document, DocumentIn, Table, list_documents, can_write, ok, can_read,
  matching, create_document, valid_scopes, delete_document, upsert, revise, find_by,
}
use aegis_capstone.ValuesDocs.Store.{
  count, Caller, IsUnique, Outcome, apply_all, Write, apply, apply_all-IsUnique, deletes,
  apply-Outcome, creates, raises,
}

abbrev ann : Subject
ann = record { email = "ann@acme"; tenant_id = "acme"; role = "analyst" }

abbrev boss : Principal
boss = record { scope = "tenant"; tenant_id = some "acme" }

abbrev platform : Principal
platform = record { scope = "platform"; tenant_id = none }

abbrev note : Option String → String → Option String → DocumentIn
note tenant scope_type scope_id = record {
  scope_type = scope_type;
  tenant_id = tenant;
  scope_id = scope_id;
  title = "Values";
  body_md = "Be kind.";
}

abbrev no_documents : Table
no_documents = record { next_id = 1; documents = [] }

abbrev user : Caller
user = record { subject = ann; principal = none }

abbrev admin : Caller
admin = record { subject = ann; principal = some boss }

abbrev writes : List (Caller × Write)
writes =
    (admin, creates (note (some "acme") "team" (some "research")) 5)
    ∷ (user, creates (note (some "acme") "team" (some "research")) 6)
    ∷ (admin, creates (note (some "acme") "team" (some "research")) 7)
    ∷ (user, creates (note none "individual" (some "ann@acme")) 8)
    ∷ (user, deletes 1)
    ∷ []

two_documents : length (apply_all writes no_documents).documents ≡ 2
unfolding apply_all apply create_document delete_document upsert revise find_by can_write
    valid_scopes
two_documents = refl

-- A platform principal has no tenant, so that it cannot write a tenant's shared documents.
platform_refused : can_write (some platform) ann "team" (some "acme") (some "research") ≡ false
unfolding can_write
platform_refused = refl

abbrev own_note : Document
own_note = record {
  id = 1;
  scope_type = "individual";
  tenant_id = none;
  scope_id = some "ann@acme";
  title = "Values";
  body_md = "Be kind.";
  author_user = "ann@acme";
  created_at = 8;
  updated_at = 8;
}

abbrev foreign : Document
foreign = record own_note { scope_type = "team"; tenant_id = some "zeta" }

listed :
    list_documents "" "" "" ann (record { next_id = 3; documents = own_note ∷ foreign ∷ [] })
    ≡ ok (own_note ∷ [])
unfolding list_documents can_read matching valid_scopes
listed = refl

abbrev team_note : Write
team_note = creates (note (some "acme") "team" (some "research")) 5

-- The tenant's admin creates a document that the user may not delete.
team_note_runs :
    (raises admin team_note no_documents ≡ false)
    × (length (apply admin team_note no_documents).documents ≡ 1)
    × (raises user (deletes 1) (apply admin team_note no_documents) ≡ true)
unfolding raises apply create_document delete_document upsert revise find_by can_write valid_scopes
team_note_runs = (refl, refl, refl)

apply-Outcome_example :
    Outcome admin no_documents team_note
      (raises admin team_note no_documents)
      (apply admin team_note no_documents)
apply-Outcome_example = apply-Outcome admin team_note no_documents

none-IsUnique : IsUnique no_documents.documents
unfolding count
none-IsUnique t s i = omega arith

apply_all-IsUnique_example : IsUnique (apply_all writes no_documents).documents
apply_all-IsUnique_example = apply_all-IsUnique writes no_documents none-IsUnique
