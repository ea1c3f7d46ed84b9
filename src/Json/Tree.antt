-- ===== src/Json/Tree.antt =====
-- JSON documents with nested objects, as `yaml.safe_load` and `json.loads` give them to the code of
-- src/aegis_fabric that reads manifests.
use aegis_capstone.Common.{
  String, ◌≡◌, refl, ap, inl, inr, Bool, true, false, Option, none, some, ◌==◌, if◌then◌else◌,
  Bool-cases, eq_refl,
}
use aegis_capstone.Json.{Scalar, truthy, text}

mutual
  pub data Tree : Type 0 where
    leaf : Scalar → Tree
    array : Trees → Tree
    object : Fields → Tree

  pub data Trees : Type 0 where
    end : Trees
    item : Tree → Trees → Trees

  pub data Fields : Type 0 where
    no_fields : Fields
    field : String → Tree → Fields → Fields

-- `d.get(k)`
unfoldable pub get : String → Fields → Option Tree
get k no_fields = none
get k (field j t d) = if j == k then some t else get k d

-- `{j: v for j, v in d.items() if j != k}`
unfoldable pub without : String → Fields → Fields
without k no_fields = no_fields
without k (field j t d) = if j == k then without k d else field j t (without k d)

-- `d[k] = v`
unfoldable pub set : String → Tree → Fields → Fields
set k v no_fields = field k v no_fields
set k v (field j t d) = if j == k then field j v d else field j t (set k v d)

-- `d.get(k, {}) or {}` where an object is expected.
unfoldable pub fields_of : Option Tree → Fields
fields_of (some (object d)) = d
fields_of _ = no_fields

-- `d.get(k, "")` where a text is expected.
unfoldable pub text_of : Option Tree → String
text_of (some (leaf (text s))) = s
text_of _ = ""

-- `bool(d.get(k, False))`
unfoldable pub is_truthy : Option Tree → Bool
is_truthy none = false
is_truthy (some (leaf s)) = truthy s
is_truthy (some (array end)) = false
is_truthy (some (array (item t ts))) = true
is_truthy (some (object no_fields)) = false
is_truthy (some (object (field k t d))) = true

pub get-set : (k : String) (v : Tree) (d : Fields) → get k (set k v d) ≡ some v
unfolding get set
get-set k v no_fields = rw (eq_refl k) refl
get-set k v (field j t d) = elim (Bool-cases (j == k)) [
  | inl e ↦ rw e (rw e refl)
  | inr e ↦ rw e (rw e (get-set k v d))
]

-- A field that is set is out of sight of the others.
pub without-set : (k : String) (v : Tree) (d : Fields) → without k (set k v d) ≡ without k d
unfolding without set
without-set k v no_fields = rw (eq_refl k) refl
without-set k v (field j t d) = elim (Bool-cases (j == k)) [
  | inl e ↦ rw e (rw e refl)
  | inr e ↦ rw e (rw e (ap (field j t) (without-set k v d)))
]
