-- ===== src/Rbac/Normal.antt =====
-- `normalize_caps` of src/aegis_fabric/rbac.py: a total capability map over the schema.
use aegis_capstone.Common.{
  sym, contains, String, ◌≡◌, refl, ap, ◌∙◌, Option, none, some, [], ◌∷◌, arith, keep,
  if◌then◌else◌, eq_iff, Bool-cases, inl, inr,
}
use aegis_capstone.Common.Dict.{Dict, lookup, insert, keys, has_key}
use aegis_capstone.Json.{Value}
use aegis_capstone.Json.Update.{update, HasUniqueKeys, lookup-update, keys-insert_old}
use aegis_capstone.Rbac.{
  empty_caps, known, normalize_caps, template_capabilities, template_caps, Template,
  default_templates,
}

lookup-keep_known :
    (j : String) (caps : Dict Value)
    → HasUniqueKeys caps
    → lookup j (keep known caps) ≡ (if has_key j empty_caps then lookup j caps else none)
lookup-keep_known j [] u = ground arith
lookup-keep_known j ((k, v) ∷ caps) u = ground (arith, lookup-keep_known j caps u.1, eq_iff k j)

HasUniqueKeys-keep_known :
    (caps : Dict Value) → HasUniqueKeys caps → HasUniqueKeys (keep known caps)
HasUniqueKeys-keep_known [] u = tt
HasUniqueKeys-keep_known ((k, v) ∷ caps) u =
    ground (arith, HasUniqueKeys-keep_known caps u.1, lookup-keep_known k caps u.1)

-- Under each key of the schema stands the role's own value, or the default where the role has none;
-- under any other key stands nothing.
pub lookup-normalize_caps :
    (j : String) (caps : Dict Value)
    → HasUniqueKeys caps
    → lookup j (normalize_caps (some caps)) ≡ (
        if has_key j empty_caps
        then (if has_key j caps then lookup j caps else lookup j empty_caps)
        else none)
unfolding normalize_caps
lookup-normalize_caps j [] u = ground arith
lookup-normalize_caps j ((k, v) ∷ caps) u = ground (
  arith,
  lookup-update j empty_caps (keep known ((k, v) ∷ caps))
      (HasUniqueKeys-keep_known ((k, v) ∷ caps) u),
  lookup-keep_known j ((k, v) ∷ caps) u,
)

has_key-eq-contains : (k : String) (d : Dict Value) → has_key k d ≡ contains k (keys d)
has_key-eq-contains k [] = refl
has_key-eq-contains k ((j, v) ∷ d) = ground (arith, has_key-eq-contains k d, eq_iff j k, eq_iff k j)

has_key_cong : (k : String) (d e : Dict Value) → keys d ≡ keys e → has_key k d ≡ has_key k e
has_key_cong k d e h = has_key-eq-contains k d ∙ ap (contains k) h ∙ sym (has_key-eq-contains k e)

keys-update_known :
    (caps base : Dict Value)
    → keys base ≡ keys empty_caps
    → keys (update base (keep known caps)) ≡ keys empty_caps
keys-update_known [] base e = e
keys-update_known ((k, v) ∷ caps) base e = elim (Bool-cases (has_key k empty_caps)) [
  | inl old ↦ rw old (
      keys-update_known caps (insert k v base)
        (keys-insert_old k v base (has_key_cong k base empty_caps e ∙ old) ∙ e))
  | inr new ↦ rw new (keys-update_known caps base e)
]

-- Whatever map a role stores, its normal form has the keys of the schema, in the schema's order:
-- no key is missing and none is added.
pub keys-normalize_caps :
    (caps : Option (Dict Value)) → keys (normalize_caps caps) ≡ keys empty_caps
unfolding normalize_caps
keys-normalize_caps none = refl
keys-normalize_caps (some []) = refl
keys-normalize_caps (some (c ∷ caps)) = keys-update_known (c ∷ caps) empty_caps refl

-- Every template, known or not, gives a map with the keys of the schema, in the schema's order.
pub keys-template_capabilities :
    (template_id : String) → keys (template_capabilities template_id) ≡ keys empty_caps
unfolding template_capabilities
keys-template_capabilities template_id = split (lookup template_id default_templates)
  where
    split : (t : Option Template) → keys (template_caps t) ≡ keys empty_caps
    split none = refl
    split (some t) = keys-normalize_caps (some t.capabilities)
