-- ===== src/Rbac.antt =====
-- The classification ranks and the capability maps of src/aegis_fabric/rbac.py.
mod Schema
mod Templates
pub mod Ceilings
pub mod Normal
pub mod Assignments
mod Examples
unfoldable pub use Schema.{empty_caps}
pub use Templates.{Template}
unfoldable pub use Templates.{default_templates}
use aegis_capstone.Common.{
  ℕ, String, Bool, true, false, Option, none, some, List, [], ◌∷◌, leb, if◌then◌else◌, keep,
  or_else, is_empty,
}
use aegis_capstone.Common.Dict.{Dict, lookup, insert, keys, has_key}
use aegis_capstone.Json.{Scalar, null, flag, int, text, Value, scalar, texts}
use aegis_capstone.Json.Update.{update}

unfoldable pub classification_rank : Dict ℕ
classification_rank = ("public", 0) ∷ ("internal", 1) ∷ ("confidential", 2) ∷ ("restricted", 3) ∷ []

abbrev pub risk_ranks : Dict ℕ
risk_ranks = ("T1", 1) ∷ ("T2", 2) ∷ ("T3", 3) ∷ []

-- A label that is not in the table, or no text at all, ranks as `internal`.
unfoldable pub class_rank : Scalar → ℕ
class_rank (text c) = or_else (lookup c classification_rank) 1
class_rank _ = 1

unfoldable pub risk_rank : String → ℕ
risk_rank t = or_else (lookup t risk_ranks) 3

abbrev within : ℕ → String × ℕ → Bool
within r (c, rank) = leb rank r

unfoldable pub classes_up_to : Scalar → List String
unfolding class_rank
classes_up_to maxc = keys (keep (within (class_rank maxc)) classification_rank)

abbrev known : String × Value → Bool
known (k, v) = has_key k empty_caps

unfoldable pub normalize_caps : Option (Dict Value) → Dict Value
normalize_caps none = empty_caps
normalize_caps (some caps) =
    if is_empty caps then empty_caps else update empty_caps (keep known caps)

-- `caps.get(key, "internal")`. A list there is no key of the rank table: the code raises.
abbrev label_of : String → Dict Value → Scalar
label_of key caps = elim (lookup key caps) [ some (scalar s) ↦ s | _ ↦ text "internal" ]

unfoldable pub derived_caps : Dict Value → Dict Value
unfolding classes_up_to
derived_caps caps =
    insert "exportable_classifications"
      (texts (classes_up_to (label_of "max_export_classification" caps)))
      (insert "writable_classifications"
        (texts (classes_up_to (label_of "max_write_classification" caps)))
        (insert "readable_classifications"
          (texts (classes_up_to (label_of "max_read_classification" caps))) caps))

abbrev template_caps : Option Template → Dict Value
template_caps none = empty_caps
template_caps (some t) = normalize_caps (some t.capabilities)

unfoldable pub template_capabilities : String → Dict Value
unfolding normalize_caps
template_capabilities template_id = template_caps (lookup template_id default_templates)
