-- ===== src/Rbac/Ceilings.antt =====
-- What `classes_up_to` of src/aegis_fabric/rbac.py grants, against the rank order.
use aegis_capstone.Common.{
  Option, none, some, false, String, ◌≤◌, ◌≡◌, true, arith, contains, leb, eq_iff, ◌&&◌, ℕ, Bool,
  keep, refl, [], ◌∷◌,
}
use aegis_capstone.Common.Dict.{has_key, Dict, lookup, keys}
use aegis_capstone.Json.{Scalar, text}
use aegis_capstone.Json.Update.{HasUniqueKeys}
use aegis_capstone.Rbac.{class_rank, classes_up_to, classification_rank, within}

abbrev rank_within : ℕ → Option ℕ → Bool
rank_within r none = false
rank_within r (some n) = leb n r

contains-keys-keep :
    (c : String) (r : ℕ) (ranks : Dict ℕ)
    → HasUniqueKeys ranks
    → contains c (keys (keep (within r) ranks)) ≡ rank_within r (lookup c ranks)
contains-keys-keep c r [] u = refl
contains-keys-keep c r ((k, n) ∷ ranks) u =
    ground (arith, contains-keys-keep c r ranks u.1, eq_iff c k, eq_iff k c)

ranks-HasUniqueKeys : HasUniqueKeys classification_rank
unfolding classification_rank
ranks-HasUniqueKeys = (refl, (refl, (refl, (refl, tt))))

-- A label is granted exactly when it is one of the four of the table and its rank is at most the
-- ceiling's.
pub contains-classes_up_to :
    (c : String) (ceiling : Scalar)
    → contains c (classes_up_to ceiling)
      ≡ (has_key c classification_rank && leb (class_rank (text c)) (class_rank ceiling))
unfolding classes_up_to
contains-classes_up_to c ceiling =
    ground
      (arith, contains-keys-keep c (class_rank ceiling) classification_rank ranks-HasUniqueKeys)

-- A lower ceiling never grants a label that a higher one does not.
pub classes_up_to_mono :
    (c : String) (low high : Scalar)
    → class_rank low ≤ class_rank high
    → contains c (classes_up_to low) ≡ true
    → contains c (classes_up_to high) ≡ true
classes_up_to_mono c low high h m =
    ground (arith, contains-classes_up_to c low, contains-classes_up_to c high)
