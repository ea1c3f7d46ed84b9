-- ===== src/Json.antt =====
-- The JSON values that capabilities and rules hold: what `json.loads` and the YAML files give the
-- code of src/aegis_fabric, as far as it reads them. Integers are Python's; there are no fractions
-- and no nested objects among the values that the models read.
pub mod Update
pub mod Tree
use aegis_capstone.Common.{
  ℕ, zero, suc, String, Bool, true, false, not, Option, none, some, List, is_empty, ◌==◌,
}
use aegis_capstone.Common.Integer.{ℤ, pos, negsuc}

pub data Scalar : Type 0 where
  null : Scalar
  flag : Bool → Scalar
  int : ℤ → Scalar
  text : String → Scalar

pub data Value : Type 0 where
  scalar : Scalar → Value
  texts : List String → Value

-- Notation for the constants of the program.
abbrev pub v_flag : Bool → Value
v_flag b = scalar (flag b)

abbrev pub v_int : ℕ → Value
v_int n = scalar (int (pos n))

abbrev pub v_text : String → Value
v_text s = scalar (text s)

-- `bool(x)`
abbrev pub truthy : Scalar → Bool
truthy null = false
truthy (flag b) = b
truthy (int (pos zero)) = false
truthy (int (pos (suc n))) = true
truthy (int (negsuc n)) = true
truthy (text s) = not (s == "")

-- `isinstance(x, int) and x > 0`, with the number: a Python bool is an int.
abbrev pub positive_int : Option Scalar → Option ℕ
positive_int (some (int (pos (suc n)))) = some (suc n)
positive_int (some (flag true)) = some 1
positive_int _ = none
