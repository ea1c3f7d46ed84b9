-- ===== src/Values.antt =====
-- The values cascade of src/aegis_fabric/values.py: `_apply_value_overlays`, which folds the org,
-- team and individual rules over the limits that a role's capabilities give. A rule block is a
-- dict of JSON scalars; the limits are the fields of `ResolvedValues` that the overlay writes.
pub mod Narrow
pub mod Order
mod Examples
use aegis_capstone.Common.{
  ℕ, zero, suc, ◌+◌, ◌-◌, ◌≤◌, ◌<◌, String, ◌≡◌, refl, sym, ap, ◌∙◌, ◌≢◌, ◌⊎◌, inl, inr, Bool, true,
  false, ◌&&◌, ◌||◌, not, Option, none, some, List, [], ◌∷◌, ◌++◌, map, arith, ◌==◌, eq_iff, ltb,
  leb, eqb, if◌then◌else◌, Bool-cases, Option-cases, or_else, is_some, length, is_empty, keep, any,
  All, contains,
}
use aegis_capstone.Common.Dict.{Dict, lookup}
use aegis_capstone.Common.Integer.{pos}
use aegis_capstone.Json.{Scalar, truthy, positive_int}
use aegis_capstone.Rbac.{class_rank, classes_up_to}

pub record Limits : Type 0 where
  pub max_output_tokens : ℕ
  pub max_input_tokens : ℕ
  pub token_budget_per_day : ℕ
  pub daily_request_quota : ℕ
  pub max_read_classification : Scalar
  pub max_write_classification : Scalar
  pub write_requires_approval_above : Scalar
  pub residency_strict : Bool

-- One record of the trace `values_overlay`.
pub record Tightening : Type 0 where
  pub scope : String
  pub field : String
  pub value : Scalar

-- The limits and the trace so far: what the inner function `_tighten` writes.
abbrev pub Cascade : Type 0
Cascade = Limits × List Tightening

pub data MaxField : Type 0 where
  output_tokens input_tokens : MaxField

pub data QuotaField : Type 0 where
  token_budget request_quota : QuotaField

pub data ClassField : Type 0 where
  read_ceiling write_ceiling approval_threshold : ClassField

abbrev pub max_key : MaxField → String
max_key output_tokens = "max_output_tokens"
max_key input_tokens = "max_input_tokens"

abbrev pub quota_key : QuotaField → String
quota_key token_budget = "token_budget_per_day"
quota_key request_quota = "daily_request_quota"

abbrev pub class_key : ClassField → String
class_key read_ceiling = "max_read_classification"
class_key write_ceiling = "max_write_classification"
class_key approval_threshold = "write_requires_approval_above"

-- `getattr(rv, f)` and `setattr(rv, f, new)` for the three kinds of field.
abbrev pub get_max : MaxField → Limits → ℕ
get_max output_tokens l = l.max_output_tokens
get_max input_tokens l = l.max_input_tokens

abbrev pub set_max : MaxField → ℕ → Limits → Limits
set_max output_tokens n l = record l { max_output_tokens = n }
set_max input_tokens n l = record l { max_input_tokens = n }

abbrev pub get_quota : QuotaField → Limits → ℕ
get_quota token_budget l = l.token_budget_per_day
get_quota request_quota l = l.daily_request_quota

abbrev pub set_quota : QuotaField → ℕ → Limits → Limits
set_quota token_budget n l = record l { token_budget_per_day = n }
set_quota request_quota n l = record l { daily_request_quota = n }

abbrev pub get_class : ClassField → Limits → Scalar
get_class read_ceiling l = l.max_read_classification
get_class write_ceiling l = l.max_write_classification
get_class approval_threshold l = l.write_requires_approval_above

abbrev pub set_class : ClassField → Scalar → Limits → Limits
set_class read_ceiling s l = record l { max_read_classification = s }
set_class write_ceiling s l = record l { max_write_classification = s }
set_class approval_threshold s l = record l { write_requires_approval_above = s }

abbrev pub entry : String → String → Scalar → Tightening
entry scope field value = record { scope = scope; field = field; value = value }

-- `cand > 0 and cand < getattr(rv, f)`
unfoldable pub lower_max : MaxField → String → Option ℕ → Cascade → Cascade
lower_max f scope none c = c
lower_max f scope (some cand) (l, trace) =
    if ltb cand (get_max f l)
    then (set_max f cand l, trace ++ entry scope (max_key f) (Scalar.int (pos cand)) ∷ [])
    else (l, trace)

-- `cand > 0`, and then `cur == 0 or cand < cur`: a quota of 0 is no quota.
unfoldable pub lower_quota : QuotaField → String → Option ℕ → Cascade → Cascade
lower_quota f scope none c = c
lower_quota f scope (some cand) (l, trace) =
    if eqb (get_quota f l) 0 || ltb cand (get_quota f l)
    then (set_quota f cand l, trace ++ entry scope (quota_key f) (Scalar.int (pos cand)) ∷ [])
    else (l, trace)

-- `cand and class_rank(cand) < class_rank(getattr(rv, f))`
unfoldable pub lower_class : ClassField → String → Option Scalar → Cascade → Cascade
lower_class f scope none c = c
lower_class f scope (some cand) (l, trace) =
    if truthy cand && ltb (class_rank cand) (class_rank (get_class f l))
    then (set_class f cand l, trace ++ entry scope (class_key f) cand ∷ [])
    else (l, trace)

-- `block.get("residency_strict") and not rv.residency_strict`
unfoldable pub turn_strict : String → Option Scalar → Cascade → Cascade
turn_strict scope none c = c
turn_strict scope (some cand) (l, trace) =
    if truthy cand && not l.residency_strict
    then (
      record l { residency_strict = true },
      trace ++ entry scope "residency_strict" (Scalar.flag true) ∷ [],
    )
    else (l, trace)

-- The body of the loop over the scopes.
unfoldable pub apply_block : String → Dict Scalar → Cascade → Cascade
apply_block scope block c =
    if is_empty block
    then c
    else turn_strict scope (lookup "residency_strict" block) (
        lower_class approval_threshold scope (lookup (class_key approval_threshold) block) (
          lower_class write_ceiling scope (lookup (class_key write_ceiling) block) (
            lower_class read_ceiling scope (lookup (class_key read_ceiling) block) (
              lower_quota request_quota scope
                (positive_int (lookup (quota_key request_quota) block))
                (lower_quota token_budget scope
                  (positive_int (lookup (quota_key token_budget) block))
                  (lower_max input_tokens scope (positive_int (lookup (max_key input_tokens) block))
                    (lower_max output_tokens scope
                      (positive_int (lookup (max_key output_tokens) block)) c)))))))

unfoldable pub apply_scopes : List (String × Dict Scalar) → Cascade → Cascade
apply_scopes [] c = c
apply_scopes ((scope, block) ∷ scoped) c = apply_scopes scoped (apply_block scope block c)

pub record Overlaid : Type 0 where
  pub limits : Limits
  pub open limits use *
  pub readable_classifications : List String
  pub writable_classifications : List String
  pub values_overlay : List Tightening

-- The limits after the fold, the label lists derived from them, and the trace.
unfoldable pub apply_value_overlays : Limits → List (String × Dict Scalar) → Overlaid
apply_value_overlays rv scoped =
    let (l, trace) = apply_scopes scoped (rv, []) in
    record {
      limits = l;
      readable_classifications = classes_up_to l.max_read_classification;
      writable_classifications = classes_up_to l.max_write_classification;
      values_overlay = trace;
    }
