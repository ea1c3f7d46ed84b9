-- ===== src/Values/Narrow.antt =====
-- The overlay of src/aegis_fabric/values.py only tightens.
use aegis_capstone.Common.{
  ℕ, ◌≤◌, ◌<◌, String, ◌≡◌, ◌⊎◌, true, Option, none, some, List, [], ◌∷◌, arith, contains,
}
use aegis_capstone.Common.Dict.{Dict}
use aegis_capstone.Json.{Scalar, positive_int}
use aegis_capstone.Rbac.Ceilings.{classes_up_to_mono}
use aegis_capstone.Values.{
  Limits, apply_block, apply_scopes, apply_value_overlays, Cascade, lower_class, lower_max,
  lower_quota, turn_strict, ClassField, MaxField, QuotaField, output_tokens, input_tokens,
  token_budget, class_rank, classes_up_to, request_quota, read_ceiling, write_ceiling,
  approval_threshold,
}

-- A quota against another, where 0 stands for no quota.
abbrev pub QuotaLe : ℕ → ℕ → Type 0
QuotaLe a b = (b ≡ 0) ⊎ ((0 < a) × (a ≤ b))

-- `l` allows no more than `r` in any field.
pub record Narrower (l r : Limits) : Type 0 where
  pub output : l.max_output_tokens ≤ r.max_output_tokens
  pub input : l.max_input_tokens ≤ r.max_input_tokens
  pub budget : QuotaLe l.token_budget_per_day r.token_budget_per_day
  pub quota : QuotaLe l.daily_request_quota r.daily_request_quota
  pub read : class_rank l.max_read_classification ≤ class_rank r.max_read_classification
  pub write : class_rank l.max_write_classification ≤ class_rank r.max_write_classification
  pub approval :
      class_rank l.write_requires_approval_above ≤ class_rank r.write_requires_approval_above
  pub residency : r.residency_strict ≡ true → l.residency_strict ≡ true

QuotaLe-refl : (a : ℕ) → QuotaLe a a
QuotaLe-refl a = ground arith

pub Narrower-refl : (l : Limits) → Narrower l l
Narrower-refl l = record {
  output = omega arith;
  input = omega arith;
  budget = QuotaLe-refl _;
  quota = QuotaLe-refl _;
  read = omega arith;
  write = omega arith;
  approval = omega arith;
  residency = λ h. h;
}

pub Narrower-trans : {l m r : Limits} → Narrower l m → Narrower m r → Narrower l r
Narrower-trans h k = record {
  output = omega arith;
  input = omega arith;
  budget = ground arith;
  quota = ground arith;
  read = omega arith;
  write = omega arith;
  approval = omega arith;
  residency = λ e. h.residency (k.residency e);
}

-- Each of the guarded writes keeps within the limits that it starts from.
module _ (rv : Limits) (c : Cascade) (h : Narrower c.0 rv) where
  lower_max-Narrower :
      (f : MaxField) (scope : String) (o : Option ℕ) → Narrower (lower_max f scope o c).0 rv
  unfolding lower_max
  lower_max-Narrower f scope none = h
  lower_max-Narrower output_tokens scope (some n) = ground arith
  lower_max-Narrower input_tokens scope (some n) = ground arith

  lower_quota-Narrower :
      (f : QuotaField) (scope : String) (s : Option Scalar)
      → Narrower (lower_quota f scope (positive_int s) c).0 rv
  unfolding lower_quota
  lower_quota-Narrower token_budget scope s = ground arith
  lower_quota-Narrower request_quota scope s = ground arith

  lower_class-Narrower :
      (f : ClassField) (scope : String) (o : Option Scalar)
      → Narrower (lower_class f scope o c).0 rv
  unfolding lower_class
  lower_class-Narrower f scope none = h
  lower_class-Narrower read_ceiling scope (some s) = ground arith
  lower_class-Narrower write_ceiling scope (some s) = ground arith
  lower_class-Narrower approval_threshold scope (some s) = ground arith

  turn_strict-Narrower :
      (scope : String) (o : Option Scalar) → Narrower (turn_strict scope o c).0 rv
  unfolding turn_strict
  turn_strict-Narrower scope o = ground arith

apply_block-Narrower :
    (rv : Limits) (scope : String) (block : Dict Scalar) (c : Cascade)
    → Narrower c.0 rv
    → Narrower (apply_block scope block c).0 rv
unfolding apply_block
apply_block-Narrower rv scope [] c h = h
apply_block-Narrower rv scope (b ∷ block) c h =
    turn_strict-Narrower rv _
      (lower_class-Narrower rv _
        (lower_class-Narrower rv _
          (lower_class-Narrower rv _
            (lower_quota-Narrower rv _
              (lower_quota-Narrower rv _
                (lower_max-Narrower rv _ (lower_max-Narrower rv _ h output_tokens scope _)
                  input_tokens scope _)
                token_budget scope _)
              request_quota scope _)
            read_ceiling scope _)
          write_ceiling scope _)
        approval_threshold scope _)
      scope _

apply_scopes-Narrower :
    (rv : Limits) (scoped : List (String × Dict Scalar)) (c : Cascade)
    → Narrower c.0 rv
    → Narrower (apply_scopes scoped c).0 rv
unfolding apply_scopes
apply_scopes-Narrower rv [] c h = h
apply_scopes-Narrower rv ((scope, block) ∷ scoped) c h =
    apply_scopes-Narrower rv scoped (apply_block scope block c)
      (apply_block-Narrower rv scope block c h)

-- Whatever the rules of the org, the team and the individual hold, the overlaid limits allow no more
-- than the role's: both token maxima are at most the role's, a positive quota is kept or lowered and
-- never lifted, no label ranks higher, and strict residency that is on stays on.
pub apply_value_overlays-Narrower :
    (rv : Limits) (scoped : List (String × Dict Scalar))
    → Narrower (apply_value_overlays rv scoped).limits rv
unfolding apply_value_overlays
apply_value_overlays-Narrower rv scoped =
    apply_scopes-Narrower rv scoped (rv, []) (Narrower-refl rv)

-- A label that the overlaid values let a user read or write is one that the role could read or write
-- before the overlay.
pub overlay_labels :
    (rv : Limits) (scoped : List (String × Dict Scalar)) (c : String)
    → let o = apply_value_overlays rv scoped in
      (contains c o.readable_classifications ≡ true
        → contains c (classes_up_to rv.max_read_classification) ≡ true)
      × (contains c o.writable_classifications ≡ true
          → contains c (classes_up_to rv.max_write_classification) ≡ true)
unfolding apply_value_overlays
overlay_labels rv scoped c =
    let n = apply_scopes-Narrower rv scoped (rv, []) (Narrower-refl rv) in
    (classes_up_to_mono c _ _ n.read, classes_up_to_mono c _ _ n.write)
