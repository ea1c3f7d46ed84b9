-- ===== src/Values/Order.antt =====
-- The overlay of src/aegis_fabric/values.py does not depend on the order of the scopes, as far as
-- numbers, ranks and residency go.
use aegis_capstone.Common.{
  ℕ, String, ◌≡◌, refl, sym, ap, ◌∙◌, Bool, true, ◌&&◌, ◌||◌, not, Option, none, some, List, [],
  ◌∷◌, arith, ltb, eqb, if◌then◌else◌,
}
use aegis_capstone.Common.Dict.{Dict, lookup}
use aegis_capstone.Json.{Scalar, positive_int, truthy}
use aegis_capstone.Values.{
  Limits, class_rank, max_key, output_tokens, input_tokens, quota_key, lower_max, token_budget,
  request_quota, Cascade, class_key, read_ceiling, write_ceiling, approval_threshold, apply_block,
  apply_scopes, apply_value_overlays, lower_class, lower_quota, turn_strict,
}
use mathlib.Core.List.{Permᴰ, Perm}
use mathlib.Core.Logic.{∥∥₁_elim}
use mathlib.Core.Path.{ap₂}

-- What a user of the limits compares: the numbers, the ranks of the labels, and residency.
pub record View : Type 0 where
  pub output : ℕ
  pub input : ℕ
  pub budget : ℕ
  pub quota : ℕ
  pub read : ℕ
  pub write : ℕ
  pub approval : ℕ
  pub strict : Bool

unfoldable pub view : Limits → View
view l = record {
  output = l.max_output_tokens;
  input = l.max_input_tokens;
  budget = l.token_budget_per_day;
  quota = l.daily_request_quota;
  read = class_rank l.max_read_classification;
  write = class_rank l.max_write_classification;
  approval = class_rank l.write_requires_approval_above;
  strict = l.residency_strict;
}

abbrev low : Option ℕ → ℕ → ℕ
low none n = n
low (some c) n = if ltb c n then c else n

abbrev low_quota : Option ℕ → ℕ → ℕ
low_quota none n = n
low_quota (some c) n = if eqb n 0 || ltb c n then c else n

abbrev low_rank : Option Scalar → ℕ → ℕ
low_rank none r = r
low_rank (some s) r = if truthy s && ltb (class_rank s) r then class_rank s else r

abbrev strict_of : Option Scalar → Bool → Bool
strict_of none b = b
strict_of (some s) b = if truthy s && not b then true else b

step : View → Dict Scalar → View
step v block = record {
  output = low (positive_int (lookup (max_key output_tokens) block)) v.output;
  input = low (positive_int (lookup (max_key input_tokens) block)) v.input;
  budget = low_quota (positive_int (lookup (quota_key token_budget) block)) v.budget;
  quota = low_quota (positive_int (lookup (quota_key request_quota) block)) v.quota;
  read = low_rank (lookup (class_key read_ceiling) block) v.read;
  write = low_rank (lookup (class_key write_ceiling) block) v.write;
  approval = low_rank (lookup (class_key approval_threshold) block) v.approval;
  strict = strict_of (lookup "residency_strict" block) v.strict;
}

low_comm : (a b : Option ℕ) (n : ℕ) → low a (low b n) ≡ low b (low a n)
low_comm a b n = ground arith

low_quota_comm :
    (a b : Option Scalar) (n : ℕ)
    → low_quota (positive_int a) (low_quota (positive_int b) n)
      ≡ low_quota (positive_int b) (low_quota (positive_int a) n)
low_quota_comm a b n = ground arith

low_rank_comm :
    (a b : Option Scalar) (n : ℕ) → low_rank a (low_rank b n) ≡ low_rank b (low_rank a n)
low_rank_comm a b n = ground arith

strict_of_comm :
    (a b : Option Scalar) (x : Bool) → strict_of a (strict_of b x) ≡ strict_of b (strict_of a x)
strict_of_comm a b x = ground arith

-- Two blocks may be applied in either order.
step_comm : (v : View) (a b : Dict Scalar) → step (step v a) b ≡ step (step v b) a
unfolding step
step_comm v a b = λ i. record {
  output =
      low_comm (positive_int (lookup (max_key output_tokens) b))
        (positive_int (lookup (max_key output_tokens) a)) v.output i;
  input =
      low_comm (positive_int (lookup (max_key input_tokens) b))
        (positive_int (lookup (max_key input_tokens) a)) v.input i;
  budget =
      low_quota_comm (lookup (quota_key token_budget) b) (lookup (quota_key token_budget) a)
        v.budget i;
  quota =
      low_quota_comm (lookup (quota_key request_quota) b) (lookup (quota_key request_quota) a)
        v.quota i;
  read =
      low_rank_comm (lookup (class_key read_ceiling) b) (lookup (class_key read_ceiling) a) v.read
        i;
  write =
      low_rank_comm (lookup (class_key write_ceiling) b) (lookup (class_key write_ceiling) a)
        v.write i;
  approval =
      low_rank_comm (lookup (class_key approval_threshold) b)
        (lookup (class_key approval_threshold) a) v.approval i;
  strict = strict_of_comm (lookup "residency_strict" b) (lookup "residency_strict" a) v.strict i;
}

-- What each guarded write does to the view.
module _ (s : String) (c : Cascade) where
  view-output :
      (o : Option ℕ)
      → view (lower_max output_tokens s o c).0
        ≡ record (view c.0) { output = low o (view c.0).output }
  unfolding lower_max view
  view-output o = ground arith

  view-input :
      (o : Option ℕ)
      → view (lower_max input_tokens s o c).0 ≡ record (view c.0) { input = low o (view c.0).input }
  unfolding lower_max view
  view-input o = ground arith

  view-budget :
      (o : Option ℕ)
      → view (lower_quota token_budget s o c).0
        ≡ record (view c.0) { budget = low_quota o (view c.0).budget }
  unfolding lower_quota view
  view-budget o = ground arith

  view-quota :
      (o : Option ℕ)
      → view (lower_quota request_quota s o c).0
        ≡ record (view c.0) { quota = low_quota o (view c.0).quota }
  unfolding lower_quota view
  view-quota o = ground arith

  view-read :
      (o : Option Scalar)
      → view (lower_class read_ceiling s o c).0
        ≡ record (view c.0) { read = low_rank o (view c.0).read }
  unfolding lower_class view
  view-read o = ground arith

  view-write :
      (o : Option Scalar)
      → view (lower_class write_ceiling s o c).0
        ≡ record (view c.0) { write = low_rank o (view c.0).write }
  unfolding lower_class view
  view-write o = ground arith

  view-approval :
      (o : Option Scalar)
      → view (lower_class approval_threshold s o c).0
        ≡ record (view c.0) { approval = low_rank o (view c.0).approval }
  unfolding lower_class view
  view-approval o = ground arith

  view-strict :
      (o : Option Scalar)
      → view (turn_strict s o c).0 ≡ record (view c.0) { strict = strict_of o (view c.0).strict }
  unfolding turn_strict view
  view-strict o = ground arith

ruleset view_laws = (
  view-output, view-input, view-budget, view-quota, view-read, view-write, view-approval,
  view-strict,
)

view-apply_block :
    (s : String) (block : Dict Scalar) (c : Cascade)
    → view (apply_block s block c).0 ≡ step (view c.0) block
unfolding apply_block step
view-apply_block s [] c = refl
view-apply_block s (b ∷ block) c = simp view_laws

blocks : List (String × Dict Scalar) → View → View
blocks [] v = v
blocks ((s, block) ∷ scoped) v = blocks scoped (step v block)

view-apply_scopes :
    (scoped : List (String × Dict Scalar)) (c : Cascade)
    → view (apply_scopes scoped c).0 ≡ blocks scoped (view c.0)
unfolding apply_scopes blocks
view-apply_scopes [] c = refl
view-apply_scopes ((s, block) ∷ scoped) c =
    view-apply_scopes scoped (apply_block s block c)
    ∙ ap (blocks scoped) (view-apply_block s block c)

blocks-perm :
    {xs ys : List (String × Dict Scalar)} → Permᴰ xs ys → (v : View) → blocks xs v ≡ blocks ys v
unfolding blocks
blocks-perm Permᴰ.nil v = refl
blocks-perm (Permᴰ.cons {b = b} {l₁ = xs} e p) v =
    ap (λ (x : String × Dict Scalar). blocks xs (step v x.1)) e ∙ blocks-perm p (step v b.1)
blocks-perm (Permᴰ.swap {a = a} {b = b} {b' = b'} {l = l} d e) v =
    ap (blocks l) (step_comm v a.1 b.1)
    ∙ ap₂ (λ (x y : String × Dict Scalar). blocks l (step (step v y.1) x.1)) d e
blocks-perm (Permᴰ.trans p q) v = blocks-perm p v ∙ blocks-perm q v

View-set : IsSet View
View-set = hlevel

-- The order in which the scopes are listed does not matter: two lists of scopes that are
-- permutations of one another leave the same token maxima, the same quotas, labels of the same rank
-- and the same residency.
pub apply_value_overlays_perm :
    (rv : Limits) {xs ys : List (String × Dict Scalar)}
    → Perm xs ys
    → view (apply_value_overlays rv xs).limits ≡ view (apply_value_overlays rv ys).limits
unfolding apply_value_overlays
apply_value_overlays_perm rv {xs} {ys} p = ∥∥₁_elim p (View-set _ _) λ d.
    view-apply_scopes xs (rv, []) ∙ blocks-perm d (view rv) ∙ sym (view-apply_scopes ys (rv, []))
