-- ===== src/Approvals/Kept.antt =====
-- What a row of src/aegis_fabric/approvals.py keeps, whatever is called: its request.
use aegis_capstone.Common.{
  ℕ, ◌<◌, String, ◌≡◌, refl, sym, ap, ◌∙◌, inl, inr, Bool, true, false, ◌&&◌, ◌||◌, Option, none,
  some, List, [], ◌∷◌, ◌++◌, arith, ◌==◌, eqb, Bool-cases, All, All-append,
}
use aegis_capstone.Approvals.{
  approve, reject_row, after_reject, finish, create_pending, reject, claim, proceed, execute,
  after_run, load, update, decide, set_status, executed, approved, rejected, Action, State, Setting,
  Executor, Resource, Result, ok, err, executors, approved_by, rejected_by, ran, is_pending, lookup,
}
use aegis_capstone.Approvals.Once.{Call, create, refuse, accept, step}
use aegis_capstone.Approvals.Outcome.{claim-ok, claim-err}

abbrev pub Request : Type 0
Request = String × String × Resource × String × ℕ

-- A row without its id, its status and its approver.
abbrev pub request_of : Action → Request
request_of a = (a.tenant_id, a.action, a.resource, a.requester, a.expires_at)

-- Every row of this id makes the request.
abbrev pub IsRequest : ℕ → Request → List Action → Type 0
IsRequest i q t = All (λ a. eqb a.id i ≡ true → request_of a ≡ q) t

abbrev Keeps : (Action → Action) → Type 0
Keeps f = (a : Action) → ((f a).id ≡ a.id) × (request_of (f a) ≡ request_of a)

IsRequest-update :
    (i j : ℕ) (q : Request) (f : Action → Action) (t : List Action)
    → Keeps f
    → IsRequest j q t
    → IsRequest j q (update i f t)
unfolding update
IsRequest-update i j q f [] k h = tt
IsRequest-update i j q f (a ∷ t) k h = elim (Bool-cases (eqb a.id i)) [
  | inl e ↦
      rw e
        (λ m. (k a).1 ∙ h.0 (ap (λ n. eqb n j) (sym (k a).0) ∙ m), IsRequest-update i j q f t k h.1)
  | inr e ↦ rw e (h.0, IsRequest-update i j q f t k h.1)
]

pub load-IsRequest :
    (i : ℕ) (tf : String) (q : Request) (t : List Action) (row : Action)
    → load i tf t ≡ some row
    → IsRequest i q t
    → request_of row ≡ q
unfolding load
load-IsRequest i tf q [] row h k = cc
load-IsRequest i tf q (a ∷ t) row h k =
    elim (Bool-cases (eqb a.id i && (tf == "" || a.tenant_id == tf))) [
      | inl e ↦
          let z : some a ≡ some row = rw e at h in
          let m : a ≡ row = cc in rw (sym m) (k.0 (ground arith))
      | inr e ↦ load-IsRequest i tf q t row (rw e at h) k.1
    ]

-- An id that was given out, with the request that it stands for.
pub record Asked {W : Type 0} (i : ℕ) (q : Request) (s : State W) : Type 0 where
  pub known : i < s.next_id
  pub request : IsRequest i q s.table

Asked-update :
    {W : Type 0} (i j : ℕ) (q : Request) (f : Action → Action) (s u : State W)
    → Keeps f
    → u.next_id ≡ s.next_id
    → u.table ≡ update i f s.table
    → Asked j q s
    → Asked j q u
Asked-update i j q f s u k n t a = record {
  known = rw n a.known;
  request = rw t (IsRequest-update i j q f s.table k a.request);
}

Asked-create :
    {W : Type 0} (i : ℕ) (q : Request) (tenant action : String) (resource : Resource) (who : String)
    (now day : ℕ) (s : State W)
    → Asked i q s
    → Asked i q (create_pending tenant action resource who now day s).1
unfolding create_pending
Asked-create i q tenant action resource who now day s a = record {
  known = let k = a.known in omega arith;
  request =
      All-append (λ b. eqb b.id i ≡ true → request_of b ≡ q) s.table _ a.request
        ((λ e. let k = a.known in absurd (ground arith)), tt);
}

Asked-reject_row :
    {W : Type 0} (i j : ℕ) (q : Request) (who : String) (o : Option Action) (s : State W)
    → Asked j q s
    → Asked j q (after_reject i (finish (reject_row i who o s.table) s)).1
unfolding reject_row
Asked-reject_row i j q who none s a = a
Asked-reject_row i j q who (some row) s a = elim (Bool-cases (is_pending row.status)) [
  | inl e ↦ rw e (
      Asked-update i j q (decide rejected who) s
        (record s {
          table = update i (decide rejected who) s.table;
          audit = s.audit ++ rejected_by i ∷ [];
        })
        (λ b. (refl, refl)) refl refl a)
  | inr e ↦ rw e a
]

module _ {W : Type 0} (g : Setting W) (i j : ℕ) (q : Request) where
  Asked-after_run :
      (row : Action) (u : State W) (b : Bool × W)
      → Asked j q u
      → Asked j q (after_run g i row u b).1
  Asked-after_run row u (false, w) a = record { known = a.known; request = a.request }
  Asked-after_run row u (true, w) a =
      Asked-update i j q (set_status executed) u
        (record u {
          runs = u.runs ++ i ∷ [];
          world = w;
          table = update i (set_status executed) u.table;
          audit = u.audit ++ ran i ∷ [];
        })
        (λ b. (refl, refl)) refl refl a

  Asked-execute :
      (row : Action) (x : Option Executor) (u : State W)
      → Asked j q u
      → Asked j q (execute g i row x u).1
  Asked-execute row none u a = a
  Asked-execute row (some x) u a =
      Asked-after_run row u (g.run x row.tenant_id row.resource u.world) a

  Asked-proceed :
      (who tf : String) (now : ℕ) (s : State W) (c : Result Action × State W)
      → claim g i who tf now s ≡ c
      → Asked j q s
      → Asked j q (proceed g i c).1
  unfolding proceed
  Asked-proceed who tf now s (err e, u) h a = rw (claim-err g i who tf now s u e h) a
  Asked-proceed who tf now s (ok row, u) h a =
      let c = (claim-ok g i who tf now s u row h).2 in
      let b =
        Asked-update i j q (decide approved who) s u (λ b. (refl, refl)) (ap (λ w. w.next_id) c)
          (ap (λ w. w.table) c) a in
      Asked-execute row (lookup row.action executors)
        (record u { audit = u.audit ++ approved_by i ∷ [] })
        (record { known = b.known; request = b.request })

-- What happens between two calls: a call of the queue, or any change of the world beside it.
pub data Event (W : Type 0) : Type 0 where
  call : Call → Event W
  outside : (W → W) → Event W

module _ {W : Type 0} (g : Setting W) where
  unfoldable pub happen : Event W → State W → State W
  happen (call c) s = step g c s
  happen (outside f) s = record s { world = f s.world }

  unfoldable pub all_happen : List (Event W) → State W → State W
  unfolding happen
  all_happen [] s = s
  all_happen (e ∷ es) s = all_happen es (happen e s)

  Asked-step : (c : Call) (j : ℕ) (q : Request) (s : State W) → Asked j q s → Asked j q (step g c s)
  unfolding step reject approve
  Asked-step (create tenant action resource who now day) j q s a =
      Asked-create j q tenant action resource who now day s a
  Asked-step (refuse i who tf) j q s a = Asked-reject_row i j q who (load i tf s.table) s a
  Asked-step (accept i who tf now) j q s a =
      Asked-proceed g i j q who tf now s (claim g i who tf now s) refl a

  -- A request stays as it was made.
  pub Asked-all_happen :
      (es : List (Event W)) (j : ℕ) (q : Request) (s : State W)
      → Asked j q s
      → Asked j q (all_happen es s)
  unfolding all_happen
  Asked-all_happen [] j q s a = a
  Asked-all_happen (call c ∷ es) j q s a =
      Asked-all_happen es j q (step g c s) (Asked-step c j q s a)
  Asked-all_happen (outside f ∷ es) j q s a =
      Asked-all_happen es j q (record s { world = f s.world })
        (record { known = a.known; request = a.request })
