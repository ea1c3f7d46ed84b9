-- ===== src/Approvals/Examples.antt =====
-- The theorems on src/aegis_fabric/approvals.py applied to a small queue, and a wrong approver.
use aegis_capstone.Common.{
  ℕ, ◌+◌, ◌≤◌, String, ◌≡◌, refl, ◌⊎◌, true, false, none, some, [], ◌∷◌, ◌++◌, arith, ◌==◌, eq_iff,
}
use aegis_capstone.Approvals.{
  Action, Setting, State, approve, claim, create_pending, executors, list_pending, load, reject,
  approve_row, approved, err, executed, lookup, ok, pending, reject_row, requested, update,
  approved_by, decide, not_found, proceed, secret_rotate, executor_raised, not_pending, ran,
  self_approval, newest_first,
}
use aegis_capstone.Approvals.Once.{steps, create, accept, refuse, steps-at_most_once}
use aegis_capstone.Approvals.Outcome.{MayApprove, Accepted, approve-Accepted, approve-refused}
use aegis_capstone.Approvals.Race.{both_claim, overlap, overlap-runs_twice}
use aegis_capstone.Approvals.Ran.{count}

abbrev setting : Setting ℕ
setting = record { lower = λ s. s; run = λ x tenant r w. (true, w + 1) }

abbrev failing : Setting ℕ
failing = record { lower = λ s. s; run = λ x tenant r w. (false, w) }

abbrev start : State ℕ
start = record { next_id = 1; table = []; audit = []; runs = []; world = 0 }

abbrev row : Action
row = record {
  id = 1;
  tenant_id = "acme";
  action = "secret.rotate";
  resource = [];
  requester = "ann";
  status = pending;
  approver = none;
  expires_at = 34;
}

abbrev one_pending : State ℕ
one_pending = record {
  next_id = 2;
  table = row ∷ [];
  audit = requested 1 ∷ [];
  runs = [];
  world = 0;
}

abbrev done : State ℕ
done = record {
  next_id = 2;
  table = record row { status = executed; approver = some "bob" } ∷ [];
  audit = requested 1 ∷ approved_by 1 ∷ ran 1 ∷ [];
  runs = 1 ∷ [];
  world = 1;
}

abbrev stuck : State ℕ
stuck = record {
  next_id = 2;
  table = record row { status = approved; approver = some "bob" } ∷ [];
  audit = requested 1 ∷ approved_by 1 ∷ [];
  runs = 1 ∷ [];
  world = 0;
}

created : (create_pending "acme" "secret.rotate" [] "ann" 10 24 start).1 ≡ one_pending
unfolding create_pending
created = refl

load-row : load 1 "acme" one_pending.table ≡ some row
unfolding load
load-row = refl

self_approval_refused : (approve setting 1 "ann" "acme" 20 one_pending).0 ≡ err self_approval
unfolding approve claim approve_row proceed load
self_approval_refused = refl

other_tenant_refused : (reject 1 "bob" "zeta" one_pending).0 ≡ err not_found
unfolding reject reject_row load
other_tenant_refused = refl

nothing_left : list_pending "acme" done ≡ []
unfolding list_pending newest_first
nothing_left = refl

accepted : approve setting 1 "bob" "acme" 20 one_pending ≡ (ok row, done)
unfolding approve claim approve_row proceed load update executors
accepted = refl

raised : approve failing 1 "bob" "acme" 20 one_pending ≡ (err executor_raised, stuck)
unfolding approve claim approve_row proceed load update executors
raised = refl

-- A stuck row is out of reach of a second approval.
stuck_refused : (approve setting 1 "bob" "acme" 20 stuck).0 ≡ err not_pending
unfolding approve claim approve_row proceed load
stuck_refused = refl

other_person : (who : String) → (who == "ann") ≡ false → MayApprove setting who 20 row
other_person who h = record {
  is_open = refl;
  in_time = omega arith;
  two_persons = λ q. grind (arith, eq_iff who "ann");
}

registered : lookup row.action executors ≡ some secret_rotate
unfolding executors
registered = refl

approve-Accepted_example :
    (load 1 "acme" one_pending.table ≡ some row)
    × MayApprove setting "bob" 20 row
    × Accepted 1 "bob" "acme" row one_pending done
approve-Accepted_example = approve-Accepted setting 1 "bob" "acme" 20 one_pending done row accepted

approve-refused_example :
    (stuck ≡ one_pending)
    ⊎ ((r : Action) × (load 1 "acme" one_pending.table ≡ some r)
        × MayApprove failing "bob" 20 r
        × (stuck.table ≡ update 1 (decide approved "bob") one_pending.table))
approve-refused_example =
    approve-refused failing 1 "bob" "acme" 20 one_pending stuck executor_raised raised

steps-at_most_once_example :
    count 1
      (steps setting
        (create "acme" "secret.rotate" [] "ann" 10 24
          ∷ accept 1 "bob" "" 20
          ∷ refuse 1 "eve" ""
          ∷ accept 1 "eve" "" 21
          ∷ [])
        start).runs
    ≤ 1
steps-at_most_once_example =
    steps-at_most_once setting
      (create "acme" "secret.rotate" [] "ann" 10 24
        ∷ accept 1 "bob" "" 20
        ∷ refuse 1 "eve" ""
        ∷ accept 1 "eve" "" 21
        ∷ [])
      start refl refl 1

overlap-runs_twice_example :
    ((claim setting 1 "bob" "acme" 20 one_pending).0 ≡ ok row)
    × ((both_claim setting 1 "bob" "eve" "acme" 20 one_pending).0 ≡ ok row)
    × ((overlap setting 1 "bob" "eve" "acme" 20 row one_pending).1.runs
        ≡ (one_pending.runs ++ 1 ∷ []) ++ 1 ∷ [])
overlap-runs_twice_example =
    overlap-runs_twice setting 1 "bob" "eve" "acme" 20 row secret_rotate one_pending load-row
      (other_person "bob" refl) (other_person "eve" refl) registered
