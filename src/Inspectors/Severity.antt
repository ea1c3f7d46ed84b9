-- ===== src/Inspectors/Severity.antt =====
-- The verdict of the pipeline of src/aegis_fabric/inspectors.py by its severity.
use aegis_capstone.Common.{
  ℕ, ◌≤◌, String, ◌≡◌, refl, ap, ◌∙◌, Option, none, some, List, [], ◌∷◌, ◌++◌, arith, All, max,
  All-append,
}
use aegis_capstone.Inspectors.{
  InspectionAction, InspectionContext, InspectionResult, by_priority, close, loop, place, Inspector,
  alert, allow, first_pending, require_approval, round, run, Round, deny, judge, last_of, return,
  go_on,
}

abbrev pub severity : InspectionAction → ℕ
severity allow = 0
severity alert = 1
severity require_approval = 2
severity deny = 3

abbrev pub severity_of : Option InspectionResult → ℕ
severity_of none = 0
severity_of (some r) = severity r.action

-- The highest severity that any of the inspectors finds on its own; one that raises finds nothing.
abbrev pub highest : InspectionContext → List Inspector → ℕ
highest ctx [] = 0
highest ctx (i ∷ is) = max (severity_of (i.inspect ctx)) (highest ctx is)

highest-place :
    (ctx : InspectionContext) (i : Inspector) (js : List Inspector)
    → highest ctx (place i js) ≡ max (severity_of (i.inspect ctx)) (highest ctx js)
unfolding place
highest-place ctx i [] = refl
highest-place ctx i (j ∷ js) = ground (arith, highest-place ctx i js)

highest-by_priority :
    (ctx : InspectionContext) (is : List Inspector) → highest ctx (by_priority is) ≡ highest ctx is
unfolding by_priority
highest-by_priority ctx [] = refl
highest-by_priority ctx (i ∷ is) =
    rw (highest-place ctx i (by_priority is), highest-by_priority ctx is) refl

-- What the loop keeps of its two variables, and the severity that they stand for.
abbrev Kept : Option InspectionResult → List InspectionResult → Type 0
Kept (some r) fs = r.action ≡ require_approval
Kept none fs = All (λ f. f.action ≡ alert) fs

abbrev rank : Option InspectionResult → List InspectionResult → ℕ
rank (some r) fs = 2
rank none [] = 0
rank none (f ∷ fs) = 1

severity-last_of :
    (f : InspectionResult) (fs : List InspectionResult)
    → f.action ≡ alert
    → All (λ g. g.action ≡ alert) fs
    → severity (last_of f fs).action ≡ 1
severity-last_of f [] h k = rw h refl
severity-last_of f (g ∷ fs) h k = severity-last_of g fs k.0 k.1

severity-close :
    (p : Option InspectionResult) (fs : List InspectionResult)
    → Kept p fs
    → severity (close p fs).action ≡ rank p fs
unfolding close
severity-close (some r) fs h = rw h refl
severity-close none [] h = refl
severity-close none (f ∷ fs) h = severity-last_of f fs h.0 h.1

rank-snoc :
    (p : Option InspectionResult) (fs : List InspectionResult) (r : InspectionResult)
    → rank p (fs ++ r ∷ []) ≡ max 1 (rank p fs)
rank-snoc (some q) fs r = refl
rank-snoc none [] r = refl
rank-snoc none (f ∷ fs) r = refl

Kept-alert :
    (p : Option InspectionResult) (fs : List InspectionResult) (r : InspectionResult)
    → r.action ≡ alert
    → Kept p fs
    → Kept p (fs ++ r ∷ [])
Kept-alert (some q) fs r h k = k
Kept-alert none fs r h k = All-append (λ f. f.action ≡ alert) fs (r ∷ []) k (h, tt)

Kept-first_pending :
    (p : Option InspectionResult) (fs gs : List InspectionResult) (r : InspectionResult)
    → r.action ≡ require_approval
    → Kept p fs
    → Kept (first_pending p r) gs
Kept-first_pending none fs gs r h k = h
Kept-first_pending (some q) fs gs r h k = k

rank-first_pending :
    (p : Option InspectionResult) (fs gs : List InspectionResult) (r : InspectionResult)
    → rank (first_pending p r) gs ≡ max 2 (rank p fs)
rank-first_pending none [] gs r = refl
rank-first_pending none (f ∷ fs) gs r = refl
rank-first_pending (some q) fs gs r = refl

rank-le : (p : Option InspectionResult) (fs : List InspectionResult) → rank p fs ≤ 2
rank-le none [] = omega arith
rank-le none (f ∷ fs) = omega arith
rank-le (some q) fs = omega arith

pub severity-le : (a : InspectionAction) → severity a ≤ 3
severity-le allow = omega arith
severity-le alert = omega arith
severity-le require_approval = omega arith
severity-le deny = omega arith

severity_of-le : (o : Option InspectionResult) → severity_of o ≤ 3
severity_of-le none = omega arith
severity_of-le (some r) = severity-le r.action

highest-le : (ctx : InspectionContext) (is : List Inspector) → highest ctx is ≤ 3
highest-le ctx [] = omega arith
highest-le ctx (i ∷ is) = omega (arith, severity_of-le (i.inspect ctx), highest-le ctx is)

-- The rest of the loop after a round.
abbrev after : InspectionContext → List Inspector → Round → InspectionResult × List InspectionResult
after ctx is (return r fs) = (r, fs)
after ctx is (go_on p fs) = loop ctx is p fs

judged :
    (ctx : InspectionContext) (is : List Inspector) (a : InspectionAction) (r : InspectionResult)
    (p : Option InspectionResult) (fs : List InspectionResult)
    → ((q : Option InspectionResult) (gs : List InspectionResult)
        → Kept q gs
        → severity (loop ctx is q gs).0.action ≡ max (highest ctx is) (rank q gs))
    → r.action ≡ a
    → Kept p fs
    → severity (after ctx is (judge a r p fs)).0.action
      ≡ max (max (severity a) (highest ctx is)) (rank p fs)
judged ctx is allow r p fs rest h k = omega (arith, rest p fs k)
judged ctx is alert r p fs rest h k =
    omega (arith, rest p (fs ++ r ∷ []) (Kept-alert p fs r h k), rank-snoc p fs r)
judged ctx is require_approval r p fs rest h k = omega (
  arith,
  rest (first_pending p r) (fs ++ r ∷ []) (Kept-first_pending p fs (fs ++ r ∷ []) r h k),
  rank-first_pending p fs (fs ++ r ∷ []) r,
)
judged ctx is deny r p fs rest h k = rw h (omega (arith, highest-le ctx is, rank-le p fs))

visited :
    (ctx : InspectionContext) (is : List Inspector) (name : String) (o : Option InspectionResult)
    (p : Option InspectionResult) (fs : List InspectionResult)
    → ((q : Option InspectionResult) (gs : List InspectionResult)
        → Kept q gs
        → severity (loop ctx is q gs).0.action ≡ max (highest ctx is) (rank q gs))
    → Kept p fs
    → severity (after ctx is (round name o p fs)).0.action
      ≡ max (max (severity_of o) (highest ctx is)) (rank p fs)
unfolding round
visited ctx is name none p fs rest k = omega (arith, rest p fs k)
visited ctx is name (some r) p fs rest k =
    judged ctx is r.action (record r { inspector = name }) p fs rest refl k

after-elim :
    (ctx : InspectionContext) (is : List Inspector) (x : Round)
    → (elim x [ return r fs ↦ (r, fs) | go_on p fs ↦ loop ctx is p fs ]) ≡ after ctx is x
after-elim ctx is (return r fs) = refl
after-elim ctx is (go_on p fs) = refl

severity-loop :
    (ctx : InspectionContext) (is : List Inspector) (p : Option InspectionResult)
    (fs : List InspectionResult)
    → Kept p fs
    → severity (loop ctx is p fs).0.action ≡ max (highest ctx is) (rank p fs)
unfolding loop
severity-loop ctx [] p fs k = omega (arith, severity-close p fs k)
severity-loop ctx (i ∷ is) p fs k =
    ap (λ x. severity x.0.action) (after-elim ctx is (round i.name (i.inspect ctx) p fs))
    ∙ visited ctx is i.name (i.inspect ctx) p fs (λ q gs. severity-loop ctx is q gs) k

-- In whatever order the inspectors are given, and whether or not some of them raise, the verdict of
-- the pipeline is exactly as severe as the most severe verdict of an inspector on its own: allow below
-- alert, below require_approval, below deny.
pub run-severity :
    (inspectors : List Inspector) (ctx : InspectionContext)
    → severity (run inspectors ctx).0.action ≡ highest ctx inspectors
unfolding run
run-severity inspectors ctx = omega (
  arith,
  severity-loop ctx (by_priority inspectors) none [] tt,
  highest-by_priority ctx inspectors,
)
