-- ===== src/Audit/Examples.antt =====
-- The ledger theorems at a small ledger. The digest of these tests pads its input's code to 64 places:
-- it has no collisions.
use aegis_capstone.Common.{
  ℕ, zero, suc, ◌+◌, ◌≤◌, ◌<◌, String, ◌≡◌, refl, true, false, none, List, [], ◌∷◌, arith, length,
  All,
}
use aegis_capstone.Audit.{
  Bytes, Crypto, Event, Ledger, empty, last_hash, append_event, append_all, intact, verify_chain,
  new_row, take,
}
use aegis_capstone.Audit.Chain.{verify_chain-append_all}
use aegis_capstone.Audit.Query.{Visible, trace, last, queries-Visible}
use aegis_capstone.Audit.Tamper.{IsCollisionFree, SameRows, verify_chain-SameRows}
use mathlib.Core.Path.{ap₂}

-- A list of numbers as one number: `x` halvings lead from one item to the next.
shift : ℕ → ℕ → ℕ
shift zero m = m + m + 1
shift (suc x) m = shift x m + shift x m

code : Bytes → ℕ
code [] = 0
code (x ∷ xs) = shift x (code xs)

abbrev zeros : ℕ → Bytes
zeros zero = []
zeros (suc n) = 0 ∷ zeros n

pad : Bytes → Bytes
pad x = code x ∷ zeros 63

shift_pos : (x m : ℕ) → 0 < shift x m
unfolding shift
shift_pos zero m = omega arith
shift_pos (suc x) m = omega (arith, shift_pos x m)

shift_inj : (x y m n : ℕ) → shift x m ≡ shift y n → (x ≡ y) × (m ≡ n)
unfolding shift
shift_inj zero zero m n h = (refl, omega arith)
shift_inj zero (suc y) m n h = absurd (omega arith)
shift_inj (suc x) zero m n h = absurd (omega arith)
shift_inj (suc x) (suc y) m n h = ground (arith, shift_inj x y m n (omega arith))

code_inj : (xs ys : Bytes) → code xs ≡ code ys → xs ≡ ys
unfolding code
code_inj [] [] h = refl
code_inj [] (y ∷ ys) h = absurd (omega (arith, shift_pos y (code ys)))
code_inj (x ∷ xs) [] h = absurd (omega (arith, shift_pos x (code xs)))
code_inj (x ∷ xs) (y ∷ ys) h =
    let (p, q) = shift_inj x y (code xs) (code ys) h in ap₂ (λ a r. a ∷ r) p (code_inj xs ys q)

abbrev crypto : Crypto
crypto = record { digest = pad; encode = λ s. 1 ∷ []; encrypt = λ nonce p aad. p }

head_inj : (x y : Bytes) → pad x ≡ pad y → code x ≡ code y
unfolding pad
head_inj x y h = cc

crypto-IsCollisionFree : IsCollisionFree crypto
unfolding pad
crypto-IsCollisionFree = record {
  injective = λ x y h. code_inj x y (head_inj x y h);
  size = λ x. refl;
}

abbrev event : String → ℕ → Event
event tenant n = record {
  trace_id = "t1";
  tenant_id = tenant;
  subject = "ann";
  action = "model.call";
  resource = "m";
  policy_version = "policy-v1";
  values_version = "v";
  decision = "allow";
  reason = none;
  plaintext = n ∷ [];
  nonce = n ∷ [];
  now = n;
}

abbrev two : List Event
two = event "acme" 1 ∷ event "beta" 2 ∷ []

abbrev ledger : Ledger
ledger = append_all crypto two empty

verify_chain-append_all_example :
    verify_chain crypto 1 (append_all crypto two empty)
    ≡ intact 1 2 true (last_hash none (take 1 (append_all crypto two empty).rows))
verify_chain-append_all_example = verify_chain-append_all crypto two 1

one_intact :
    verify_chain crypto 5 (append_all crypto (event "acme" 1 ∷ []) empty)
    ≡ intact 1 1 false (last_hash none (append_all crypto (event "acme" 1 ∷ []) empty).rows)
unfolding append_all append_event
one_intact = verify_chain-append_all crypto (event "acme" 1 ∷ []) 5

verify_chain-SameRows_example :
    SameRows
      (append_all crypto (event "acme" 1 ∷ []) empty).rows
      (append_all crypto (event "acme" 1 ∷ []) empty).rows
unfolding append_all append_event
verify_chain-SameRows_example =
    verify_chain-SameRows crypto crypto-IsCollisionFree 5
      (append_all crypto (event "acme" 1 ∷ []) empty)
      (append_all crypto (event "acme" 1 ∷ []) empty) one_intact one_intact

queries-Visible_example :
    All (Visible "acme" "own" "ann") (trace ledger "t1" "acme" "own" "ann")
    × All (λ r. r.trace_id ≡ "t1") (trace ledger "t1" "acme" "own" "ann")
    × All (Visible "acme" "own" "ann") (last ledger "acme" "own" "ann" 20 none)
    × (length (last ledger "acme" "own" "ann" 20 none) ≤ 200)
queries-Visible_example = queries-Visible ledger "t1" "acme" "own" "ann" 20 none

-- A scope of `none` reads the tenant's events, other users' among them.
none_reads_tenant : length (trace ledger "t1" "acme" "none" "bob") ≡ 1
unfolding trace append_all append_event new_row
none_reads_tenant = refl
