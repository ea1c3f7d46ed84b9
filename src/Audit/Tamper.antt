-- ===== src/Audit/Tamper.antt =====
-- How far the last hash of src/aegis_fabric/audit.py pins the whole ledger.
use aegis_capstone.Common.{
  ℕ, ◌≡◌, refl, sym, ap, ◌∙◌, Bool, true, Option, none, some, List, [], ◌∷◌, ◌++◌, arith, length,
}
use aegis_capstone.Audit.{
  Bytes, Crypto, Row, Ledger, link, covered, chain_hash, intact, same_bytes, Walk, reached, stopped,
  row_ok, walk, verify_chain, report, take,
}

-- What SHA-256 is trusted for: no two inputs with one digest, and 64 hexadecimal characters.
pub record IsCollisionFree (c : Crypto) : Type 0 where
  pub injective : (x y : Bytes) → c.digest x ≡ c.digest y → x ≡ y
  pub size : (x : Bytes) → length (c.digest x) ≡ 64

pub same_bytes-eq : (xs ys : Bytes) → same_bytes xs ys ≡ true → xs ≡ ys
unfolding same_bytes
same_bytes-eq [] [] h = refl
same_bytes-eq [] (y ∷ ys) h = cc
same_bytes-eq (x ∷ xs) [] h = cc
same_bytes-eq (x ∷ xs) (y ∷ ys) h = ground (arith, same_bytes-eq xs ys)

append_inj :
    (xs ys us vs : Bytes) → length xs ≡ length ys → xs ++ us ≡ ys ++ vs → (xs ≡ ys) × (us ≡ vs)
append_inj [] [] us vs n h = (refl, h)
append_inj [] (y ∷ ys) us vs n h = absurd (omega arith)
append_inj (x ∷ xs) [] us vs n h = absurd (omega arith)
append_inj (x ∷ xs) (y ∷ ys) us vs n h = ground (arith, append_inj xs ys us vs (omega arith))

link_size : (c : Crypto) → IsCollisionFree c → (x : Bytes) → length x ≡ 64 → link (some x) ≡ x
link_size c h [] e = absurd (omega arith)
link_size c h (b ∷ bs) e = refl

-- The rows agree one by one.
abbrev pub SameRows : List Row → List Row → Type 0
SameRows [] [] = Unit
SameRows [] (s ∷ ss) = ⊥
SameRows (r ∷ rs) [] = ⊥
SameRows (r ∷ rs) (s ∷ ss) =
    (covered r ≡ covered s) × (r.event_hash ≡ s.event_hash) × SameRows rs ss

module _ (c : Crypto) (free : IsCollisionFree c) where
  walk-row :
      (prev : Option Bytes) (r : Row) (rs : List Row) (l : Option Bytes)
      → walk c prev (r ∷ rs) ≡ reached l
      → (chain_hash c prev (covered r) ≡ r.event_hash) × (walk c (some r.event_hash) rs ≡ reached l)
  unfolding walk row_ok
  walk-row prev r rs l h =
      ground (arith, same_bytes-eq (chain_hash c prev (covered r)) r.event_hash)

  hash_size :
      (prev : Option Bytes) (r : Row)
      → chain_hash c prev (covered r) ≡ r.event_hash
      → link (some r.event_hash) ≡ r.event_hash
  hash_size prev r e = link_size c free r.event_hash (rw (← e) (free.size (link prev ++ covered r)))

  same_size :
      (p q : Option Bytes) (r s : Row)
      → chain_hash c p (covered r) ≡ r.event_hash
      → chain_hash c q (covered s) ≡ s.event_hash
      → length (link (some r.event_hash)) ≡ length (link (some s.event_hash))
  same_size p q r s er es =
      ap length (hash_size p r er)
      ∙ ap length (sym er)
      ∙ free.size (link p ++ covered r)
      ∙ sym (free.size (link q ++ covered s))
      ∙ ap length es
      ∙ ap length (sym (hash_size q s es))

  walk-SameRows :
      (rs ss : List Row) (p q l : Option Bytes)
      → length rs ≡ length ss
      → length (link p) ≡ length (link q)
      → walk c p rs ≡ reached l
      → walk c q ss ≡ reached l
      → (link p ≡ link q) × SameRows rs ss
  unfolding walk
  walk-SameRows [] [] p q l n k h i = (cc, tt)
  walk-SameRows [] (s ∷ ss) p q l n k h i = absurd (omega arith)
  walk-SameRows (r ∷ rs) [] p q l n k h i = absurd (omega arith)
  walk-SameRows (r ∷ rs) (s ∷ ss) p q l n k h i =
      let (er, hr) = walk-row p r rs l h in
      let (es, hs) = walk-row q s ss l i in
      let lr = hash_size p r er in
      let ls = hash_size q s es in
      let (e, rest) =
        walk-SameRows rs ss (some r.event_hash) (some s.event_hash) l (omega arith)
          (same_size p q r s er es) hr hs in
      let hashes : r.event_hash ≡ s.event_hash = sym lr ∙ e ∙ ls in
      let (links, bodies) =
        append_inj (link p) (link q) (covered r) (covered s) k
          (free.injective _ _ (er ∙ hashes ∙ sym es)) in
      (links, (bodies, hashes, rest))

report-intact :
    (c : Crypto) (rows : List Row) (total : ℕ) (w : Walk) {n m : ℕ} {cut : Bool} {l : Option Bytes}
    → report c rows total w ≡ intact n m cut l
    → (w ≡ reached l) × (length rows ≡ n)
report-intact c rows total (reached p) h = ground arith
report-intact c rows total (stopped n) h = cc

-- Two ledgers that verify as intact, with the same number of verified rows and the same last hash,
-- hold the same bytes in the same places: in each verified row the additional data, ciphertext and
-- nonce are together the same text, and the hash is the same. The digest has no collisions and is 64
-- characters long.
pub verify_chain-SameRows :
    (c : Crypto)
    → IsCollisionFree c
    → (limit : ℕ) (a b : Ledger) {n m k : ℕ} {d e : Bool} {l : Option Bytes}
    → verify_chain c limit a ≡ intact n m d l
    → verify_chain c limit b ≡ intact n k e l
    → SameRows (take limit a.rows) (take limit b.rows)
unfolding verify_chain
verify_chain-SameRows c free limit a b {l = l} h i =
    let (wa, na) = report-intact c (take limit a.rows) _ (walk c none (take limit a.rows)) h in
    let (wb, nb) = report-intact c (take limit b.rows) _ (walk c none (take limit b.rows)) i in
    (walk-SameRows c free (take limit a.rows) (take limit b.rows) none none l (na ∙ sym nb) refl wa
      wb).1
