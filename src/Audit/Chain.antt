-- ===== src/Audit/Chain.antt =====
-- What `append_event` writes, one call after another, `verify_chain` of src/aegis_fabric/audit.py
-- accepts.
use aegis_capstone.Common.{
  ℕ, zero, suc, ◌+◌, ◌≡◌, refl, true, Option, none, some, List, [], ◌∷◌, ◌++◌, arith, ltb, length,
  length-append, min, length-take,
}
use aegis_capstone.Audit.{
  Bytes, Crypto, Row, Event, Ledger, empty, last_hash, covered, chain_hash, new_row, append_event,
  append_all, intact, same_bytes, same_link, reached, row_ok, walk, verify_chain, take,
}

pub same_bytes_refl : (xs : Bytes) → same_bytes xs xs ≡ true
unfolding same_bytes
same_bytes_refl [] = refl
same_bytes_refl (x ∷ xs) = ground (arith, same_bytes_refl xs)

pub same_link_refl : (p : Option Bytes) → same_link p p ≡ true
unfolding same_link
same_link_refl none = refl
same_link_refl (some x) = same_bytes_refl x

module _ (c : Crypto) where
  -- Each row carries the hash of its own bytes and of the row before it.
  abbrev pub IsChained : Option Bytes → List Row → Type 0
  IsChained prev [] = Unit
  IsChained prev (r ∷ rs) =
      (r.prev_hash ≡ prev)
      × (r.event_hash ≡ chain_hash c prev (covered r))
      × IsChained (some r.event_hash) rs

  pub IsChained-append :
      (prev : Option Bytes) (rs : List Row) (e : Event) (n : ℕ)
      → IsChained prev rs
      → IsChained prev (rs ++ new_row c e (last_hash prev rs) n ∷ [])
  unfolding last_hash new_row
  IsChained-append prev [] e n h = (refl, refl, tt)
  IsChained-append prev (r ∷ rs) e n h = (h.0, h.1, IsChained-append (some r.event_hash) rs e n h.2)

  IsChained-append_all :
      (es : List Event) (db : Ledger)
      → IsChained none db.rows
      → IsChained none (append_all c es db).rows
  unfolding append_all append_event
  IsChained-append_all [] db h = h
  IsChained-append_all (e ∷ es) db h =
      IsChained-append_all es (append_event c e db) (IsChained-append none db.rows e db.next_id h)

  IsChained-take :
      (n : ℕ) (prev : Option Bytes) (rs : List Row) → IsChained prev rs → IsChained prev (take n rs)
  IsChained-take zero prev rs h = tt
  IsChained-take (suc n) prev [] h = tt
  IsChained-take (suc n) prev (r ∷ rs) h = (h.0, h.1, IsChained-take n (some r.event_hash) rs h.2)

  pub row_ok-IsChained :
      (prev : Option Bytes) (r : Row)
      → r.prev_hash ≡ prev
      → r.event_hash ≡ chain_hash c prev (covered r)
      → row_ok c prev r ≡ true
  unfolding row_ok
  row_ok-IsChained prev r p e =
      rw (p, e, same_bytes_refl (chain_hash c prev (covered r)), same_link_refl prev) refl

  walk-IsChained :
      (prev : Option Bytes) (rs : List Row)
      → IsChained prev rs
      → walk c prev rs ≡ reached (last_hash prev rs)
  unfolding walk last_hash
  walk-IsChained prev [] h = refl
  walk-IsChained prev (r ∷ rs) h =
      rw (row_ok-IsChained prev r h.0 h.1) (walk-IsChained (some r.event_hash) rs h.2)

  length-append_all :
      (es : List Event) (db : Ledger)
      → length (append_all c es db).rows ≡ length db.rows + length es
  unfolding append_all append_event
  length-append_all [] db = omega arith
  length-append_all (e ∷ es) db = omega (
    arith,
    length-append_all es (append_event c e db),
    length-append {0} db.rows (new_row c e (last_hash none db.rows) db.next_id ∷ []),
  )

add_zero_left : (n : ℕ) → 0 + n ≡ n
add_zero_left n = omega arith

cut_short : (a b : ℕ) → ltb (min a (0 + b)) (0 + b) ≡ ltb a b
cut_short a b = ground arith

-- Whatever is appended to an empty ledger, call after call, verification with any limit reports an
-- intact chain: it has verified as many rows as there are events, or the limit if that is lower, and
-- it says whether the limit cut rows off.
pub verify_chain-append_all :
    (c : Crypto) (es : List Event) (limit : ℕ)
    → let rows = take limit (append_all c es empty).rows in
      (verify_chain c limit (append_all c es empty)
        ≡ intact (min limit (length es)) (length es) (ltb limit (length es)) (last_hash none rows))
unfolding verify_chain
verify_chain-append_all c es limit =
    rw
      (
        walk-IsChained c none (take limit (append_all c es empty).rows)
            (IsChained-take c limit none _ (IsChained-append_all c es empty tt)),
        length-take limit (append_all c es empty).rows,
        length-append_all c es empty,
      )
      (cc (add_zero_left (length es), cut_short limit (length es)))
