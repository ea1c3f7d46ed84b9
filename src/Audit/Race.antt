-- ===== src/Audit/Race.antt =====
-- Two sessions of src/aegis_fabric/audit.py that both read the last hash before either inserts:
-- nothing in `append_event` keeps them apart.
use aegis_capstone.Common.{
  ℕ, ◌+◌, ◌≤◌, ◌≡◌, refl, sym, ap, ◌∙◌, ◌≢◌, inl, inr, false, Option, none, some, List, [], ◌∷◌,
  ◌++◌, arith, Bool-cases, length, take_all, length-append,
}
use aegis_capstone.Audit.{
  Bytes, Crypto, Row, Event, Ledger, last_hash, new_row, read_last, insert_row, failed, same_bytes,
  same_link, stopped, row_ok, walk, verify_chain,
}
use aegis_capstone.Audit.Chain.{IsChained, row_ok-IsChained, IsChained-append}
use aegis_capstone.Audit.Tamper.{same_bytes-eq}

-- Both read, then the first inserts, then the second.
abbrev pub race : Crypto → Event → Event → Ledger → Ledger
race c e f db = insert_row c f (read_last db) (insert_row c e (read_last db) db)

walk-append :
    (c : Crypto) (prev : Option Bytes) (rs ss : List Row)
    → IsChained c prev rs
    → walk c prev (rs ++ ss) ≡ walk c (last_hash prev rs) ss
unfolding walk last_hash
walk-append c prev [] ss h = refl
walk-append c prev (r ∷ rs) ss h =
    rw (row_ok-IsChained c prev r h.0 h.1) (walk-append c (some r.event_hash) rs ss h.2)

same_link-ne : (p q : Option Bytes) → p ≢ q → same_link p q ≡ false
unfolding same_link
same_link-ne none none ne = absurd (ne refl)
same_link-ne none (some y) ne = refl
same_link-ne (some x) none ne = refl
same_link-ne (some x) (some y) ne = elim (Bool-cases (same_bytes x y)) [
  | inl e ↦ absurd (ne (ap some (same_bytes-eq x y e)))
  | inr e ↦ e
]

last_hash-append :
    (prev : Option Bytes) (rs : List Row) (r : Row)
    → last_hash prev (rs ++ r ∷ []) ≡ some r.event_hash
unfolding last_hash
last_hash-append prev [] r = refl
last_hash-append prev (s ∷ rs) r = last_hash-append (some s.event_hash) rs r

walk_stale :
    (c : Crypto) (prev : Option Bytes) (r : Row)
    → r.prev_hash ≢ prev
    → walk c prev (r ∷ []) ≡ stopped r.sequence_id
unfolding walk row_ok
walk_stale c prev r ne = ground (arith, same_link-ne r.prev_hash prev ne)

prev_hash-new_row :
    (c : Crypto) (e : Event) (prev : Option Bytes) (n : ℕ) → (new_row c e prev n).prev_hash ≡ prev
unfolding new_row
prev_hash-new_row c e prev n = refl

sequence_id-new_row :
    (c : Crypto) (e : Event) (prev : Option Bytes) (n : ℕ) → (new_row c e prev n).sequence_id ≡ n
unfolding new_row
sequence_id-new_row c e prev n = refl

-- From a ledger in good order, two racing appends leave one that verification rejects at the second
-- of the two rows, provided that the limit reaches it and that the first row's hash is not the hash
-- of the row before it.
pub race-failed :
    (c : Crypto) (e f : Event) (db : Ledger) (limit : ℕ)
    → IsChained c none db.rows
    → read_last db ≢ some (new_row c e (read_last db) db.next_id).event_hash
    → length db.rows + 2 ≤ limit
    → verify_chain c limit (race c e f db) ≡ failed (db.next_id + 1)
unfolding verify_chain insert_row read_last
race-failed c e f db limit h ne n =
    let first = new_row c e (last_hash none db.rows) db.next_id in
    let second = new_row c f (last_hash none db.rows) (db.next_id + 1) in
    let rows = (db.rows ++ first ∷ []) ++ second ∷ [] in
    rw
      (
        take_all limit rows (
            omega (
              arith,
              length-append {0} (db.rows ++ first ∷ []) (second ∷ []),
              length-append {0} db.rows (first ∷ []),
            )),
        walk-append c none (db.rows ++ first ∷ []) (second ∷ [])
            (IsChained-append c none db.rows e db.next_id h),
        last_hash-append none db.rows first,
        walk_stale c (some first.event_hash) second
            (λ q. ne (sym (prev_hash-new_row c f (last_hash none db.rows) (db.next_id + 1)) ∙ q)),
        sequence_id-new_row c f (last_hash none db.rows) (db.next_id + 1),
      )
      refl
