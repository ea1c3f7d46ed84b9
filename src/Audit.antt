-- ===== src/Audit.antt =====
-- The audit ledger of src/aegis_fabric/audit.py. SHA-256, AES-GCM and UTF-8 are parameters; the table
-- `audit_events` is the list of its rows in the order of `sequence_id`.
pub mod Chain
pub mod Tamper
pub mod Race
pub mod Query
mod Examples
use aegis_capstone.Common.{
  ℕ, zero, suc, ◌+◌, ◌-◌, ◌≤◌, ◌<◌, String, ◌≡◌, refl, sym, ap, ◌∙◌, ◌≢◌, ◌⊎◌, inl, inr, Bool, true,
  false, ◌&&◌, ◌||◌, not, Option, none, some, List, [], ◌∷◌, ◌++◌, map, arith, ◌==◌, eq_iff, ltb,
  leb, eqb, if◌then◌else◌, Bool-cases, Option-cases, or_else, is_some, length, is_empty, keep, any,
  All, contains, take,
}

abbrev pub Bytes : Type 0
Bytes = List ℕ

-- `hashlib.sha256(x).hexdigest()`, `str.encode`, and `AESGCM(_audit_key()).encrypt(nonce, data, aad)`.
pub record Crypto : Type 0 where
  pub digest : Bytes → Bytes
  pub encode : String → Bytes
  pub encrypt : Bytes → Bytes → Bytes → Bytes

-- The columns of `audit_events`; times are ticks of the database clock.
pub record Row : Type 0 where
  pub sequence_id : ℕ
  pub trace_id : String
  pub tenant_id : String
  pub subject : String
  pub action : String
  pub resource : String
  pub policy_version : String
  pub values_version : String
  pub decision : String
  pub reason : Option String
  pub ciphertext : Bytes
  pub nonce : Bytes
  pub aad : Bytes
  pub event_hash : Bytes
  pub prev_hash : Option Bytes
  pub created_at : ℕ

-- The arguments of `append_event`, with the payload as JSON bytes, the random nonce and the time.
pub record Event : Type 0 where
  pub trace_id : String
  pub tenant_id : String
  pub subject : String
  pub action : String
  pub resource : String
  pub policy_version : String
  pub values_version : String
  pub decision : String
  pub reason : Option String
  pub plaintext : Bytes
  pub nonce : Bytes
  pub now : ℕ

-- The table and the next value of its sequence.
pub record Ledger : Type 0 where
  pub next_id : ℕ
  pub rows : List Row

abbrev pub empty : Ledger
empty = record { next_id = 1; rows = [] }

-- `prev_hash or "GENESIS"`, as bytes.
abbrev pub genesis : Bytes
genesis = 71 ∷ 69 ∷ 78 ∷ 69 ∷ 83 ∷ 73 ∷ 83 ∷ []

abbrev pub link : Option Bytes → Bytes
link none = genesis
link (some []) = genesis
link (some (b ∷ bs)) = b ∷ bs

-- The `event_hash` of the row with the highest `sequence_id`, over what was read before it.
unfoldable pub last_hash : Option Bytes → List Row → Option Bytes
last_hash prev [] = prev
last_hash prev (r ∷ rs) = last_hash (some r.event_hash) rs

-- `append_event` is a read of the last hash and an insert; another session may write in between.
unfoldable pub read_last : Ledger → Option Bytes
read_last db = last_hash none db.rows

abbrev pub covered : Row → Bytes
covered r = r.aad ++ r.ciphertext ++ r.nonce

module _ (c : Crypto) where
  aad_of : Event → Bytes
  aad_of e =
      c.encode e.trace_id
      ++ 58
        ∷ (c.encode e.tenant_id
            ++ 58 ∷ (c.encode e.subject ++ 58 ∷ (c.encode e.action ++ 58 ∷ c.encode e.resource)))

  abbrev pub chain_hash : Option Bytes → Bytes → Bytes
  chain_hash prev body = c.digest (link prev ++ body)

  -- The row that `append_event` inserts when it has read `prev` as the last hash.
  unfoldable pub new_row : Event → Option Bytes → ℕ → Row
  unfolding aad_of
  new_row e prev sequence_id =
      let ciphertext = c.encrypt e.nonce e.plaintext (aad_of e) in
      record {
        sequence_id = sequence_id;
        trace_id = e.trace_id;
        tenant_id = e.tenant_id;
        subject = e.subject;
        action = e.action;
        resource = e.resource;
        policy_version = e.policy_version;
        values_version = e.values_version;
        decision = e.decision;
        reason = e.reason;
        ciphertext = ciphertext;
        nonce = e.nonce;
        aad = aad_of e;
        event_hash = chain_hash prev (aad_of e ++ ciphertext ++ e.nonce);
        prev_hash = prev;
        created_at = e.now;
      }

  unfoldable pub insert_row : Event → Option Bytes → Ledger → Ledger
  insert_row e prev db = record {
    next_id = db.next_id + 1;
    rows = db.rows ++ new_row e prev db.next_id ∷ [];
  }

  unfoldable pub append_event : Event → Ledger → Ledger
  unfolding read_last insert_row
  append_event e db = insert_row e (read_last db) db

  unfoldable pub append_all : List Event → Ledger → Ledger
  append_all [] db = db
  append_all (e ∷ es) db = append_all es (append_event e db)

-- The reports of `verify_chain`: rows verified, rows in the table, whether the limit cut rows off,
-- and the last hash; or the row that fails.
pub data Report : Type 0 where
  intact : ℕ → ℕ → Bool → Option Bytes → Report
  failed : ℕ → Report

unfoldable pub same_bytes : Bytes → Bytes → Bool
same_bytes [] [] = true
same_bytes [] (y ∷ ys) = false
same_bytes (x ∷ xs) [] = false
same_bytes (x ∷ xs) (y ∷ ys) = eqb x y && same_bytes xs ys

unfoldable pub same_link : Option Bytes → Option Bytes → Bool
unfolding same_bytes
same_link none none = true
same_link none (some y) = false
same_link (some x) none = false
same_link (some x) (some y) = same_bytes x y

-- How the loop over the rows ends: with the last hash, or at a row.
pub data Walk : Type 0 where
  reached : Option Bytes → Walk
  stopped : ℕ → Walk

module _ (c : Crypto) where
  unfoldable pub row_ok : Option Bytes → Row → Bool
  row_ok prev r =
      same_bytes (chain_hash c prev (covered r)) r.event_hash && same_link r.prev_hash prev

  unfoldable pub walk : Option Bytes → List Row → Walk
  walk prev [] = reached prev
  walk prev (r ∷ rs) =
      let rest = walk (some r.event_hash) rs in
      if row_ok prev r then rest else stopped r.sequence_id

  abbrev report : List Row → ℕ → Walk → Report
  report rows total (stopped sequence_id) = failed sequence_id
  report rows total (reached prev) = intact (length rows) total (ltb (length rows) total) prev

  -- `max_rows or settings.audit_verify_max_rows` is the limit.
  unfoldable pub verify_chain : ℕ → Ledger → Report
  verify_chain limit db =
      let rows = take limit db.rows in report rows (length db.rows) (walk none rows)
