-- ===== src/RateLimit/Spec.antt =====
-- What the sliding window promises, without deques: a log of the requests let through, all keys
-- together and never shortened, in which the recent ones of a key are counted.
use aegis_capstone.Common.{
  ℕ, ◌≤◌, String, Bool, true, false, List, [], ◌∷◌, ◌++◌, ◌==◌, ltb, if◌then◌else◌, length,
}
use aegis_capstone.RateLimit.{Hit, is_stale}

-- The times of a key's requests in the log.
unfoldable pub times : String → List Hit → List ℕ
times key [] = []
times key (h ∷ log) = if h.key == key then h.at ∷ times key log else times key log

-- Those of at most sixty seconds ago.
unfoldable pub recent : ℕ → List ℕ → List ℕ
recent now [] = []
recent now (t ∷ ts) = if is_stale now t then recent now ts else t ∷ recent now ts

-- A request passes when its key has fewer recent ones than the limit.
unfoldable pub passes : ℕ → List Hit → Hit → Bool
passes per_minute log h = ltb (length (recent h.at (times h.key log))) per_minute

unfoldable pub logged : Bool → List Hit → Hit → List Hit
logged true log h = log ++ h ∷ []
logged false log h = log

unfoldable pub serve_log : ℕ → List Hit → List Hit → List (Hit × Bool)
serve_log per_minute log [] = []
serve_log per_minute log (h ∷ calls) =
    (h, passes per_minute log h)
    ∷ serve_log per_minute (logged (passes per_minute log h) log h) calls

-- The clock is monotonic: no request comes before `last` or before the request ahead of it.
unfoldable pub Ascends : ℕ → List Hit → Type 0
Ascends last [] = Unit
Ascends last (h ∷ calls) = (last ≤ h.at) × Ascends h.at calls
