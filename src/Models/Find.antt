-- ===== src/Models/Find.antt =====
-- What `_find` of src/aegis_fabric/models.py finds.
use aegis_capstone.Common.{
  String, ◌≡◌, inl, inr, true, some, List, [], ◌∷◌, arith, Option-cases, is_some,
}
use aegis_capstone.Common.Dict.{Dict}
use aegis_capstone.Models.{
  Model, find_model, find_in, find, matches, Registry, Found, Provider, is_known, max_tier_of,
}

find_model-matches :
    (x : String) (ms : List Model) (m : Model) → find_model x ms ≡ some m → matches x m ≡ true
unfolding find_model
find_model-matches x [] m h = cc
find_model-matches x (n ∷ ms) m h = ground (arith, find_model-matches x ms m)

find_in-matches :
    (x : String) (ps : Dict Provider) (f : Found) → find_in x ps ≡ some f → matches x f.model ≡ true
unfolding find_in
find_in-matches x [] f h = cc
find_in-matches x ((id, p) ∷ ps) f h = elim (Option-cases (find_model x p.models)) [
  | inl e ↦ find_in-matches x ps f (rw e at h)
  | inr (m, e) ↦ ground (arith, find_model-matches x p.models m e)
]

-- What is found answers to the id that was asked for, by its own id or by an alias; a model is known
-- exactly when one is found, and its tier is shown exactly then.
pub find-matches :
    (raw : Registry) (x : String)
    → ((f : Found) → find raw x ≡ some f → matches x f.model ≡ true)
      × (is_some (max_tier_of raw x) ≡ is_known raw x)
unfolding find is_known max_tier_of
find-matches raw x = (find_in-matches x raw.providers, ground arith)
