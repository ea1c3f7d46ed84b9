-- ===== src/Json/Update.antt =====
-- `dict.update`, and when two dicts are the same.
use aegis_capstone.Common.{String, ◌≡◌, refl, true, none, [], ◌∷◌, arith, eq_iff, if◌then◌else◌}
use aegis_capstone.Common.Dict.{Dict, lookup, insert, keys, has_key, lookup-insert}

-- No key stands twice, as in every Python dict.
abbrev pub HasUniqueKeys {ℓ} : {V : Type ℓ} → Dict V → Type ℓ
HasUniqueKeys [] = Unit
HasUniqueKeys ((k, v) ∷ d) = (lookup k d ≡ none) × HasUniqueKeys d

module _ {ℓ} {V : Type ℓ} where
  -- `d.update(e)`
  abbrev pub update : Dict V → Dict V → Dict V
  update d [] = d
  update d ((k, v) ∷ e) = update (insert k v d) e

  -- What an update leaves under a key: the new value, or the old one where there is no new one.
  pub lookup-update :
      (j : String) (d e : Dict V)
      → HasUniqueKeys e
      → lookup j (update d e) ≡ (if has_key j e then lookup j e else lookup j d)
  lookup-update j d [] h = refl
  lookup-update j d ((k, v) ∷ e) h =
      ground (arith, lookup-update j (insert k v d) e h.1, lookup-insert k j v d, eq_iff k j)

  -- A key that is there already moves no key and adds none.
  pub keys-insert_old :
      (k : String) (v : V) (d : Dict V) → has_key k d ≡ true → keys (insert k v d) ≡ keys d
  keys-insert_old k v [] h = ground arith
  keys-insert_old k v ((j, w) ∷ d) h = ground (arith, keys-insert_old k v d)
