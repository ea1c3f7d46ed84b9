-- ===== src/Skills/Registry.antt =====
-- The registry of skills, src/aegis_fabric/skills.py: who loads a manifest, and what has been checked.
use aegis_capstone.Common.{
  String, ◌≡◌, refl, ◌≢◌, inl, inr, Bool, true, false, ◌&&◌, not, Option, none, some, List, [], ◌∷◌,
  arith, ◌==◌, eq_iff, if◌then◌else◌, Bool-cases,
}
use aegis_capstone.Json.{text}
use aegis_capstone.Json.Tree.{Fields, get, text_of, fields_of, is_truthy, Tree, leaf}
use aegis_capstone.Skills.{
  verify, Signing, verify_with, ed25519_verify, is_placeholder, hmac_value, is_ed25519,
  canonical_manifest_bytes, is_hmac,
}

-- `data.get("skill_id") == skill_id`
unfoldable pub names_skill : String → Option Tree → Bool
names_skill skill_id (some (leaf (text s))) = s == skill_id
names_skill skill_id _ = false

-- `SkillRegistry.get` over the manifests in the order of their files; `none` is the KeyError.
unfoldable pub get_skill : String → List Fields → Option Fields
get_skill skill_id [] = none
get_skill skill_id (m ∷ ms) =
    if names_skill skill_id (get "skill_id" m) then some m else get_skill skill_id ms

-- `is_enabled_for`
unfoldable pub is_enabled_for : Fields → String → String → Bool
is_enabled_for manifest tenant_id role =
    is_truthy (get role (fields_of (get tenant_id (fields_of (get "role_enablement" manifest)))))

-- What loading gives: a manifest, or one of the errors.
pub data Loading : Type 0 where
  manifest_of : Fields → Loading
  key_error bad_signature not_enabled : Loading

module _ (g : Signing) (require_skill_signature : Bool) where
  -- `require_skill_signature and not verify_signature(manifest)`
  unfoldable pub is_unsigned : Fields → Bool
  is_unsigned manifest = require_skill_signature && not (verify g manifest)

  unfoldable pub verify_found : Option Fields → Loading
  verify_found none = key_error
  verify_found (some m) = if is_unsigned m then bad_signature else manifest_of m

  -- `SkillRegistry.verify`
  unfoldable pub verify_skill : String → List Fields → Loading
  verify_skill skill_id files = verify_found (get_skill skill_id files)

  unfoldable pub load_found : String → String → Option Fields → Loading
  load_found tenant_id role none = key_error
  load_found tenant_id role (some m) =
      if is_unsigned m
      then bad_signature
      else if not (is_enabled_for m tenant_id role)
      then not_enabled
      else manifest_of m

  -- `SkillRegistry.load_verified`
  unfoldable pub load_verified : String → String → String → List Fields → Loading
  load_verified skill_id tenant_id role files = load_found tenant_id role (get_skill skill_id files)

-- A signature that counts: an Ed25519 signature of the manifest without its block under the configured
-- key, or its HMAC under the signing key; never empty or a placeholder.
pub data Genuine (g : Signing) (algorithm value : String) (m : Fields) : Type 0 where
  by_ed25519 :
      is_placeholder g value ≡ false
      → is_ed25519 g algorithm ≡ true
      → g.skill_public_key ≢ ""
      → g.ed25519_verifies g.skill_public_key value (canonical_manifest_bytes g m) ≡ true
      → Genuine g algorithm value m
  by_hmac :
      is_placeholder g value ≡ false
      → is_hmac g algorithm ≡ true
      → value ≡ g.hmac g.skill_signing_key (canonical_manifest_bytes g m)
      → Genuine g algorithm value m

abbrev pub algorithm_of : Fields → String
algorithm_of m = text_of (get "algorithm" (fields_of (get "signature" m)))

abbrev pub value_of : Fields → String
value_of m = text_of (get "value" (fields_of (get "signature" m)))

verify_with-Genuine :
    (g : Signing) (a v : String) (m : Fields) → verify_with g a v m ≡ true → Genuine g a v m
unfolding verify_with ed25519_verify hmac_value
verify_with-Genuine g a v m h = elim (Bool-cases (is_placeholder g v)) [
  | inl p ↦ let z = rw p at h in cc
  | inr p ↦ elim (Bool-cases (is_ed25519 g a)) [
    | inl e ↦ elim (Bool-cases (g.skill_public_key == "")) [
      | inl k ↦ let z = rw (p, e, k) at h in cc
      | inr k ↦
          by_ed25519 p e (λ q. grind (arith, eq_iff g.skill_public_key "")) (rw (p, e, k) at h)
    ]
    | inr e ↦ elim (Bool-cases (is_hmac g a)) [
      | inl k ↦
          let z : (v == g.hmac g.skill_signing_key (canonical_manifest_bytes g m)) ≡ true =
            rw (p, e, k) at h in
          by_hmac p k
            (grind (arith, eq_iff v (g.hmac g.skill_signing_key (canonical_manifest_bytes g m))))
      | inr k ↦ let z = rw (p, e, k) at h in cc
    ]
  ]
]

-- What holds of a manifest that was loaded.
pub record Loaded (g : Signing) (required : Bool) (skill_id tenant_id role : String) (m : Fields)
    : Type 0 where
  pub named : names_skill skill_id (get "skill_id" m) ≡ true
  pub genuine : required ≡ true → Genuine g (algorithm_of m) (value_of m) m
  pub enabled : is_enabled_for m tenant_id role ≡ true

get_skill-named :
    (skill_id : String) (files : List Fields) (m : Fields)
    → get_skill skill_id files ≡ some m
    → names_skill skill_id (get "skill_id" m) ≡ true
unfolding get_skill
get_skill-named skill_id [] m h = cc
get_skill-named skill_id (f ∷ fs) m h =
    elim (Bool-cases (names_skill skill_id (get "skill_id" f))) [
      | inl e ↦ let z : some f ≡ some m = rw e at h in cc
      | inr e ↦ get_skill-named skill_id fs m (rw e at h)
    ]

load_found-Loaded :
    (g : Signing) (required : Bool) (skill_id tenant_id role : String) (o : Option Fields)
    (m : Fields)
    → ((f : Fields) → o ≡ some f → names_skill skill_id (get "skill_id" f) ≡ true)
    → load_found g required tenant_id role o ≡ manifest_of m
    → Loaded g required skill_id tenant_id role m
unfolding load_found is_unsigned verify
load_found-Loaded g required skill_id tenant_id role none m n h = cc
load_found-Loaded g required skill_id tenant_id role (some f) m n h =
    elim (Bool-cases (required && not (verify g f))) [
      | inl e ↦ let z = rw e at h in cc
      | inr e ↦ elim (Bool-cases (is_enabled_for f tenant_id role)) [
        | inl k ↦
            let q : manifest_of f ≡ manifest_of m = rw (e, k) at h in
            let q' : f ≡ m = cc in
            record {
              named = rw (← q') (n f refl);
              genuine = λ r.
                  rw (← q')
                    (verify_with-Genuine g (algorithm_of f) (value_of f) f (ground (arith, e, r)));
              enabled = rw (← q') k;
            }
        | inr k ↦ let z = rw (e, k) at h in cc
      ]
    ]

-- A manifest that `load_verified` returns has the skill id that was asked for, is enabled for the role
-- in the tenant, and, when signatures are required, has a genuine one: an Ed25519 signature under the
-- configured public key, or the HMAC under the signing key, of everything but the signature block.
pub load_verified-Loaded :
    (g : Signing) (required : Bool) (skill_id tenant_id role : String) (files : List Fields)
    (m : Fields)
    → load_verified g required skill_id tenant_id role files ≡ manifest_of m
    → Loaded g required skill_id tenant_id role m
unfolding load_verified
load_verified-Loaded g required skill_id tenant_id role files m h =
    load_found-Loaded g required skill_id tenant_id role (get_skill skill_id files) m
      (get_skill-named skill_id files) h
