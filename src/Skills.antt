-- ===== src/Skills.antt =====
-- Signed skill manifests: src/aegis_fabric/signing.py and src/aegis_fabric/skills.py. A manifest is an
-- object of JSON; canonical JSON, HMAC, Ed25519 and `str.startswith` are parameters, and so are the
-- files of the registry, as the manifests in the order of their sorted names.
pub mod Signed
pub mod Registry
mod Examples
use aegis_capstone.Common.{
  ◌<>◌, ℕ, zero, suc, ◌+◌, ◌-◌, ◌≤◌, ◌<◌, String, ◌≡◌, refl, sym, ap, ◌∙◌, ◌≢◌, ◌⊎◌, inl, inr, Bool,
  true, false, ◌&&◌, ◌||◌, not, Option, none, some, List, [], ◌∷◌, ◌++◌, map, arith, ◌==◌, eq_iff,
  ltb, leb, eqb, if◌then◌else◌, Bool-cases, Option-cases, or_else, is_some, length, is_empty, keep,
  any, All, contains,
}
use aegis_capstone.Audit.{Bytes}
use aegis_capstone.Json.{text}
use aegis_capstone.Json.Tree.{
  Fields, fields_of, set, get, object, without, field, text_of, leaf, no_fields,
}

-- The settings, and the libraries: JSON with sorted keys as bytes, the hexadecimal HMAC-SHA-256 of a
-- key, whether Ed25519 verifies a signature under a public key, the signature of a private key, and
-- `str.startswith`.
pub record Signing : Type 0 where
  pub skill_signing_key : String
  pub skill_public_key : String
  pub dumps : Fields → Bytes
  pub hmac : String → Bytes → String
  pub ed25519_verifies : String → String → Bytes → Bool
  pub ed25519_signs : String → Bytes → String
  pub starts_with : String → String → Bool

module _ (g : Signing) where
  -- `canonical_manifest_bytes`, the same in both modules.
  unfoldable pub canonical_manifest_bytes : Fields → Bytes
  canonical_manifest_bytes manifest = g.dumps (without "signature" manifest)

  -- `_hmac_value`
  unfoldable pub hmac_value : Fields → String
  hmac_value manifest = g.hmac g.skill_signing_key (canonical_manifest_bytes manifest)

  -- `_ed25519_verify`: without a public key nothing verifies.
  unfoldable pub ed25519_verify : Fields → String → Bool
  ed25519_verify manifest signature =
      if g.skill_public_key == ""
      then false
      else g.ed25519_verifies g.skill_public_key signature (canonical_manifest_bytes manifest)

  unfoldable pub is_ed25519 : String → Bool
  is_ed25519 algorithm = algorithm == "ed25519" || algorithm == "sigstore-ed25519"

  unfoldable pub is_hmac : String → Bool
  is_hmac algorithm = algorithm == "demo-hmac-sha256" || algorithm == "hmac-sha256"

  -- `not value or value.startswith("replace-with")`
  unfoldable pub is_placeholder : String → Bool
  is_placeholder value = value == "" || g.starts_with value "replace-with"

  -- `verify` from the algorithm and the value of the signature on.
  unfoldable pub verify_with : String → String → Fields → Bool
  verify_with algorithm value manifest =
      if is_placeholder value
      then false
      else if is_ed25519 algorithm
      then ed25519_verify manifest value
      else if is_hmac algorithm
      then value == hmac_value manifest
      else false

  -- `signing.verify`
  unfoldable pub verify : Fields → Bool
  verify manifest =
      let sig = fields_of (get "signature" manifest) in
      verify_with (text_of (get "algorithm" sig)) (text_of (get "value" sig)) manifest

  -- `sign_hmac`
  unfoldable pub sign_hmac : Fields → String
  sign_hmac manifest = hmac_value manifest

  -- `sign_ed25519`
  unfoldable pub sign_ed25519 : Fields → String → String
  sign_ed25519 manifest private_key =
      g.ed25519_signs private_key (canonical_manifest_bytes manifest)

-- The signature block that a signer writes into a manifest.
unfoldable pub with_signature : String → String → Fields → Fields
with_signature algorithm value manifest =
    set "signature"
      (object
        (field "algorithm" (leaf (text algorithm)) (field "value" (leaf (text value)) no_fields)))
      manifest
