-- ===== src/Skills/Examples.antt =====
-- A signed manifest, and the theorems on signatures at it.
use aegis_capstone.Common.{
  String, ◌≡◌, refl, Bool, true, false, [], ◌∷◌, ◌==◌, eqb, if◌then◌else◌, length, eq_refl,
}
use aegis_capstone.Json.{text, flag}
use aegis_capstone.Json.Tree.{
  Fields, get, set, without, text_of, fields_of, is_truthy, field, leaf, no_fields, object,
}
use aegis_capstone.Skills.{
  verify, Bytes, Signing, is_placeholder, verify_with, with_signature, is_ed25519, sign_ed25519,
  sign_hmac, canonical_manifest_bytes, hmac_value, is_hmac,
}
use aegis_capstone.Skills.Registry.{
  Loaded, load_verified, load_found, load_verified-Loaded, get_skill, names_skill, is_unsigned,
  is_enabled_for, manifest_of, not_enabled,
}
use aegis_capstone.Skills.Signed.{verify-sign_ed25519}

-- JSON as the number of fields.
abbrev dumps : Fields → Bytes
dumps no_fields = []
dumps (field k t d) = 1 ∷ dumps d

abbrev starts : String → String → Bool
starts s t = s == "replace-with-signature"

abbrev signing : Signing
signing = record {
  skill_signing_key = "key";
  skill_public_key = "public";
  dumps = dumps;
  hmac = λ k b. if eqb (length b) 2 then "mac2" else "mac";
  ed25519_verifies = λ p s b. s == (if eqb (length b) 2 then "sig2" else "sig");
  ed25519_signs = λ p b. if eqb (length b) 2 then "sig2" else "sig";
  starts_with = starts;
}

abbrev manifest : Fields
manifest = field "skill_id" (leaf (text "summarise")) (
    field "role_enablement"
      (object (field "acme" (object (field "analyst" (leaf (flag true)) no_fields)) no_fields))
      no_fields)

abbrev signed_manifest : Fields
signed_manifest = with_signature "hmac-sha256" "mac2" manifest

-- A placeholder does not verify, nor does a signed manifest that got another field.
tampered :
    (verify signing (with_signature "hmac-sha256" "replace-with-signature" manifest) ≡ false)
    × (verify signing (set "owner" (leaf (text "eve")) signed_manifest) ≡ false)
unfolding verify verify_with with_signature set get text_of fields_of is_placeholder is_ed25519
    is_hmac hmac_value canonical_manifest_bytes without
tampered = (refl, refl)

loads :
    load_verified signing true "summarise" "acme" "analyst" (signed_manifest ∷ [])
    ≡ manifest_of signed_manifest
unfolding load_verified load_found get_skill names_skill is_unsigned is_enabled_for is_truthy verify
    verify_with with_signature set get text_of fields_of is_placeholder is_ed25519 is_hmac
    hmac_value canonical_manifest_bytes without
loads = refl

refused_role :
    load_verified signing true "summarise" "acme" "guest" (signed_manifest ∷ []) ≡ not_enabled
unfolding load_verified load_found get_skill names_skill is_unsigned is_enabled_for is_truthy verify
    verify_with with_signature set get text_of fields_of is_placeholder is_ed25519 is_hmac
    hmac_value canonical_manifest_bytes without
refused_role = refl

no_placeholder : is_placeholder signing (sign_hmac signing manifest) ≡ false
unfolding is_placeholder sign_hmac hmac_value canonical_manifest_bytes without
no_placeholder = refl

no_placeholder_ed25519 : is_placeholder signing (sign_ed25519 signing manifest "private") ≡ false
unfolding is_placeholder sign_ed25519 canonical_manifest_bytes without
no_placeholder_ed25519 = refl

verify-sign_ed25519_example :
    verify signing (with_signature "ed25519" (sign_ed25519 signing manifest "private") manifest)
    ≡ true
verify-sign_ed25519_example =
    verify-sign_ed25519 signing manifest "private"
      (λ b. eq_refl (if eqb (length b) 2 then "sig2" else "sig")) refl no_placeholder_ed25519

load_verified-Loaded_example : Loaded signing true "summarise" "acme" "analyst" signed_manifest
load_verified-Loaded_example =
    load_verified-Loaded signing true "summarise" "acme" "analyst" (signed_manifest ∷ [])
      signed_manifest loads
