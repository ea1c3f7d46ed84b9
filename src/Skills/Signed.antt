-- ===== src/Skills/Signed.antt =====
-- Signing and verifying: what a signer writes verifies, and what verifies was signed.
use aegis_capstone.Common.{String, ◌≡◌, refl, ap, true, false, ◌==◌, if◌then◌else◌, eq_refl}
use aegis_capstone.Json.Tree.{text_of, Fields, get, without-set, fields_of, get-set}
use aegis_capstone.Skills.{
  verify, Signing, canonical_manifest_bytes, sign_ed25519, sign_hmac, verify_with, is_ed25519,
  with_signature, Bytes, is_hmac, is_placeholder, ed25519_verify, hmac_value,
}

module _ (g : Signing) where
  canonical-with_signature :
      (a v : String) (m : Fields)
      → canonical_manifest_bytes g (with_signature a v m) ≡ canonical_manifest_bytes g m
  unfolding canonical_manifest_bytes with_signature
  canonical-with_signature a v m = ap g.dumps (without-set "signature" _ m)

  block-with_signature :
      (a v : String) (m : Fields)
      → (text_of (get "algorithm" (fields_of (get "signature" (with_signature a v m)))) ≡ a)
        × (text_of (get "value" (fields_of (get "signature" (with_signature a v m)))) ≡ v)
  unfolding with_signature get fields_of text_of
  block-with_signature a v m = rw (get-set "signature" _ m) (refl, refl)

  hmac_value-with_signature :
      (a v : String) (m : Fields) → hmac_value g (with_signature a v m) ≡ hmac_value g m
  unfolding hmac_value
  hmac_value-with_signature a v m = ap (g.hmac g.skill_signing_key) (canonical-with_signature a v m)

  -- Verification reads back the block that was written, and the manifest without it.
  verify-with_signature :
      (a v : String) (m : Fields)
      → verify g (with_signature a v m) ≡ (
          if is_placeholder g v
          then false
          else if is_ed25519 g a
          then (if g.skill_public_key == ""
              then false
              else g.ed25519_verifies g.skill_public_key v (canonical_manifest_bytes g m))
          else if is_hmac g a
          then v == hmac_value g m
          else false)
  unfolding verify verify_with ed25519_verify
  verify-with_signature a v m =
      let q = block-with_signature a v m in
      rw (q.0, q.1, canonical-with_signature a v m, hmac_value-with_signature a v m) refl

  -- A manifest that is signed with the signing key verifies, whatever block it had before: the
  -- hexadecimal code is neither empty nor a placeholder.
  pub verify-sign_hmac :
      (m : Fields)
      → is_placeholder g (sign_hmac g m) ≡ false
      → verify g (with_signature "hmac-sha256" (sign_hmac g m) m) ≡ true
  unfolding sign_hmac is_ed25519 is_hmac
  verify-sign_hmac m h =
      rw (verify-with_signature "hmac-sha256" (sign_hmac g m) m, h) (eq_refl (hmac_value g m))

  -- A manifest that is signed with a private key verifies under the configured public key, if that
  -- is the key of the pair and the signature's text is no placeholder.
  pub verify-sign_ed25519 :
      (m : Fields) (private_key : String)
      → ((b : Bytes)
          → g.ed25519_verifies g.skill_public_key (g.ed25519_signs private_key b) b ≡ true)
      → (g.skill_public_key == "") ≡ false
      → is_placeholder g (sign_ed25519 g m private_key) ≡ false
      → verify g (with_signature "ed25519" (sign_ed25519 g m private_key) m) ≡ true
  unfolding sign_ed25519 is_ed25519
  verify-sign_ed25519 m private_key pair key h =
      rw (verify-with_signature "ed25519" (sign_ed25519 g m private_key) m, h, key)
        (pair (canonical_manifest_bytes g m))
