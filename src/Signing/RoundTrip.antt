-- ===== src/Signing/RoundTrip.antt =====
-- `verifyArtifact` after `signArtifact`, under what node:crypto documents of one key pair.
use consequence_rail.Base.{◌≡◌, true, false, String, str_eq, some, lookup}
use consequence_rail.Json.{Json}
use consequence_rail.Canonical.{Runtime, canonical_json}
use consequence_rail.Errors.{ok}
use consequence_rail.Signing.{Signer, Keys, sign_artifact, verify_artifact, is_base64url}

module _ (rt : Runtime) where
  -- A signature under the private key is 86 characters of canonical base64url, and the public key
  -- accepts it. The verifier's map knows the key id.
  pub record IsTrusted (signer : Signer) (keys : Keys) : Type 0 where
    pub named : str_eq signer.kid "" ≡ false
    pub known : lookup signer.kid keys ≡ some signer.public_key
    pub shaped : (m : String) → is_base64url 86 (rt.crypto_sign signer.private_key m) ≡ true
    pub canonical :
        (m : String)
        → str_eq
            (rt.recode_base64url (rt.crypto_sign signer.private_key m))
            (rt.crypto_sign signer.private_key m)
          ≡ true
    pub accepted :
        (m : String)
        → rt.crypto_verify signer.public_key m (rt.crypto_sign signer.private_key m) ≡ true

  module _ {signer : Signer} {keys : Keys} (trust : IsTrusted signer keys) where
    -- The signature of a body under a trusted key pair passes the checks of verify_artifact.
    pub verify_artifact-sign_artifact :
        (body : Json) → verify_artifact rt body (sign_artifact rt body signer) keys ≡ ok tt
    unfolding verify_artifact sign_artifact
    verify_artifact-sign_artifact body =
        let m = canonical_json rt body in
        rw (trust.named, trust.known, trust.shaped m, trust.canonical m, trust.accepted m)
