-- ===== src/Signing.antt =====
-- src/signing.js: `signArtifact` and `verifyArtifact`. An artifact is its body, as the JSON that is
-- signed, beside its signature; node:crypto is a field of `Runtime`. The tests of an artifact's shape and
-- its size are in Artifact.
pub mod Artifact
pub mod RoundTrip
pub mod Signed
use consequence_rail.Base.{
  ℕ, Bool, true, false, not, ◌&&◌, ◌||◌, String, str_eq, Option, none, some, List, [], ◌∷◌, leb,
  ◌==◌, Dict, lookup, length, every,
}
use consequence_rail.Json.{Json, str, object}
use consequence_rail.Canonical.{Runtime, canonical_json, code_units}
use consequence_rail.Errors.{Result, err, rail_error, assert, ◌>>=◌, ◌>>◌}

-- The key material is opaque text here.
pub record Signer : Type 0 where
  pub kid : String
  pub private_key : String
  pub public_key : String
  pub public_key_pem : String

pub record Signature : Type 0 where
  pub algorithm : String
  pub key_id : String
  pub value : String

abbrev pub signature_json : Signature → Json
signature_json s =
    object (("algorithm", str s.algorithm) ∷ ("key_id", str s.key_id) ∷ ("value", str s.value) ∷ [])

-- A `Map` from key ids to public keys.
abbrev pub Keys : Type 0
Keys = Dict String

-- `[A-Za-z0-9_-]`
abbrev is_base64url_unit : ℕ → Bool
is_base64url_unit c =
    (leb b'A' c && leb c b'Z')
    || (leb b'a' c && leb c b'z')
    || (leb b'0' c && leb c b'9')
    || (c == b'_')
    || (c == b'-')

-- `/^[A-Za-z0-9_-]{n}$/.test(s)`
unfoldable pub is_base64url : ℕ → String → Bool
unfolding code_units
is_base64url n s = let us = code_units s in (length us == n) && every is_base64url_unit us

module _ (rt : Runtime) where
  unfoldable pub sign_artifact : Json → Signer → Signature
  sign_artifact body signer = record {
    algorithm = "Ed25519";
    key_id = signer.kid;
    value = rt.crypto_sign signer.private_key (canonical_json rt body);
  }

  -- `trustedKeys.get(signature.key_id)` and the signature under that key.
  unfoldable pub check_key : Json → Signature → Option String → Result (Unit {0})
  check_key body signature none = err (rail_error "UNTRUSTED_KEY")
  check_key body signature (some key) =
      assert (rt.crypto_verify key (canonical_json rt body) signature.value) "SIGNATURE_INVALID"

  -- The shape of the signature, its encoding, the trust in its key and the signature itself.
  unfoldable pub verify_artifact : Json → Signature → Keys → Result (Unit {0})
  unfolding is_base64url check_key
  verify_artifact body signature trusted_keys = do
    assert
        (str_eq signature.algorithm "Ed25519"
          && not (str_eq signature.key_id "")
          && is_base64url 86 signature.value)
        "SIGNATURE_INVALID"
    assert (str_eq (rt.recode_base64url signature.value) signature.value) "SIGNATURE_INVALID"
    check_key body signature (lookup signature.key_id trusted_keys)
