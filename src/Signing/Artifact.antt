-- ===== src/Signing/Artifact.antt =====
-- src/signing.js: signArtifact and verifyArtifact on whole JSON values, with the tests of their shape and
-- the limits of `deepClone`. The map of trusted keys is a map here.
use consequence_rail.Base.{
  Bool, true, not, ◌&&◌, ◌||◌, String, str_eq, Option, none, some, if◌then◌else◌,
}
use consequence_rail.Json.{Json, str, obj, Fields, end, field, own}
use consequence_rail.Canonical.{Runtime, representable, digest}
use consequence_rail.Errors.{Result, ok, err, rail_error, assert, ◌>>◌}
use consequence_rail.Signing.{
  Signer, Signature, Keys, signature_json, sign_artifact, verify_artifact,
}

-- `without(object, ["signature"])`
unfoldable pub without_signature : Fields → Fields
without_signature end = end
without_signature (field k v fs) =
    let rest = without_signature fs in if str_eq k "signature" then rest else field k v rest

-- `{ ...unsigned, signature }`, where `unsigned` has no signature.
unfoldable pub with_signature : Fields → Signature → Fields
with_signature end s = field "signature" (signature_json s) end
with_signature (field k v fs) s = field k v (with_signature fs s)

-- The value returned by `verifyArtifact`.
pub record Checked : Type 0 where
  pub artifact_digest : String
  pub key_id : String

abbrev is_signature_field : String → Bool
is_signature_field k = str_eq k "algorithm" || (str_eq k "key_id" || str_eq k "value")

unfoldable pub has_signature_fields : Fields → Bool
has_signature_fields end = true
has_signature_fields (field k v fs) = is_signature_field k && has_signature_fields fs

abbrev pub three_texts : Option Json → Option Json → Option Json → Option Signature
three_texts (some (str a)) (some (str k)) (some (str v)) =
    some (record { algorithm = a; key_id = k; value = v })
three_texts _ _ _ = none

-- The signature of an artifact: an object with the three fields and no other.
unfoldable pub read_signature : Option Json → Option Signature
read_signature (some (obj fs)) =
    if has_signature_fields fs
    then three_texts (own "algorithm" fs) (own "key_id" fs) (own "value" fs)
    else none
read_signature _ = none

module _ (rt : Runtime) where
  -- `signArtifact(body, signer)`; the private key is text here, so it is present where it is not empty.
  unfoldable pub sign_value : Json → Signer → Result Json
  sign_value (obj fs) signer =
      let unsigned = without_signature fs in
      assert (not (str_eq signer.private_key "") && not (str_eq signer.kid "")) "SIGNING_INVALID"
      >> (assert (representable (obj unsigned)) "CANONICALIZATION_FAILED"
          >> ok (obj (with_signature unsigned (sign_artifact rt (obj unsigned) signer))))
  sign_value _ signer = err (rail_error "SIGNING_INVALID")

  abbrev pub verify_signed : Json → Fields → Option Signature → Keys → Result Checked
  verify_signed artifact fs none keys = err (rail_error "SIGNATURE_INVALID")
  verify_signed artifact fs (some s) keys =
      verify_artifact rt (obj (without_signature fs)) s keys
      >> ok (record { artifact_digest = digest rt artifact; key_id = s.key_id })

  -- `verifyArtifact(artifact, trustedKeys)`
  unfoldable pub verify_value : Json → Keys → Result Checked
  verify_value (obj fs) keys =
      assert (representable (obj fs)) "CANONICALIZATION_FAILED"
      >> verify_signed (obj fs) fs (read_signature (own "signature" fs)) keys
  verify_value value keys =
      assert (representable value) "CANONICALIZATION_FAILED" >> err (rail_error "SIGNATURE_INVALID")
