-- ===== src/Signing/Signed.antt =====
-- `verifyArtifact` after `signArtifact`, on whole JSON values.
use consequence_rail.Base.{
  ◌≡◌, refl, sym, ap, subst, Bool, true, false, not, ◌&&◌, str_eq, Option, none, some, Bool-cases,
  inl, inr, if◌then◌else◌,
}
use consequence_rail.Json.{Json, null, bool, num, str, arr, obj, Fields, end, field, own}
use consequence_rail.Canonical.{Runtime, representable, digest}
use consequence_rail.Errors.{ok, assert, ◌>>◌, >>-eq-ok, ok_inj}
use consequence_rail.Signing.{Signer, Signature, Keys, signature_json, sign_artifact}
use consequence_rail.Signing.RoundTrip.{IsTrusted, verify_artifact-sign_artifact}
use consequence_rail.Signing.Artifact.{
  without_signature, with_signature, has_signature_fields, read_signature, Checked, sign_value,
  verify_value,
}

-- An object without a signature.
abbrev Unsigned : Fields → Type 0
Unsigned fs = own "signature" fs ≡ none

without_signature-Unsigned : (fs : Fields) → Unsigned (without_signature fs)
unfolding own without_signature
without_signature-Unsigned end = refl
without_signature-Unsigned (field k v fs) = elim (Bool-cases (str_eq k "signature")) [
  | inl here ↦ rw here (without_signature-Unsigned fs)
  | inr other ↦ rw (other, other) (without_signature-Unsigned fs)
]

absent_later :
    (b : Bool) (v : Json) (rest : Option Json)
    → (if b then some v else rest) ≡ none
    → (b ≡ false) × (rest ≡ none)
absent_later true v rest h = cc
absent_later false v rest h = (refl, h)

own-with_signature :
    (fs : Fields) (s : Signature)
    → Unsigned fs
    → own "signature" (with_signature fs s) ≡ some (signature_json s)
unfolding own with_signature
own-with_signature end s h = refl
own-with_signature (field k v fs) s h =
    let (other, later) = absent_later (str_eq k "signature") v (own "signature" fs) h in
    rw other (own-with_signature fs s later)

without_signature-with_signature :
    (fs : Fields) (s : Signature) → Unsigned fs → without_signature (with_signature fs s) ≡ fs
unfolding own with_signature without_signature
without_signature-with_signature end s h = refl
without_signature-with_signature (field k v fs) s h =
    let (other, later) = absent_later (str_eq k "signature") v (own "signature" fs) h in
    rw (other, without_signature-with_signature fs s later) refl

read_signature-signature_json : (s : Signature) → read_signature (some (signature_json s)) ≡ some s
unfolding read_signature has_signature_fields own
read_signature-signature_json s = refl

-- A value without its signature.
abbrev pub bare : Json → Json
bare (obj fs) = obj (without_signature fs)
bare value = value

key_id-sign_artifact :
    (rt : Runtime) (signer : Signer) (body : Json)
    → (sign_artifact rt body signer).key_id ≡ signer.kid
unfolding sign_artifact
key_id-sign_artifact rt signer body = refl

module _ (rt : Runtime) {signer : Signer} {keys : Keys} (trust : IsTrusted rt signer keys) where
  abbrev pub checked : Json → Checked
  checked artifact = record { artifact_digest = digest rt artifact; key_id = signer.kid }

  abbrev signed : Fields → Fields
  signed fs =
      let unsigned = without_signature fs in
      with_signature unsigned (sign_artifact rt (obj unsigned) signer)

  bare-signed : (fs : Fields) → without_signature (signed fs) ≡ without_signature fs
  bare-signed fs =
      without_signature-with_signature (without_signature fs)
        (sign_artifact rt (obj (without_signature fs)) signer) (without_signature-Unsigned fs)

  verify_value-signed :
      (fs : Fields)
      → representable (obj (signed fs)) ≡ true
      → verify_value rt (obj (signed fs)) keys ≡ ok (checked (obj (signed fs)))
  unfolding verify_value
  verify_value-signed fs sized =
      let unsigned = without_signature fs in
      let s = sign_artifact rt (obj unsigned) signer in
      rw
        (
          sized,
          own-with_signature unsigned s (without_signature-Unsigned fs),
          read_signature-signature_json s,
          bare-signed fs,
          verify_artifact-sign_artifact rt trust (obj unsigned),
        )
        (rw (key_id-sign_artifact rt signer (obj unsigned)) refl)

  -- Where `signArtifact` returns an artifact that is within the limits of `deepClone`, `verifyArtifact`
  -- accepts it under keys that have the signer's, with the artifact's digest and the signer's key id,
  -- and without its signature the artifact is the body without its own.
  pub verify_value-sign_value :
      (body artifact : Json)
      → sign_value rt body signer ≡ ok artifact
      → representable artifact ≡ true
      → (verify_value rt artifact keys ≡ ok (checked artifact)) × (bare artifact ≡ bare body)
  unfolding sign_value
  verify_value-sign_value null artifact h sized = cc
  verify_value-sign_value (bool b) artifact h sized = cc
  verify_value-sign_value (num n) artifact h sized = cc
  verify_value-sign_value (str s) artifact h sized = cc
  verify_value-sign_value (arr vs) artifact h sized = cc
  verify_value-sign_value (obj fs) artifact h sized =
      let named =
        assert (not (str_eq signer.private_key "") && not (str_eq signer.kid ""))
          "SIGNING_INVALID" in
      let limits = assert (representable (obj (without_signature fs))) "CANONICALIZATION_FAILED" in
      let (_, rest) = >>-eq-ok named (limits >> ok (obj (signed fs))) h in
      let made : obj (signed fs) ≡ artifact =
        ok_inj (>>-eq-ok limits (ok (obj (signed fs))) rest).1 in
      subst (λ x. (verify_value rt x keys ≡ ok (checked x)) × (bare x ≡ obj (without_signature fs)))
        made
        (
          verify_value-signed fs (subst (λ x. representable x ≡ true) (sym made) sized),
          ap obj (bare-signed fs),
        )
