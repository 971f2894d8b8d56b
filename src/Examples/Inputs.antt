-- ===== src/Examples/Inputs.antt =====
-- Inputs: a JSON text in which an object names a member twice, one in which two objects share a name,
-- and a document of trusted keys.
use consequence_rail.Base.{String, some, lookup, insert, ℕ, ◌≡◌, refl, true, false, [], ◌∷◌}
use consequence_rail.Json.{Json, nat, null, object, array, str, own}
use consequence_rail.JsonInput.{parse_unique_json, tokens}
use consequence_rail.JsonInput.Unique.{returns, unique, shallow, parse_unique_json-returns}
use consequence_rail.Canonical.{code_units, string_units}
use consequence_rail.TrustConfig.{
  Platform, TrustedKeys, parse_trusted_keys, trusted_keys, assert_closed, is_valid_key_id,
  parse_public_key_pem,
}
use consequence_rail.TrustConfig.Sound.{IsTrustSet, parse_trusted_keys-IsTrustSet}
use consequence_rail.Examples.{runtime}

abbrev named_twice : Json
named_twice = object (("amount", nat 1) ∷ ("order", null) ∷ ("amount", nat 2) ∷ [])

abbrev nested : Json
nested = object (("amount", nat 1) ∷ ("order", object (("amount", nat 2) ∷ [])) ∷ [])

parse-nested : returns (parse_unique_json {A = ℕ} 7 (tokens nested [])) ≡ true
unfolding parse_unique_json tokens
parse-nested = refl

parse_unique_json-returns_example :
    returns (parse_unique_json {A = ℕ} 7 (tokens named_twice [])) ≡ false
unfolding unique shallow
parse_unique_json-returns_example = parse_unique_json-returns {A = ℕ} 7 named_twice

-- A platform whose keys are their texts.
abbrev platform : Platform String
platform = record {
  test = λ pattern. λ s. true;
  trim = λ s. s;
  create_public_key = λ s. some s;
  key_type = λ s. "public";
  asymmetric_key_type = λ s. "ed25519";
  export_pem = λ s. s;
}

abbrev trust_document : Json
trust_document = object (
    ("schema_version", str "consequence-rail/trusted-keys/v0.1")
    ∷ ("rail", array (object (("key_id", str "rail_1") ∷ ("public_key_pem", str "pem") ∷ []) ∷ []))
    ∷ [])

abbrev trusted : TrustedKeys String
trusted = trusted_keys runtime platform (("rail_1", "pem") ∷ []) [] []

parse_trusted_keys-IsTrustSet_example : IsTrustSet runtime platform trusted
unfolding parse_trusted_keys assert_closed own is_valid_key_id parse_public_key_pem code_units
    string_units lookup insert
parse_trusted_keys-IsTrustSet_example =
    parse_trusted_keys-IsTrustSet runtime platform trust_document trusted refl
