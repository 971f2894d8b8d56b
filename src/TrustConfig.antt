-- ===== src/TrustConfig.antt =====
-- src/trust-config.js: the public keys that a verifier accepts, read from a JSON document. A key object
-- of node:crypto is a value of a type that is a parameter, and `Platform` is what is asked of it.
pub mod Sound
use consequence_rail.Base.{
  ℕ, ◌+◌, Bool, true, false, not, ◌&&◌, ◌||◌, String, Option, some, none, List, [], ◌∷◌, Dict,
  insert, contains, ltb, leb, length, str_eq, any_of, if◌then◌else◌,
}
use consequence_rail.Errors.{Result, rail_error, ok, err, assert, ◌>>=◌, ◌>>◌}
use consequence_rail.Canonical.{Runtime, code_units, string_units, item_count, key_before, digest}
use consequence_rail.Json.{
  Json, str, arr, obj, Items, nil, cons, Fields, end, field, own, object, array,
}

-- What src/signing.js takes from JavaScript and node:crypto to read a key. `test` is
-- `RegExp.prototype.test`, of the pattern's text; `create_public_key` is none where it throws.
pub record Platform (K : Type 0) : Type 0 where
  pub test : String → String → Bool
  pub trim : String → String
  pub create_public_key : String → Option K
  pub key_type : K → String
  pub asymmetric_key_type : K → String
  pub export_pem : K → String

-- CONTROL_CHARACTER
abbrev is_control : ℕ → Bool
is_control u = ltb u 0x20 || (leb 0x7f u && leb u 0x9f)

-- `isValidKeyId` of a string
unfoldable pub is_valid_key_id : String → Bool
unfolding string_units code_units
is_valid_key_id s = ltb 0 (string_units s) && not (any_of is_control (code_units s))

abbrev max_pem_length : ℕ
max_pem_length = 4096

abbrev public_key_pem_pattern : String
public_key_pem_pattern =
    "^\\s*-----BEGIN PUBLIC KEY-----\\r?\\n[A-Za-z0-9+/=\\r\\n]+-----END PUBLIC KEY-----\\s*$"

abbrev pub max_keys_per_role : ℕ
max_keys_per_role = 32

abbrev invalid {ℓ} : {A : Type ℓ} → Result A
invalid = err (rail_error "TRUST_CONFIG_INVALID")

abbrev pub require_valid : Bool → Result (Unit {0})
require_valid b = assert b "TRUST_CONFIG_INVALID"

abbrev has_only : List String → Fields → Bool
has_only names end = true
has_only names (field k v fs) = any_of (str_eq k) names && has_only names fs

-- `assertClosed`, with the fields of the object.
unfoldable pub assert_closed : List String → Json → Result Fields
assert_closed names (obj fs) = require_valid (has_only names fs) >> ok fs
assert_closed names value = invalid

abbrev pub document_fields : List String
document_fields = "schema_version" ∷ "rail" ∷ "connector" ∷ "recovery" ∷ []

abbrev pub entry_fields : List String
entry_fields = "key_id" ∷ "public_key_pem" ∷ []

abbrev pub is_version : Option Json → Bool
is_version (some (str s)) = str_eq s "consequence-rail/trusted-keys/v0.1"
is_version value = false

abbrev pub entries_of : Option Json → Result Items
entries_of none = ok nil
entries_of (some (arr es)) = ok es
entries_of (some value) = invalid

pub record TrustedKeys (K : Type 0) : Type 0 where
  pub rail : Dict K
  pub connector : Dict K
  pub recovery : Dict K
  pub trust_config_digest : String

module _ {K : Type 0} (rt : Runtime) (platform : Platform K) where
  abbrev pub is_ed25519 : K → Bool
  is_ed25519 k =
      str_eq (platform.key_type k) "public" && str_eq (platform.asymmetric_key_type k) "ed25519"

  abbrev pub checked_key : String → Option K → Result K
  checked_key code none = err (rail_error code)
  checked_key code (some k) = assert (is_ed25519 k) code >> ok k

  -- `parsePublicKeyPem`
  unfoldable pub parse_public_key_pem : Option Json → String → Result K
  parse_public_key_pem (some (str s)) code = checked_key code (
      if leb (string_units s) max_pem_length && platform.test public_key_pem_pattern s
      then platform.create_public_key (platform.trim s)
      else none)
  parse_public_key_pem value code = err (rail_error code)

  abbrev pub add_key : Option Json → Option Json → Dict K → Result (Dict K)
  add_key (some (str key_id)) pem keys =
      require_valid (is_valid_key_id key_id)
      >> (require_valid (not (contains key_id keys))
          >> (parse_public_key_pem pem "TRUST_CONFIG_INVALID" >>= λ k. ok (insert key_id k keys)))
  add_key key_id pem keys = invalid

  abbrev pub add_entry : Json → Dict K → Result (Dict K)
  add_entry entry keys = assert_closed entry_fields entry >>= λ fs.
      add_key (own "key_id" fs) (own "public_key_pem" fs) keys

  abbrev pub add_entries : Items → Dict K → Result (Dict K)
  add_entries nil keys = ok keys
  add_entries (cons entry entries) keys = add_entry entry keys >>= add_entries entries

  abbrev pub read_role : String → Fields → Result (Dict K)
  read_role role fs = entries_of (own role fs) >>= λ entries.
      require_valid (leb (item_count entries) max_keys_per_role) >> add_entries entries []

  -- The rows of a role, which have distinct ids, by ascending id.
  abbrev insert_row : String × K → Dict K → Dict K
  insert_row row [] = row ∷ []
  insert_row row (other ∷ rows) =
      let rest = insert_row row rows in
      if key_before other.0 row.0 then other ∷ rest else row ∷ other ∷ rows

  abbrev sort_rows : Dict K → Dict K
  sort_rows [] = []
  sort_rows (row ∷ rows) = insert_row row (sort_rows rows)

  abbrev row_texts : Dict K → List Json
  row_texts [] = []
  row_texts ((key_id, k) ∷ rows) =
      object (("key_id", str key_id) ∷ ("public_key_pem", str (platform.export_pem k)) ∷ [])
      ∷ row_texts rows

  abbrev normalized : Dict K → Dict K → Dict K → Json
  normalized rail connector recovery = object (
      ("schema_version", str "consequence-rail/trusted-keys/v0.1")
      ∷ ("rail", array (row_texts (sort_rows rail)))
      ∷ ("connector", array (row_texts (sort_rows connector)))
      ∷ ("recovery", array (row_texts (sort_rows recovery)))
      ∷ [])

  abbrev pub trusted_keys : Dict K → Dict K → Dict K → TrustedKeys K
  trusted_keys rail connector recovery = record {
    rail = rail;
    connector = connector;
    recovery = recovery;
    trust_config_digest = digest rt (normalized rail connector recovery);
  }

  abbrev pub total_keys : Dict K → Dict K → Dict K → ℕ
  total_keys rail connector recovery = length rail + length connector + length recovery

  -- `parseTrustedKeys`
  unfoldable pub parse_trusted_keys : Json → Result (TrustedKeys K)
  parse_trusted_keys value = assert_closed document_fields value >>= λ fs.
      require_valid (is_version (own "schema_version" fs))
      >> (read_role "rail" fs >>= λ rail. read_role "connector" fs >>= λ connector.
          read_role "recovery" fs >>= λ recovery.
          require_valid (ltb 0 (total_keys rail connector recovery))
          >> ok (trusted_keys rail connector recovery))
