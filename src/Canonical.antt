-- ===== src/Canonical.antt =====
-- src/canonical.js: the copy with its limits, and canonical JSON text. What the language and the
-- runtime do (JSON.stringify of a leaf, SHA-256) is `Runtime`. Values are plain JSON trees, so the
-- checks for proxies, accessors, symbols and cycles have nothing to refuse.
pub mod Normal
pub mod Order
use Prim.Native.String.{◌++◌}
use Prim.Native.Char.{code}
use consequence_rail.Base.{
  ℕ, suc, ◌+◌, ◌-◌, Bool, true, false, ◌||◌, String, str_eq, Option, none, some, List, [], ◌∷◌, ltb,
  ◌==◌, if◌then◌else◌,
}
use Prim.Native.Nat.{◌/◌, ◌%◌}
use consequence_rail.Json.{
  ℤ, Json, null, bool, num, str, arr, obj, Items, nil, cons, Fields, end, field,
}

-- What canonical.js and signing.js take from JavaScript and node:crypto.
pub record Runtime : Type 0 where
  -- `JSON.stringify` of a string and of a number
  pub stringify_text : String → String
  pub stringify_number : ℤ → String
  -- SHA-256 of UTF-8 text as unpadded base64url
  pub sha256 : String → String
  -- Ed25519: the signature of a text under a private key, and its check under a public key
  pub crypto_sign : String → String → String
  pub crypto_verify : String → String → String → Bool
  -- `new Date(milliseconds).toISOString()`
  pub to_iso : ℕ → String
  -- `Buffer.from(s, "base64url").toString("base64url")`
  pub recode_base64url : String → String

abbrev pub max_depth : ℕ
max_depth = 64

abbrev pub max_nodes : ℕ
max_nodes = 100_000

abbrev pub max_string_units : ℕ
max_string_units = 4_194_304

-- The UTF-16 code units of a text.
unfoldable pub code_units : String → List ℕ
code_units String.[] = []
code_units (String.◌∷◌ c s) =
    let rest = code_units s in
    let n = code c in
    if ltb n 0x10000
    then n ∷ rest
    else (0xd800 + (n - 0x10000) / 0x400) ∷ (0xdc00 + (n - 0x10000) % 0x400) ∷ rest

abbrev unit_count : List ℕ → ℕ
unit_count [] = 0
unit_count (u ∷ us) = suc (unit_count us)

-- `value.length`
unfoldable pub string_units : String → ℕ
unfolding code_units
string_units s = unit_count (code_units s)

-- `left < right` on strings compares code units.
unfoldable pub units_before : List ℕ → List ℕ → Bool
units_before us [] = false
units_before [] (v ∷ vs) = true
units_before (u ∷ us) (v ∷ vs) = if u == v then units_before us vs else ltb u v

unfoldable pub key_before : String → String → Bool
unfolding units_before code_units
key_before s t = units_before (code_units s) (code_units t)

-- The running totals of `copyJson`.
pub record Budget : Type 0 where
  pub nodes : ℕ
  pub units : ℕ

abbrev pub no_budget_spent : Budget
no_budget_spent = record { nodes = 0; units = 0 }

abbrev spend_units : ℕ → Budget → Option Budget
spend_units n b =
    let total = b.units + n in
    if ltb max_string_units total then none else some (record b { units = total })

abbrev spend_node : ℕ → Budget → Option Budget
spend_node depth b =
    let total = b.nodes + 1 in
    if ltb max_depth depth || ltb max_nodes total then none else some (record b { nodes = total })

infixl 5 ◌>>=◌
abbrev ◌>>=◌ : Option Budget → (Budget → Option Budget) → Option Budget
none >>= f = none
some b >>= f = f b

abbrev is_reserved : String → Bool
is_reserved k = str_eq k "__proto__" || str_eq k "constructor" || str_eq k "prototype"

-- `Object.getOwnPropertyNames(value).length` against the node limit, and the reserved keys:
-- `objectEntries` checks both before any field is copied.
abbrev field_count : Fields → ℕ
field_count end = 0
field_count (field k v fs) = suc (field_count fs)

abbrev pub item_count : Items → ℕ
item_count nil = 0
item_count (cons v vs) = suc (item_count vs)

abbrev any_reserved : Fields → Bool
any_reserved end = false
any_reserved (field k v fs) = is_reserved k || any_reserved fs

-- `copyJson`: the copy is the value itself, so what is left is the budget, or `none` where the
-- source throws CANONICALIZATION_FAILED.
unfoldable mutual
  pub copy_json : Json → ℕ → Budget → Option Budget
  copy_json null depth b = spend_node depth b
  copy_json (bool x) depth b = spend_node depth b
  copy_json (num n) depth b = spend_node depth b
  copy_json (str s) depth b = spend_node depth b >>= spend_units (string_units s)
  copy_json (arr vs) depth b = spend_node depth b >>= λ b'.
      if ltb max_nodes (item_count vs) then none else copy_items vs (depth + 1) b'
  copy_json (obj fs) depth b = spend_node depth b >>= λ b'.
      if ltb max_nodes (field_count fs) || any_reserved fs
      then none
      else copy_fields fs (depth + 1) b'

  pub copy_items : Items → ℕ → Budget → Option Budget
  copy_items nil depth b = some b
  copy_items (cons v vs) depth b = copy_json v depth b >>= copy_items vs depth

  pub copy_fields : Fields → ℕ → Budget → Option Budget
  copy_fields end depth b = some b
  copy_fields (field k v fs) depth b =
      spend_units (string_units k) b >>= copy_json v depth >>= copy_fields fs depth

abbrev spent : Option Budget → Bool
spent none = false
spent (some b) = true

-- Whether `canonicalJson`, `digest` and `deepClone` accept the value.
unfoldable pub representable : Json → Bool
unfolding copy_json
representable v = spent (copy_json v 0 no_budget_spent)

-- `Object.keys(value).sort(compareCodeUnits)`, over fields whose values are written already.
abbrev pub Written : Type 0
Written = List (String × String)

unfoldable pub insert_key : String → String → Written → Written
unfolding key_before
insert_key k v [] = (k, v) ∷ []
insert_key k v ((j, w) ∷ ws) =
    if key_before k j then (k, v) ∷ (j, w) ∷ ws else (j, w) ∷ insert_key k v ws

module _ (rt : Runtime) where
  unfoldable pub join_fields : Written → String
  join_fields [] = ""
  join_fields ((k, v) ∷ []) = rt.stringify_text k ++ ":" ++ v
  join_fields ((k, v) ∷ w ∷ ws) = rt.stringify_text k ++ ":" ++ v ++ "," ++ join_fields (w ∷ ws)

  -- `writeCanonicalJson`
  unfoldable mutual
    pub write : Json → String
    write null = "null"
    write (bool true) = "true"
    write (bool false) = "false"
    write (num n) = rt.stringify_number n
    write (str s) = rt.stringify_text s
    write (arr vs) = "[" ++ write_items vs ++ "]"
    write (obj fs) = "{" ++ join_fields (write_fields fs) ++ "}"

    pub write_items : Items → String
    write_items nil = ""
    write_items (cons v nil) = write v
    write_items (cons v (cons w vs)) = write v ++ "," ++ write_items (cons w vs)

    pub write_fields : Fields → Written
    write_fields end = []
    write_fields (field k v fs) = insert_key k (write v) (write_fields fs)

  -- `canonicalJson`, of a value that `representable` accepts
  unfoldable pub canonical_json : Json → String
  unfolding write
  canonical_json v = write v

  -- `digest`, of a value that `representable` accepts
  unfoldable pub digest : Json → String
  unfolding canonical_json
  digest v = rt.sha256 (canonical_json v)
