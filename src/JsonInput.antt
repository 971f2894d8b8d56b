-- ===== src/JsonInput.antt =====
-- src/json-input.js: the refusal of JSON texts in which an object names a member twice. The parser and
-- the matches of the pattern are JavaScript's, so a text is here the tokens that were matched in it.
pub mod Unique
use consequence_rail.Base.{
  ℕ, ◌+◌, Bool, true, false, String, Option, some, none, List, [], ◌∷◌, ltb, length, str_eq, ◌||◌,
  if◌then◌else◌,
}
use consequence_rail.Errors.{Result, rail_error, foreign, ok, err, ◌>>=◌, ◌>>◌}
use consequence_rail.Canonical.{max_depth}
use consequence_rail.Json.{
  Json, null, bool, num, str, arr, obj, Items, nil, cons, Fields, end, field,
}

-- A match of the pattern: a string is a `name` where a colon follows it, with its escapes decoded, and
-- `quoted` elsewhere.
pub data Token : Type 0 where
  opens_object : Token
  opens_array : Token
  closes : Token
  name : String → Token
  quoted : Token

-- The names seen in an object that is open; an open array has none.
abbrev pub Frame : Type 0
Frame = Option (List String)

abbrev pub has : String → List String → Bool
has key [] = false
has key (k ∷ keys) = str_eq key k || has key keys

abbrev pub push : Frame → List Frame → Result (List Frame)
push frame stack =
    if ltb (max_depth + 1) (length (frame ∷ stack))
    then err (rail_error "CANONICALIZATION_FAILED")
    else ok (frame ∷ stack)

-- `stack.pop()`
abbrev pub pop : List Frame → List Frame
pop [] = []
pop (frame ∷ stack) = stack

-- Outside an object, `keys.has` is a TypeError.
abbrev pub add_name : String → List Frame → Result (List Frame)
add_name key [] = err foreign
add_name key (none ∷ stack) = err foreign
add_name key (some keys ∷ stack) =
    if has key keys then err (rail_error "JSON_DUPLICATE_KEY") else ok (some (key ∷ keys) ∷ stack)

abbrev pub read : Token → List Frame → Result (List Frame)
read opens_object stack = push (some []) stack
read opens_array stack = push none stack
read closes stack = ok (pop stack)
read (name key) stack = add_name key stack
read quoted stack = ok stack

abbrev pub scan : List Token → List Frame → Result (Unit {0})
scan [] stack = ok tt
scan (token ∷ tokens) stack = read token stack >>= scan tokens

-- `parseUniqueJson`, of the value that `JSON.parse` returned and the tokens of its text.
unfoldable pub parse_unique_json {ℓ} : {A : Type ℓ} → A → List Token → Result A
parse_unique_json value tokens = scan tokens [] >> ok value

-- The tokens of a JSON text, before the tokens of what follows it.
unfoldable mutual
  pub tokens : Json → List Token → List Token
  tokens null rest = rest
  tokens (bool b) rest = rest
  tokens (num n) rest = rest
  tokens (str s) rest = quoted ∷ rest
  tokens (arr vs) rest = opens_array ∷ item_tokens vs (closes ∷ rest)
  tokens (obj fs) rest = opens_object ∷ field_tokens fs (closes ∷ rest)

  pub item_tokens : Items → List Token → List Token
  item_tokens nil rest = rest
  item_tokens (cons v vs) rest = tokens v (item_tokens vs rest)

  pub field_tokens : Fields → List Token → List Token
  field_tokens end rest = rest
  field_tokens (field k v fs) rest = name k ∷ tokens v (field_tokens fs rest)
