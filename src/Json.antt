-- ===== src/Json.antt =====
-- JSON values as src/canonical.js sees them. Numbers are integers: a fraction is outside the model.
use native.Mathlib.Decide.{ℕ_discrete}
use consequence_rail.Base.{
  String-discrete, ℕ, Bool, String, str_eq, Option, none, some, List, [], ◌∷◌, if◌then◌else◌,
}

-- A JSON number, `negsuc n` being -(n + 1).
pub data ℤ : Type 0 where
  pos : ℕ → ℤ
  negsuc : ℕ → ℤ

mutual
  pub data Json : Type 0 where
    null : Json
    bool : Bool → Json
    num : ℤ → Json
    str : String → Json
    arr : Items → Json
    obj : Fields → Json

  pub data Items : Type 0 where
    nil : Items
    cons : Json → Items → Items

  pub data Fields : Type 0 where
    end : Fields
    field : String → Json → Fields → Fields

-- An object literal.
abbrev pub fields_of : List (String × Json) → Fields
fields_of [] = end
fields_of ((k, v) ∷ kvs) = field k v (fields_of kvs)

abbrev pub object : List (String × Json) → Json
object kvs = obj (fields_of kvs)

-- An array literal.
abbrev pub items_of : List Json → Items
items_of [] = nil
items_of (x ∷ xs) = cons x (items_of xs)

abbrev pub array : List Json → Json
array xs = arr (items_of xs)

abbrev pub nat : ℕ → Json
nat n = num (pos n)

-- `value ?? null` for a text.
abbrev pub text_or_null : Option String → Json
text_or_null none = null
text_or_null (some s) = str s

-- `Object.hasOwn(object, key)` with `object[key]`.
unfoldable pub own : String → Fields → Option Json
own k end = none
own k (field j v fs) = if str_eq j k then some v else own k fs

unfoldable pub Json-discrete : Discrete Json
unfolding String-discrete ℕ_discrete
Json-discrete = hlevel (ℕ_discrete, String-discrete)
