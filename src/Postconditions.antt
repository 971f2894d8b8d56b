-- ===== src/Postconditions.antt =====
-- src/postconditions.js: the clauses of a postcondition, their checks and their evaluation on facts.
pub mod Meaning
use Prim.Native.Char.{code}
use consequence_rail.Base.{
  ℕ, suc, ◌+◌, Bool, true, false, not, ◌&&◌, ◌||◌, String, str_eq, Option, none, some, List, [],
  ◌∷◌, leb, ◌==◌, decided, is_some, every, any_of, if◌then◌else◌,
}
use consequence_rail.Json.{
  Json-discrete, ℤ, pos, negsuc, Json, null, bool, num, str, arr, obj, Items, nil, cons, own, array,
  object,
}
use consequence_rail.Canonical.{Runtime}
use consequence_rail.Errors.{Result, ok, err, rail_error, assert, ◌>>=◌, ◌>>◌}

pub data Operator : Type 0 where
  eq gte lte : Operator

abbrev pub operator_text : Operator → String
operator_text eq = "eq"
operator_text gte = "gte"
operator_text lte = "lte"

pub record Clause : Type 0 where
  pub path : String
  pub op : Operator
  pub value : Json

-- `{ op: "all", clauses }`
pub record Postcondition : Type 0 where
  pub clauses : List Clause

-- `a <= b` on numbers.
unfoldable pub leb_ℤ : ℤ → ℤ → Bool
leb_ℤ (pos a) (pos b) = leb a b
leb_ℤ (pos a) (negsuc b) = false
leb_ℤ (negsuc a) (pos b) = true
leb_ℤ (negsuc a) (negsuc b) = leb b a

-- `isFiniteBinary64`
abbrev pub is_number : Json → Bool
is_number (num n) = true
is_number _ = false

-- `isEqScalar`
abbrev pub is_eq_scalar : Json → Bool
is_eq_scalar (arr vs) = false
is_eq_scalar (obj fs) = false
is_eq_scalar _ = true

abbrev pub number_le : Json → Json → Bool
number_le (num a) (num b) = leb_ℤ a b
number_le _ _ = false

-- `OPERATORS`: an absent fact is `undefined`, which satisfies no operator. The expected value of
-- `eq` is a scalar, on which `===` is equality of JSON values.
unfoldable pub holds : Operator → Option Json → Json → Bool
unfolding leb_ℤ Json-discrete
holds op none expected = false
holds eq (some actual) expected = decided (Json-discrete actual expected)
holds gte (some actual) expected = number_le expected actual
holds lte (some actual) expected = number_le actual expected

abbrev prepend : String → List String → List String
prepend c [] = c ∷ []
prepend c (s ∷ ss) = (Prim.Native.String.◌++◌ c s) ∷ ss

-- `path.split(".")`
unfoldable pub split_path : String → List String
split_path String.[] = "" ∷ []
split_path (String.◌∷◌ c s) =
    let rest = split_path s in
    if code c == b'.' then "" ∷ rest else prepend (String.◌∷◌ c String.[]) rest

abbrev pub is_reserved_segment : String → Bool
is_reserved_segment s = str_eq s "__proto__" || str_eq s "constructor" || str_eq s "prototype"

module _ (rt : Runtime) where
  -- The own properties of an array: its indexes and `length`.
  unfoldable pub own_item : String → ℕ → Items → Option Json
  own_item k i nil = if str_eq k "length" then some (num (pos i)) else none
  own_item k i (cons v vs) =
      if str_eq k (rt.stringify_number (pos i)) then some v else own_item k (suc i) vs

  abbrev pub own_property : Json → String → Option Json
  own_property (obj fs) k = own k fs
  own_property (arr vs) k = own_item k 0 vs
  own_property _ k = none

  abbrev found_then : (Json → Option Json) → Option Json → Option Json
  found_then f none = none
  found_then f (some v) = f v

  -- `resolvePath`, on the segments of the path.
  unfoldable pub resolve_path : List String → Json → Option Json
  unfolding own_item own
  resolve_path [] current = some current
  resolve_path (part ∷ parts) current =
      found_then (resolve_path parts)
        (if is_reserved_segment part then none else own_property current part)

  -- `readPath(facts, clause.path)`
  unfoldable pub read_path : Json → Clause → Option Json
  unfolding resolve_path split_path
  read_path facts c = resolve_path (split_path c.path) facts

  -- `missingPostconditionPaths`: how many clauses lack their fact.
  unfoldable pub missing_paths : List Clause → Json → List Clause
  unfolding read_path
  missing_paths [] facts = []
  missing_paths (c ∷ cs) facts =
      let rest = missing_paths cs facts in if is_some (read_path facts c) then rest else c ∷ rest

  pub record Evaluation : Type 0 where
    pub clause : Clause
    pub actual : Option Json
    pub satisfied : Bool

  -- The checks on one clause, before its operator is applied.
  unfoldable pub check_clause : Clause → Result (Unit {0})
  unfolding split_path
  check_clause c = do
    assert
        (not (str_eq c.path "")
          && not (any_of (λ s. str_eq s "" || is_reserved_segment s) (split_path c.path)))
        "POSTCONDITION_INVALID"
    assert (elim c.op [ eq ↦ is_eq_scalar c.value | _ ↦ is_number c.value ]) "POSTCONDITION_INVALID"

  abbrev pub apply_clause : Json → Clause → Evaluation
  apply_clause facts c =
      let actual = read_path facts c in
      record { clause = c; actual = actual; satisfied = holds c.op actual c.value }

  -- `postcondition.clauses.map(...)`, which stops at the first clause that throws.
  unfoldable pub evaluate_clauses : Json → List Clause → Result (List Evaluation)
  unfolding check_clause read_path holds
  evaluate_clauses facts [] = ok []
  evaluate_clauses facts (c ∷ cs) = do
    check_clause c
    rest ← evaluate_clauses facts cs
    ok (apply_clause facts c ∷ rest)

  pub record Verdict : Type 0 where
    pub satisfied : Bool
    pub evaluations : List Evaluation

  abbrev pub is_satisfied : Evaluation → Bool
  is_satisfied e = e.satisfied

  abbrev has_clauses : List Clause → Bool
  has_clauses [] = false
  has_clauses (c ∷ cs) = true

  -- `evaluatePostcondition(postcondition, { facts })`
  unfoldable pub evaluate_postcondition : Postcondition → Json → Result Verdict
  unfolding evaluate_clauses
  evaluate_postcondition p facts = do
    assert (has_clauses p.clauses) "POSTCONDITION_INVALID"
    evaluations ← evaluate_clauses facts p.clauses
    ok (record { satisfied = every is_satisfied evaluations; evaluations = evaluations })
