-- ===== src/JsonInput/Unique.antt =====
-- Which texts src/json-input.js accepts.
use consequence_rail.Base.{
  str_eq_sym, ℕ, suc, ◌≡◌, refl, arith, Bool, true, false, not, ◌&&◌, ◌||◌, String, some, none,
  List, [], ◌∷◌, leb, length, str_eq, Bool-cases, inl, inr,
}
use consequence_rail.Errors.{Result, ok, err, rail_error, ◌>>◌}
use consequence_rail.Canonical.{max_depth}
use consequence_rail.Json.{
  Json, null, bool, num, str, arr, obj, Items, nil, cons, Fields, end, field,
}
use consequence_rail.JsonInput.{
  Token, closes, Frame, has, push, scan, parse_unique_json, tokens, item_tokens, field_tokens,
}

abbrev names : Fields → List String
names end = []
names (field k v fs) = k ∷ names fs

abbrev distinct : List String → Bool
distinct [] = true
distinct (k ∷ ks) = not (has k ks) && distinct ks

-- No object of the value names a member twice.
unfoldable mutual
  pub unique : Json → Bool
  unique null = true
  unique (bool b) = true
  unique (num n) = true
  unique (str s) = true
  unique (arr vs) = unique_items vs
  unique (obj fs) = distinct (names fs) && unique_fields fs

  unique_items : Items → Bool
  unique_items nil = true
  unique_items (cons v vs) = unique v && unique_items vs

  unique_fields : Fields → Bool
  unique_fields end = true
  unique_fields (field k v fs) = unique v && unique_fields fs

-- No array or object of the value lies deeper than the limit, the value being this deep.
unfoldable mutual
  pub shallow : ℕ → Json → Bool
  shallow depth null = true
  shallow depth (bool b) = true
  shallow depth (num n) = true
  shallow depth (str s) = true
  shallow depth (arr vs) = leb depth max_depth && shallow_items (suc depth) vs
  shallow depth (obj fs) = leb depth max_depth && shallow_fields (suc depth) fs

  shallow_items : ℕ → Items → Bool
  shallow_items depth nil = true
  shallow_items depth (cons v vs) = shallow depth v && shallow_items depth vs

  shallow_fields : ℕ → Fields → Bool
  shallow_fields depth end = true
  shallow_fields depth (field k v fs) = shallow depth v && shallow_fields depth fs

abbrev pub returns {ℓ} : {A : Type ℓ} → Result A → Bool
returns (ok value) = true
returns (err thrown) = false

abbrev fresh : List String → List String → Bool
fresh seen [] = true
fresh seen (k ∷ ks) = not (has k seen) && fresh seen ks

swap_tests :
    (same seen later rest : Bool)
    → (not (same || seen) && (not later && rest)) ≡ (not (same || later) && (not seen && rest))
swap_tests true seen later rest = refl
swap_tests false true true rest = refl
swap_tests false true false rest = refl
swap_tests false false later rest = refl

fresh_cons :
    (k : String) (seen ks : List String) → fresh (k ∷ seen) ks ≡ (not (has k ks) && fresh seen ks)
fresh_cons k seen [] = refl
fresh_cons k seen (j ∷ ks) =
    rw (fresh_cons k seen ks, str_eq_sym j k)
      (swap_tests (str_eq k j) (has j seen) (has k ks) (fresh seen ks))

push-within :
    (frame : Frame) (stack : List Frame)
    → leb (length stack) max_depth ≡ true
    → push frame stack ≡ ok (frame ∷ stack)
push-within frame stack h = ground arith

push-beyond :
    (frame : Frame) (stack : List Frame)
    → leb (length stack) max_depth ≡ false
    → push frame stack ≡ err (rail_error "CANONICALIZATION_FAILED")
push-beyond frame stack h = ground arith

-- The tests of a member and of those after it, in the two orders.
regroup :
    (depth values depth' values' later earlier names rest : Bool)
    → ((depth && values) && (((depth' && values') && ((not later && earlier) && names)) && rest))
      ≡ ((((depth && depth') && (values && values')) && (earlier && (not later && names))) && rest)
regroup false values depth' values' later earlier names rest = refl
regroup true false true values' later earlier names rest = refl
regroup true false false values' later earlier names rest = refl
regroup true true false values' later earlier names rest = refl
regroup true true true false later earlier names rest = refl
regroup true true true true true true names rest = refl
regroup true true true true true false names rest = refl
regroup true true true true false true names rest = refl
regroup true true true true false false names rest = refl

regroup_items :
    (depth values depth' values' rest : Bool)
    → ((depth && values) && ((depth' && values') && rest))
      ≡ (((depth && depth') && (values && values')) && rest)
regroup_items false values depth' values' rest = refl
regroup_items true false true values' rest = refl
regroup_items true false false values' rest = refl
regroup_items true true depth' values' rest = refl

regroup_names :
    (depth values names rest : Bool)
    → (((depth && values) && names) && rest) ≡ ((depth && (names && values)) && rest)
regroup_names false values names rest = refl
regroup_names true true true rest = refl
regroup_names true true false rest = refl
regroup_names true false true rest = refl
regroup_names true false false rest = refl

refused : (tests rest : Bool) → false ≡ ((tests && false) && rest)
refused true rest = refl
refused false rest = refl

fresh_nil : (ks : List String) → fresh [] ks ≡ true
fresh_nil [] = refl
fresh_nil (k ∷ ks) = fresh_nil ks

-- What the rest of a scan returns after these tests.
abbrev scanned : Json → List Token → List Frame → Bool
scanned v rest stack = (shallow (length stack) v && unique v) && returns (scan rest stack)

abbrev scanned_items : Items → List Token → Frame → List Frame → Bool
scanned_items vs rest frame stack =
    (shallow_items (length (frame ∷ stack)) vs && unique_items vs)
    && returns (scan rest (frame ∷ stack))

abbrev scanned_fields : Fields → List Token → List String → List Frame → Bool
scanned_fields fs rest seen stack =
    ((shallow_fields (length (some seen ∷ stack)) fs && unique_fields fs)
      && (fresh seen (names fs) && distinct (names fs)))
    && returns (scan rest stack)

mutual
  unfolding tokens shallow unique

  scan-tokens :
      (v : Json) (rest : List Token) (stack : List Frame)
      → returns (scan (tokens v rest) stack) ≡ scanned v rest stack
  scan-tokens null rest stack = refl
  scan-tokens (bool b) rest stack = refl
  scan-tokens (num n) rest stack = refl
  scan-tokens (str s) rest stack = refl
  scan-tokens (arr vs) rest stack = elim (Bool-cases (leb (length stack) max_depth)) [
    | inl within ↦
        rw (push-within none stack within, within) (scan-item_tokens vs (closes ∷ rest) none stack)
    | inr beyond ↦ rw (push-beyond none stack beyond, beyond) refl
  ]
  scan-tokens (obj fs) rest stack = elim (Bool-cases (leb (length stack) max_depth)) [
    | inl within ↦
        rw
          (
            push-within (some []) stack within,
            within,
            scan-field_tokens fs rest [] stack,
            fresh_nil (names fs),
          )
          (regroup_names (shallow_fields (suc (length stack)) fs) (unique_fields fs)
            (distinct (names fs)) (returns (scan rest stack)))
    | inr beyond ↦ rw (push-beyond (some []) stack beyond, beyond) refl
  ]

  scan-item_tokens :
      (vs : Items) (rest : List Token) (frame : Frame) (stack : List Frame)
      → returns (scan (item_tokens vs rest) (frame ∷ stack)) ≡ scanned_items vs rest frame stack
  scan-item_tokens nil rest frame stack = refl
  scan-item_tokens (cons v vs) rest frame stack =
      rw (scan-tokens v (item_tokens vs rest) (frame ∷ stack), scan-item_tokens vs rest frame stack)
        (regroup_items (shallow (suc (length stack)) v) (unique v)
          (shallow_items (suc (length stack)) vs) (unique_items vs)
          (returns (scan rest (frame ∷ stack))))

  scan-field_tokens :
      (fs : Fields) (rest : List Token) (seen : List String) (stack : List Frame)
      → returns (scan (field_tokens fs (closes ∷ rest)) (some seen ∷ stack))
        ≡ scanned_fields fs rest seen stack
  scan-field_tokens end rest seen stack = refl
  scan-field_tokens (field k v fs) rest seen stack = elim (Bool-cases (has k seen)) [
    | inl again ↦ rw again (
        refused (shallow_fields (suc (length stack)) (field k v fs) && unique_fields (field k v fs))
          (returns (scan rest stack)))
    | inr first ↦
        rw
          (
            first,
            scan-tokens v (field_tokens fs (closes ∷ rest)) (some (k ∷ seen) ∷ stack),
            scan-field_tokens fs rest (k ∷ seen) stack,
            fresh_cons k seen (names fs),
          )
          (regroup (shallow (suc (length stack)) v) (unique v)
            (shallow_fields (suc (length stack)) fs) (unique_fields fs) (has k (names fs))
            (fresh seen (names fs)) (distinct (names fs)) (returns (scan rest stack)))
  ]

returns-chain {ℓ} :
    {A : Type ℓ} (value : A) (checked : Result (Unit {0}))
    → returns (checked >> ok value) ≡ returns checked
returns-chain value (ok done) = refl
returns-chain value (err thrown) = refl

drop_true : (b : Bool) → (b && true) ≡ b
drop_true true = refl
drop_true false = refl

-- Of the tokens of a JSON value, in which an object may name a member twice, parse_unique_json returns
-- exactly where no object does and no array or object lies deeper than the depth limit.
pub parse_unique_json-returns {ℓ} :
    {A : Type ℓ} (value : A) (v : Json)
    → returns (parse_unique_json value (tokens v [])) ≡ (shallow 0 v && unique v)
unfolding parse_unique_json
parse_unique_json-returns value v =
    rw (returns-chain value (scan (tokens v []) []), scan-tokens v [] [])
      (drop_true (shallow 0 v && unique v))
