-- ===== src/Canonical/Order.antt =====
-- The canonical text does not depend on the order in which an object's keys were set.
use Prim.Native.String.{◌++◌}
use consequence_rail.Base.{
  ℕ, ◌≡◌, ◌≢◌, refl, ap, arith, Bool, true, false, String, List, [], ◌∷◌, if◌then◌else◌, Bool-cases,
  inl, inr,
}
use consequence_rail.Json.{Json, Fields, obj, field}
use consequence_rail.Canonical.{
  Runtime, Written, code_units, units_before, key_before, insert_key, join_fields, write,
  write_fields, canonical_json,
}

units_before_asym : (us vs : List ℕ) → units_before us vs ≡ true → units_before vs us ≡ false
unfolding units_before
units_before_asym us [] h = cc
units_before_asym [] (v ∷ vs) h = refl
units_before_asym (u ∷ us) (v ∷ vs) h = ground (arith, units_before_asym us vs)

units_before_total :
    (us vs : List ℕ) → units_before us vs ≡ false → units_before vs us ≡ false → us ≡ vs
unfolding units_before
units_before_total [] [] h k = refl
units_before_total [] (v ∷ vs) h k = cc
units_before_total (u ∷ us) [] h k = cc
units_before_total (u ∷ us) (v ∷ vs) h k = grind (arith, units_before_total us vs)

units_before_trans :
    (us vs ws : List ℕ)
    → units_before us vs ≡ true
    → units_before vs ws ≡ true
    → units_before us ws ≡ true
unfolding units_before
units_before_trans us vs [] h k = cc
units_before_trans us [] (w ∷ ws) h k = cc
units_before_trans [] (v ∷ vs) (w ∷ ws) h k = refl
units_before_trans (u ∷ us) (v ∷ vs) (w ∷ ws) h k = ground (arith, units_before_trans us vs ws)

key_before_trans :
    (j k i : String) → key_before j k ≡ true → key_before k i ≡ true → key_before j i ≡ true
unfolding key_before
key_before_trans j k i h h' = units_before_trans (code_units j) (code_units k) (code_units i) h h'

module _ (j k : String) (apart : code_units j ≢ code_units k) where
  after : key_before j k ≡ false → (b : Bool) → key_before k j ≡ b → b ≡ true
  unfolding key_before
  after n true e = refl
  after n false e = absurd (apart (units_before_total (code_units j) (code_units k) n e))

  one_before : key_before k j ≡ (if key_before j k then false else true)
  unfolding key_before
  one_before = elim (Bool-cases (key_before j k)) [
    | inl e ↦ rw (e, units_before_asym (code_units j) (code_units k) e) refl
    | inr n ↦ rw n (after n (key_before k j) refl)
  ]

  insert_key_comm :
      (v w : String) (ws : Written)
      → insert_key j v (insert_key k w ws) ≡ insert_key k w (insert_key j v ws)
  unfolding insert_key
  insert_key_comm v w [] = ground (arith, one_before)
  insert_key_comm v w ((i, u) ∷ ws) =
      ground
        (arith, one_before, key_before_trans j k i, key_before_trans k j i, insert_key_comm v w ws)

  -- Two fields whose keys differ as texts of code units may be set in either order: the canonical text
  -- of the object is the same.
  pub canonical_json_comm :
      (rt : Runtime) (a b : Json) (fs : Fields)
      → canonical_json rt (obj (field j a (field k b fs)))
        ≡ canonical_json rt (obj (field k b (field j a fs)))
  unfolding canonical_json
  canonical_json_comm rt a b fs =
      ap (λ ws. "{" ++ join_fields rt ws ++ "}")
        (insert_key_comm (write rt a) (write rt b) (write_fields rt fs))
