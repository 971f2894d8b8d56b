-- ===== src/Errors.antt =====
-- src/errors.js: a call that throws. `RailError` carries a code; any other exception, such as the
-- UnknownExecutionError of a connector, is `foreign`. Messages and details are left out.
use consequence_rail.Base.{
  Bool, true, false, ◌≡◌, refl, String, str_eq, starts_with, List, [], ◌∷◌, All,
}

pub data Thrown : Type 0 where
  rail_error : String → Thrown
  foreign : Thrown

pub data Result {ℓ} (A : Type ℓ) : Type ℓ where
  ok : A → Result A
  err : Thrown → Result A

infixl 5 ◌>>=◌
abbrev pub ◌>>=◌ {ℓ κ} : {A : Type ℓ} {B : Type κ} → Result A → (A → Result B) → Result B
err thrown >>= k = err thrown
ok value >>= k = k value

-- `assert(condition, code)`
abbrev pub assert : Bool → String → Result (Unit {0})
assert true code = ok tt
assert false code = err (rail_error code)

-- `error instanceof RailError && error.code === code`
abbrev pub has_code : String → Thrown → Bool
has_code code (rail_error c) = str_eq c code
has_code code foreign = false

-- `error instanceof RailError && error.code.startsWith("EVIDENCE_")`
abbrev pub is_evidence_error : Thrown → Bool
is_evidence_error (rail_error c) = starts_with c "EVIDENCE_"
is_evidence_error foreign = false

-- The next call, where the first one returned.
infixl 5 ◌>>◌
abbrev pub ◌>>◌ {ℓ} : {B : Type ℓ} → Result (Unit {0}) → Result B → Result B
first >> next = first >>= λ done. next

pub assert-ok : (b : Bool) (code : String) → assert b code ≡ ok tt → b ≡ true
assert-ok true code h = refl
assert-ok false code h = cc

-- Inversion of a chain that returned.
pub >>-eq-ok {ℓ} :
    {B : Type ℓ} (m : Result (Unit {0})) (k : Result B) {b : B}
    → (m >> k) ≡ ok b
    → (m ≡ ok tt) × (k ≡ ok b)
>>-eq-ok (ok tt) k h = (refl, h)
>>-eq-ok (err e) k h = cc

pub >>=-eq-ok {ℓ κ} :
    {A : Type ℓ} {B : Type κ} {y : B} (first : Result A) (rest : A → Result B)
    → (first >>= rest) ≡ ok y
    → (x : A) × (first ≡ ok x) × (rest x ≡ ok y)
>>=-eq-ok (err thrown) rest h = cc
>>=-eq-ok (ok value) rest h = (value, refl, h)

pub ok_inj {ℓ} : {A : Type ℓ} {a b : A} → ok a ≡ ok b → a ≡ b
ok_inj h = cc

-- `assert` on each condition in turn, with one code.
unfoldable pub assert_each : String → List Bool → Result (Unit {0})
assert_each code [] = ok tt
assert_each code (b ∷ bs) = assert b code >> assert_each code bs

pub assert_each-ok :
    (code : String) (bs : List Bool) → assert_each code bs ≡ ok tt → All (λ b. b ≡ true) bs
unfolding assert_each
assert_each-ok code [] h = tt
assert_each-ok code (b ∷ bs) h =
    let (first, rest) = >>-eq-ok (assert b code) (assert_each code bs) h in
    (assert-ok b code first, assert_each-ok code bs rest)
