-- ===== src/Postconditions/Meaning.antt =====
-- What a verdict of `evaluatePostcondition` says of the facts.
use consequence_rail.Base.{
  ◌≤◌, ◌≡◌, refl, subst, ◌↔◌, true, Option, none, some, List, [], ◌∷◌, arith, All, decided_sound,
  decided_complete, every, &&-true,
}
use consequence_rail.Json.{ℤ, pos, negsuc, Json, num, Json-discrete}
use consequence_rail.Canonical.{Runtime}
use consequence_rail.Errors.{ok, assert, ok_inj, >>-eq-ok, >>=-eq-ok}
use consequence_rail.Postconditions.{
  Operator, eq, gte, lte, Clause, Postcondition, Verdict, Evaluation, leb_ℤ, number_le, holds,
  read_path, check_clause, evaluate_clauses, evaluate_postcondition, apply_clause, is_satisfied,
}

infix 50 ◌≤ℤ◌
-- The order of the integers, by their parts.
abbrev pub ◌≤ℤ◌ : ℤ → ℤ → Type 0
pos a ≤ℤ pos b = a ≤ b
pos a ≤ℤ negsuc b = ⊥
negsuc a ≤ℤ pos b = Unit
negsuc a ≤ℤ negsuc b = b ≤ a

-- Both are numbers, in this order.
abbrev pub AtMost : Json → Json → Type 0
AtMost a b = (m : ℤ) × (n : ℤ) × (a ≡ num m) × (b ≡ num n) × (m ≤ℤ n)

-- What an operator asks of a fact and the declared value.
abbrev pub Relates : Operator → Json → Json → Type 0
Relates eq actual expected = actual ≡ expected
Relates gte actual expected = AtMost expected actual
Relates lte actual expected = AtMost actual expected

-- The fact of a clause is reported, and stands in the clause's relation to the declared value.
abbrev pub Meets : Runtime → Json → Clause → Type 0
Meets rt facts c =
    (actual : Json) × (read_path rt facts c ≡ some actual) × Relates c.op actual c.value

leb_ℤ→le : (a b : ℤ) → leb_ℤ a b ≡ true → a ≤ℤ b
unfolding leb_ℤ
leb_ℤ→le (pos a) (pos b) h = ground arith
leb_ℤ→le (pos a) (negsuc b) h = cc
leb_ℤ→le (negsuc a) (pos b) h = tt
leb_ℤ→le (negsuc a) (negsuc b) h = ground arith

le→leb_ℤ : (a b : ℤ) → a ≤ℤ b → leb_ℤ a b ≡ true
unfolding leb_ℤ
le→leb_ℤ (pos a) (pos b) h = ground arith
le→leb_ℤ (pos a) (negsuc b) h = absurd h
le→leb_ℤ (negsuc a) (pos b) h = refl
le→leb_ℤ (negsuc a) (negsuc b) h = ground arith

number_le→AtMost : (a b : Json) → number_le a b ≡ true → AtMost a b
number_le→AtMost (num m) (num n) h = (m, n, refl, refl, leb_ℤ→le m n h)
number_le→AtMost (num m) _ h = cc
number_le→AtMost _ b h = cc

AtMost→number_le : (a b : Json) → AtMost a b → number_le a b ≡ true
AtMost→number_le a b (m, n, e, f, h) = rw (e, f) (le→leb_ℤ m n h)

holds→Relates : (op : Operator) (a b : Json) → holds op (some a) b ≡ true → Relates op a b
unfolding holds
holds→Relates eq a b h = decided_sound (Json-discrete a b) h
holds→Relates gte a b h = number_le→AtMost b a h
holds→Relates lte a b h = number_le→AtMost a b h

Relates→holds : (op : Operator) (a b : Json) → Relates op a b → holds op (some a) b ≡ true
unfolding holds
Relates→holds eq a b h = decided_complete (Json-discrete a b) h
Relates→holds gte a b h = AtMost→number_le b a h
Relates→holds lte a b h = AtMost→number_le a b h

holds→found :
    (op : Operator) (o : Option Json) (b : Json)
    → holds op o b ≡ true
    → (actual : Json) × (o ≡ some actual) × Relates op actual b
unfolding holds
holds→found eq none b h = cc
holds→found gte none b h = cc
holds→found lte none b h = cc
holds→found op (some a) b h = (a, refl, holds→Relates op a b h)

module _ (rt : Runtime) (facts : Json) where
  apply_clause-Meets :
      (c : Clause) → is_satisfied rt (apply_clause rt facts c) ≡ true → Meets rt facts c
  apply_clause-Meets c h = holds→found c.op (read_path rt facts c) c.value h

  Meets-apply_clause :
      (c : Clause) → Meets rt facts c → is_satisfied rt (apply_clause rt facts c) ≡ true
  Meets-apply_clause c (a, found, related) = rw found (Relates→holds c.op a c.value related)

  evaluate_clauses_iff :
      (cs : List Clause) (es : List (Evaluation rt))
      → evaluate_clauses rt facts cs ≡ ok es
      → (every (is_satisfied rt) es ≡ true) ↔ All (Meets rt facts) cs
  unfolding evaluate_clauses
  evaluate_clauses_iff [] es h = rw (← ok_inj h) ((λ _. tt), (λ _. refl))
  evaluate_clauses_iff (c ∷ cs) es h =
      let (_, checked) = >>-eq-ok (check_clause rt c) _ h in
      let (rest, evaluated, built) = >>=-eq-ok (evaluate_clauses rt facts cs) _ checked in
      let (sound, complete) = evaluate_clauses_iff cs rest evaluated in
      rw (← ok_inj built) (
        (λ e.
            let (one, others) = &&-true (is_satisfied rt (apply_clause rt facts c)) _ e in
            (apply_clause-Meets c one, sound others)),
        (λ meets. rw (Meets-apply_clause c meets.0) (complete meets.1)),
      )

  -- An accepted verdict says "satisfied" exactly when every declared clause has its fact in the
  -- evidence, in the declared relation to the declared value.
  pub evaluate_postcondition_iff :
      (p : Postcondition) (v : Verdict rt)
      → evaluate_postcondition rt p facts ≡ ok v
      → (v.satisfied ≡ true) ↔ All (Meets rt facts) p.clauses
  unfolding evaluate_postcondition
  evaluate_postcondition_iff p v h =
      let (_, checked) = >>-eq-ok (assert _ "POSTCONDITION_INVALID") _ h in
      let (es, evaluated, built) = >>=-eq-ok (evaluate_clauses rt facts p.clauses) _ checked in
      subst (λ (w : Verdict rt). (w.satisfied ≡ true) ↔ All (Meets rt facts) p.clauses)
        (ok_inj built) (evaluate_clauses_iff p.clauses es evaluated)
