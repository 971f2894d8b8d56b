-- ===== src/Inventory/Conservation.antt =====
-- What is on hand and what is allocated, for one SKU: drawing from the stock and freeing an allocation.
pub mod Operations
use text.Mathlib.TextPositions.{eq_refl}
use consequence_rail.Base.{
  ℕ, ◌+◌, ◌-◌, ◌≡◌, ◌≤◌, ◌⊎◌, inl, inr, refl, ap, sym, arith, Bool, true, false, ◌&&◌, String,
  Option, none, some, List, [], ◌∷◌, ◌++◌, leb, leb→le, str_eq, find_first, if◌then◌else◌, lookup,
  insert, lookup-insert, eq_iff, Bool-cases, Dict,
}
use consequence_rail.Inventory.{
  Allocation, AllocationStatus, live, freed, is_live, has_id, free_first, on_hand, count_of,
}

-- The quantity of an allocation that counts against a SKU.
unfoldable pub held_by : String → Allocation → ℕ
held_by sku a = if str_eq a.sku sku && is_live a.status then a.quantity else 0

-- The quantity that the live allocations of a SKU hold.
abbrev pub allocated : String → List Allocation → ℕ
allocated sku [] = 0
allocated sku (a ∷ rest) = held_by sku a + allocated sku rest

pub allocated-append :
    (sku : String) (xs ys : List Allocation)
    → allocated sku (xs ++ ys) ≡ allocated sku xs + allocated sku ys
allocated-append sku [] ys = omega arith
allocated-append sku (x ∷ xs) ys = omega (arith, allocated-append sku xs ys)

on_hand-insert :
    (k j : String) (n : ℕ) (m : Dict ℕ)
    → on_hand j (insert k n m) ≡ (if str_eq k j then n else on_hand j m)
unfolding on_hand
on_hand-insert k j n m = rw (lookup-insert k j n m) (by_case (str_eq k j))
  where
    by_case :
        (b : Bool)
        → count_of (if b then some n else lookup j m) ≡ (if b then n else count_of (lookup j m))
    by_case true = refl
    by_case false = refl

-- A change of one SKU's stock, seen at any SKU.
moved :
    (b : Bool) (k j : String) (m : Dict ℕ) → str_eq k j ≡ b → (b ≡ true → on_hand k m ≡ on_hand j m)
moved true k j m e h = ap (λ x. on_hand x m) ((eq_iff k j).0 e)
moved false k j m e h = cc

pub draw-conserves :
    (j : String) (a : Allocation) (m : Dict ℕ)
    → is_live a.status ≡ true
    → a.quantity ≤ on_hand a.sku m
    → on_hand j (insert a.sku (on_hand a.sku m - a.quantity) m) + held_by j a ≡ on_hand j m
unfolding held_by
draw-conserves j a m is_active enough =
    rw (on_hand-insert a.sku j (on_hand a.sku m - a.quantity) m, is_active)
      (by_case (str_eq a.sku j) (moved (str_eq a.sku j) a.sku j m refl))
  where
    by_case :
        (b : Bool)
        → (b ≡ true → on_hand a.sku m ≡ on_hand j m)
        → (if b then on_hand a.sku m - a.quantity else on_hand j m)
            + (if b && true then a.quantity else 0)
          ≡ on_hand j m
    by_case true h = omega (arith, h refl, enough)
    by_case false h = omega arith

pub return-conserves :
    (j : String) (a : Allocation) (m : Dict ℕ)
    → is_live a.status ≡ true
    → on_hand j (insert a.sku (on_hand a.sku m + a.quantity) m) ≡ on_hand j m + held_by j a
unfolding held_by
return-conserves j a m is_active =
    rw (on_hand-insert a.sku j (on_hand a.sku m + a.quantity) m, is_active)
      (by_case (str_eq a.sku j) (moved (str_eq a.sku j) a.sku j m refl))
  where
    by_case :
        (b : Bool)
        → (b ≡ true → on_hand a.sku m ≡ on_hand j m)
        → (if b then on_hand a.sku m + a.quantity else on_hand j m)
          ≡ on_hand j m + (if b && true then a.quantity else 0)
    by_case true h = omega (arith, h refl)
    by_case false h = omega arith

freed-holds_nothing : (j : String) (a : Allocation) → held_by j (record a { status = freed }) ≡ 0
unfolding held_by
freed-holds_nothing j a = by_case (str_eq a.sku j)
  where
    by_case : (b : Bool) → (if b && false then a.quantity else 0) ≡ 0
    by_case true = refl
    by_case false = refl

abbrev held_by_some : String → Option Allocation → ℕ
held_by_some j none = 0
held_by_some j (some a) = held_by j a

pub free_first-conserves :
    (j id : String) (a : Allocation) (xs : List Allocation)
    → find_first (has_id id) xs ≡ some a
    → allocated j (free_first id xs) + held_by j a ≡ allocated j xs
unfolding free_first
free_first-conserves j id a [] found = cc
free_first-conserves j id a (x ∷ xs) found =
    by_case (str_eq x.allocation_id id) (free_first-conserves j id a xs) found
  where
    by_case :
        (b : Bool)
        → (find_first (has_id id) xs ≡ some a
            → allocated j (free_first id xs) + held_by j a ≡ allocated j xs)
        → (if b then some x else find_first (has_id id) xs) ≡ some a
        → allocated j (if b then record x { status = freed } ∷ xs else x ∷ free_first id xs)
            + held_by j a
          ≡ held_by j x + allocated j xs
    by_case true below e =
        omega (arith, freed-holds_nothing j x, ap (λ (o : Option Allocation). held_by_some j o) e)
    by_case false below e = omega (arith, below e)
