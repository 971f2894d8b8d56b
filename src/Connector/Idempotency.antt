-- ===== src/Connector/Idempotency.antt =====
-- A call under an idempotency key (the first lines of `execute` and of `remediate`).
use text.Mathlib.TextPositions.{eq_refl}
use consequence_rail.Base.{
  ◌≡◌, refl, ap, Bool, true, false, String, Option, none, some, lookup, contains,
  lookup-insert_self, eq_iff, if◌then◌else◌, is_some, subst,
}
use consequence_rail.Errors.{Result, ok, err, ok_inj}
use consequence_rail.Rail.Guards.{err≢ok}
use consequence_rail.Rail.Records.{ConnectorResult}
use consequence_rail.Connector.{
  Bindings, bound_to, admits_key, remember, recorded, replay, once, digested, status_of, or_unknown,
}

-- A key that has a result for the action.
pub record IsBound (key d : String) (x : ConnectorResult) (b : Bindings) : Type 0 where
  pub known : lookup key b.digests ≡ some d
  pub result : lookup key b.results ≡ some x

pub remember-IsBound :
    (key d : String) (x : ConnectorResult) (b : Bindings) → IsBound key d x (remember key d x b)
remember-IsBound key d x b = record {
  known = lookup-insert_self key d b.digests;
  result = lookup-insert_self key x b.results;
}

pub status_of-bound :
    (key d : String) (x : ConnectorResult) (b : Bindings) → IsBound key d x b → status_of key b ≡ x
unfolding status_of
status_of-bound key d x b h = ap (or_unknown key) h.result

recorded-ok : (o : Option ConnectorResult) (x : ConnectorResult) → recorded o ≡ ok x → o ≡ some x
recorded-ok none x h = absurd (err≢ok h)
recorded-ok (some y) x h = ap some (ok_inj h)

known_of : (o : Option String) (d : String) → is_some o ≡ true → bound_to o d ≡ true → o ≡ some d
known_of none d h k = cc
known_of (some e) d h k = ap some ((eq_iff e d).0 k)

replay-IsBound :
    (key d : String) (x : ConnectorResult) (b : Bindings) (admitted : Bool)
    → contains key b.digests ≡ true
    → admits_key b key d ≡ admitted
    → replay key admitted b ≡ ok x
    → IsBound key d x b
unfolding admits_key
replay-IsBound key d x b false c e h = absurd (err≢ok h)
replay-IsBound key d x b true c e h = record {
  known = known_of _ d c e;
  result = recorded-ok _ x h;
}

module _ {S : Type 0} (bindings : S → Bindings) (key d : String) where
  -- What a body has to do under a free key: bind what it returns.
  abbrev pub Binds : Result ConnectorResult × S → Type 0
  Binds (ok x, t) = IsBound key d x (bindings t)
  Binds (err e, t) = Unit

module _ {S : Type 0} (bindings : S → Bindings) (key d : String) (fits : Bool) where
  pub once-bound :
      (body : S → Result ConnectorResult × S) (x : ConnectorResult) (s : S)
      → fits ≡ true
      → IsBound key d x (bindings s)
      → once bindings key d fits body s ≡ (ok x, s)
  unfolding once admits_key
  once-bound body x s sized b = rw (sized, b.known, eq_refl d, b.result) refl

  -- It returns only where the proposal has a digest.
  abbrev pub Settles : Result ConnectorResult × S → Type 0
  Settles (ok x, t) = (fits ≡ true) × IsBound key d x (bindings t)
  Settles (err e, t) = Unit

  pub Binds-Settles :
      (y : Result ConnectorResult × S) → fits ≡ true → Binds bindings key d y → Settles y
  Binds-Settles (ok x, t) sized b = (sized, b)
  Binds-Settles (err e, t) sized b = tt

  Settles-ok :
      (y : Result ConnectorResult × S) (x : ConnectorResult) (t : S)
      → Settles y
      → y ≡ (ok x, t)
      → (fits ≡ true) × IsBound key d x (bindings t)
  Settles-ok y x t b h = subst Settles h b

  digested-ok :
      (b : Bool) (y : Result ConnectorResult) (x : ConnectorResult)
      → digested b y ≡ ok x
      → (b ≡ true) × (y ≡ ok x)
  digested-ok true y x h = (refl, h)
  digested-ok false y x h = absurd (err≢ok h)

  once_by :
      (c : Bool) (body : S → Result ConnectorResult × S) (x : ConnectorResult) (s t : S)
      → contains key (bindings s).digests ≡ c
      → Settles (body s)
      → (if c
          then (digested fits (replay key (admits_key (bindings s) key d) (bindings s)), s)
          else body s)
        ≡ (ok x, t)
      → (fits ≡ true) × IsBound key d x (bindings t)
  once_by true body x s t c b h =
      let (sized, replayed) = digested-ok fits _ x (ap (λ z. z.0) h) in
      (
        sized,
        subst (λ z. IsBound key d x (bindings z)) (ap (λ z. z.1) h)
            (replay-IsBound key d x (bindings s) _ c refl replayed),
      )
  once_by false body x s t c b h = Settles-ok (body s) x t b h

  pub once-IsBound :
      (body : S → Result ConnectorResult × S) (x : ConnectorResult) (s t : S)
      → Settles (body s)
      → once bindings key d fits body s ≡ (ok x, t)
      → (fits ≡ true) × IsBound key d x (bindings t)
  unfolding once
  once-IsBound body x s t b h = once_by _ body x s t refl b h

  -- A property that the body keeps is kept by the call.
  pub once-keeps :
      (P : S → Type 0) (body : S → Result ConnectorResult × S) (s : S)
      → P s
      → P (body s).1
      → P (once bindings key d fits body s).1
  unfolding once
  once-keeps P body s p q = keep_by (contains key (bindings s).digests)
    where
      keep_by :
          (c : Bool)
          → P
              (if c
                then (digested fits (replay key (admits_key (bindings s) key d) (bindings s)), s)
                else body s).1
      keep_by true = p
      keep_by false = q

  pub once-free :
      (body : S → Result ConnectorResult × S) (s : S)
      → contains key (bindings s).digests ≡ false
      → once bindings key d fits body s ≡ body s
  unfolding once
  once-free body s free = rw free refl
