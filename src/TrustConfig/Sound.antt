-- ===== src/TrustConfig/Sound.antt =====
-- What holds of the keys that src/trust-config.js accepts.
use consequence_rail.Base.{
  suc, ◌+◌, ◌≤◌, ◌≡◌, refl, arith, Bool, true, false, not, String, Option, some, none, [], ◌∷◌,
  Dict, lookup, insert, lookup-insert_other, contains, is_some, leb, ltb, leb→le, ltb→lt, length,
  str_eq, str_eq_sym, All, Bool-cases, inl, inr, if◌then◌else◌, ◌∙◌, sym,
}
use consequence_rail.Errors.{ok, assert, assert-ok, >>-eq-ok, >>=-eq-ok, ok_inj}
use consequence_rail.Canonical.{Runtime, item_count}
use consequence_rail.Json.{Json, null, bool, num, str, arr, obj, Items, nil, cons, Fields, own}
use consequence_rail.TrustConfig.{
  Platform, TrustedKeys, is_valid_key_id, is_ed25519, checked_key, parse_public_key_pem, add_key,
  add_entry, add_entries, read_role, parse_trusted_keys, max_keys_per_role, require_valid,
  assert_closed, entry_fields, document_fields, entries_of, is_version, total_keys,
}

module _ {V : Type 0} where
  abbrev pub IsDistinct : Dict V → Type 0
  IsDistinct [] = Unit
  IsDistinct ((k, v) ∷ m) = (lookup k m ≡ none) × IsDistinct m

  tail_absent :
      (here : Bool) (w : V) (rest : Option V)
      → (if here then some w else rest) ≡ none
      → (here ≡ false) × (rest ≡ none)
  tail_absent true w rest h = cc
  tail_absent false w rest h = (refl, h)

  absent_of_test : (found : Option V) → not (is_some found) ≡ true → found ≡ none
  absent_of_test none h = refl
  absent_of_test (some v) h = cc

  insert-IsDistinct :
      (k : String) (v : V) (m : Dict V)
      → lookup k m ≡ none
      → IsDistinct m
      → IsDistinct (insert k v m)
  unfolding lookup insert
  insert-IsDistinct k v [] absent distinct = (refl, tt)
  insert-IsDistinct k v ((j, w) ∷ m) absent distinct =
      let (other, later) = tail_absent (str_eq j k) w (lookup k m) absent in
      rw other (
        rw (lookup-insert_other k j v m (str_eq_sym k j ∙ other)) distinct.0,
        insert-IsDistinct k v m later distinct.1,
      )

  insert-All :
      (P : String × V → Type 0) (k : String) (v : V) (m : Dict V)
      → P (k, v)
      → All P m
      → All P (insert k v m)
  unfolding insert
  insert-All P k v [] new old = (new, tt)
  insert-All P k v ((j, w) ∷ m) new old = elim (Bool-cases (str_eq j k)) [
    | inl same ↦ rw same (new, old.1)
    | inr other ↦ rw other (old.0, insert-All P k v m new old.1)
  ]

  length-insert-le : (k : String) (v : V) (m : Dict V) → length (insert k v m) ≤ suc (length m)
  unfolding insert
  length-insert-le k v [] = omega arith
  length-insert-le k v ((j, w) ∷ m) = ground (arith, length-insert-le k v m)

module _ {K : Type 0} (rt : Runtime) (platform : Platform K) where
  checked_key-is_ed25519 :
      (code : String) (found : Option K) (k : K)
      → checked_key rt platform code found ≡ ok k
      → is_ed25519 rt platform k ≡ true
  checked_key-is_ed25519 code none k h = cc
  checked_key-is_ed25519 code (some j) k h =
      let (good, same) = >>-eq-ok (assert (is_ed25519 rt platform j) code) (ok j) h in
      rw (sym (ok_inj same)) (assert-ok (is_ed25519 rt platform j) code good)

  parse_public_key_pem-is_ed25519 :
      (pem : Option Json) (code : String) (k : K)
      → parse_public_key_pem rt platform pem code ≡ ok k
      → is_ed25519 rt platform k ≡ true
  unfolding parse_public_key_pem
  parse_public_key_pem-is_ed25519 none code k h = cc
  parse_public_key_pem-is_ed25519 (some null) code k h = cc
  parse_public_key_pem-is_ed25519 (some (bool b)) code k h = cc
  parse_public_key_pem-is_ed25519 (some (num n)) code k h = cc
  parse_public_key_pem-is_ed25519 (some (str s)) code k h = checked_key-is_ed25519 code _ k h
  parse_public_key_pem-is_ed25519 (some (arr es)) code k h = cc
  parse_public_key_pem-is_ed25519 (some (obj fs)) code k h = cc

  abbrev pub IsKey : String × K → Type 0
  IsKey e = (is_valid_key_id e.0 ≡ true) × (is_ed25519 rt platform e.1 ≡ true)

  -- The ids of the keys are distinct and valid, and the keys are public Ed25519 keys.
  abbrev pub IsKeySet : Dict K → Type 0
  IsKeySet keys = IsDistinct keys × All IsKey keys

  add_key-IsKeySet :
      (key_id pem : Option Json) (keys keys' : Dict K)
      → IsKeySet keys
      → add_key rt platform key_id pem keys ≡ ok keys'
      → IsKeySet keys' × (length keys' ≤ suc (length keys))
  add_key-IsKeySet none pem keys keys' good h = cc
  add_key-IsKeySet (some null) pem keys keys' good h = cc
  add_key-IsKeySet (some (bool b)) pem keys keys' good h = cc
  add_key-IsKeySet (some (num n)) pem keys keys' good h = cc
  add_key-IsKeySet (some (arr es)) pem keys keys' good h = cc
  add_key-IsKeySet (some (obj fs)) pem keys keys' good h = cc
  add_key-IsKeySet (some (str key_id)) pem keys keys' good h =
      let (valid, unbound) = >>-eq-ok (require_valid (is_valid_key_id key_id)) _ h in
      let (free, rest) = >>-eq-ok (require_valid (not (contains key_id keys))) _ unbound in
      let (k, parsed, made) =
        >>=-eq-ok (parse_public_key_pem rt platform pem "TRUST_CONFIG_INVALID") _ rest in
      let absent = absent_of_test (lookup key_id keys) (assert-ok _ "TRUST_CONFIG_INVALID" free) in
      rw (sym (ok_inj made)) (
        (
          insert-IsDistinct key_id k keys absent good.0,
          insert-All IsKey key_id k keys
              (
                assert-ok _ "TRUST_CONFIG_INVALID" valid,
                parse_public_key_pem-is_ed25519 pem "TRUST_CONFIG_INVALID" k parsed,
              )
              good.1,
        ),
        length-insert-le key_id k keys,
      )

  add_entries-IsKeySet :
      (entries : Items) (keys keys' : Dict K)
      → IsKeySet keys
      → add_entries rt platform entries keys ≡ ok keys'
      → IsKeySet keys' × (length keys' ≤ length keys + item_count entries)
  add_entries-IsKeySet nil keys keys' good h = rw (sym (ok_inj h)) (good, omega arith)
  add_entries-IsKeySet (cons entry entries) keys keys' good h =
      let (next, added, rest) = >>=-eq-ok (add_entry rt platform entry keys) _ h in
      let (fs, closed, bound) = >>=-eq-ok (assert_closed entry_fields entry) _ added in
      let (next_good, next_length) =
        add_key-IsKeySet (own "key_id" fs) (own "public_key_pem" fs) keys next good bound in
      let (all_good, all_length) = add_entries-IsKeySet entries next keys' next_good rest in
      (all_good, omega (arith, next_length, all_length))

  abbrev pub IsRole : Dict K → Type 0
  IsRole keys = IsKeySet keys × (length keys ≤ max_keys_per_role)

  read_role-IsRole :
      (role : String) (fs : Fields) (keys : Dict K)
      → read_role rt platform role fs ≡ ok keys
      → IsRole keys
  read_role-IsRole role fs keys h =
      let (entries, found, checked) = >>=-eq-ok (entries_of (own role fs)) _ h in
      let (few, added) =
        >>-eq-ok (require_valid (leb (item_count entries) max_keys_per_role)) _ checked in
      let (good, bounded) = add_entries-IsKeySet entries [] keys (tt, tt) added in
      let fits =
        leb→le (item_count entries) max_keys_per_role (assert-ok _ "TRUST_CONFIG_INVALID" few) in
      (good, omega (arith, bounded, fits))

  abbrev pub IsTrustSet : TrustedKeys K → Type 0
  IsTrustSet t =
      IsRole t.rail
      × IsRole t.connector
      × IsRole t.recovery
      × (1 ≤ length t.rail + length t.connector + length t.recovery)

  -- Where parse_trusted_keys returns, every role has at most 32 keys, with distinct and valid ids, all
  -- keys are public Ed25519 keys, and there is at least one key.
  pub parse_trusted_keys-IsTrustSet :
      (value : Json) (t : TrustedKeys K)
      → parse_trusted_keys rt platform value ≡ ok t
      → IsTrustSet t
  unfolding parse_trusted_keys
  parse_trusted_keys-IsTrustSet value t h =
      let (fs, closed, versioned) = >>=-eq-ok (assert_closed document_fields value) _ h in
      let (version, roles) =
        >>-eq-ok (require_valid (is_version (own "schema_version" fs))) _ versioned in
      let (rail, to_rail, others) = >>=-eq-ok (read_role rt platform "rail" fs) _ roles in
      let (connector, to_connector, other) =
        >>=-eq-ok (read_role rt platform "connector" fs) _ others in
      let (recovery, to_recovery, last) = >>=-eq-ok (read_role rt platform "recovery" fs) _ other in
      let (some_key, made) =
        >>-eq-ok (require_valid (ltb 0 (total_keys rt platform rail connector recovery))) _ last in
      let counted =
        ltb→lt 0 (total_keys rt platform rail connector recovery)
          (assert-ok _ "TRUST_CONFIG_INVALID" some_key) in
      rw (sym (ok_inj made)) (
        read_role-IsRole "rail" fs rail to_rail,
        read_role-IsRole "connector" fs connector to_connector,
        read_role-IsRole "recovery" fs recovery to_recovery,
        omega (arith, counted),
      )
