-- ===== src/Rail/Proposals.antt =====
-- What `propose` has checked and written where it returns.
use consequence_rail.Base.{
  ℕ, ◌<◌, ◌≤◌, ◌≡◌, refl, ap, subst, arith, true, not, String, Option, none, some, List, [], ◌∷◌,
  ◌++◌, ltb, ltb→lt, leb→le, &&-true, length, is_some, lookup, contains, lookup-insert_self,
}
use consequence_rail.Json.{Json, str, obj, Fields, own}
use consequence_rail.Canonical.{digest, representable}
use consequence_rail.Errors.{Result, ok, err, assert, assert-ok, ok_inj, >>-eq-ok}
use consequence_rail.EventStore.{Event, append, next_event}
use consequence_rail.Postconditions.{evaluate_postcondition}
use consequence_rail.State.{proposed}
use consequence_rail.Rail.Records.{Proposal, ActionRecord}
use consequence_rail.Rail.Interface.{Rail}
use consequence_rail.Rail.Encode.{proposal_json}
use consequence_rail.Rail.Validate.{
  check_proposal, check_proposal_at, check_parameters, assert_non_empty, is_expired, in_bounds,
  admits, discard, max_duration_seconds,
}
use consequence_rail.Rail.Guards.{err≢ok}
use consequence_rail.Rail.World.{
  World, propose, register, guarded, new_record, proposed_payload, log_of,
}

-- A text field of a payload.
abbrev text_of : Option Json → Option String
text_of (some (str s)) = some s
text_of _ = none

unfoldable pub named_text : String → Json → Option String
named_text key (obj fs) = text_of (own key fs)
named_text key _ = none

module _ {E : Type 0} (rail : Rail E) where
  guarded-ok :
      (r : Result (Unit {0})) (w : World E) (k : World E → Result String × World E) (id : String)
      (v : World E)
      → guarded rail r w k ≡ (ok id, v)
      → (r ≡ ok tt) × (k w ≡ (ok id, v))
  unfolding guarded
  guarded-ok (ok tt) w k id v h = (refl, h)
  guarded-ok (err e) w k id v h = absurd (err≢ok (ap (λ x. x.0) h))

  absent : (o : Option ActionRecord) → not (is_some o) ≡ true → o ≡ none
  absent none h = refl
  absent (some a) h = cc

  -- What the proposal has to satisfy at this time, written out.
  pub record IsAdmissible (now : ℕ) (p : Proposal) : Type 0 where
    pub versioned : admits p.schema_version p.action_type ≡ true
    pub ordered : p.requested_at < p.expires_at
    pub unexpired : now < p.expires_at
    pub aged :
        (1 ≤ p.evidence_plan.max_age_seconds)
        × (p.evidence_plan.max_age_seconds ≤ max_duration_seconds)
    pub declared : check_parameters p.action_type p.parameters ≡ ok tt
    pub limited : representable (proposal_json rail.runtime p) ≡ true

  -- The event that a log gains, read at this time.
  pub record IsAnnounced (r : ActionRecord) (time : ℕ) (before after : List Event) : Type 0 where
    pub event : Event
    pub added : after ≡ before ++ event ∷ []
    pub numbered : event.sequence ≡ length before
    pub named : event.action_id ≡ r.action_id
    pub typed : event.event_type ≡ "ACTION_PROPOSED"
    pub dated : event.recorded_at ≡ time
    pub enters : named_text "state" event.payload ≡ some "PROPOSED"
    pub subject : named_text "action_digest" event.payload ≡ some r.action_digest

  -- The proposal `p` was admitted to the store `w` as the action `id`, which left the store `v`.
  pub record IsProposed (p : Proposal) (w : World E) (id : String) (v : World E) : Type 0 where
    pub room : length w.actions < rail.max_actions
    pub admissible : IsAdmissible (rail.now w.env).0 p
    pub new : lookup id w.actions ≡ none
    pub made : ActionRecord
    pub registered : lookup id v.actions ≡ some made
    pub called : made.action_id ≡ id
    pub in_state : made.state ≡ proposed
    pub of_proposal : made.proposal ≡ p
    pub of_digest : made.action_digest ≡ digest rail.runtime (proposal_json rail.runtime p)
    pub unused : made.permit_uses ≡ 0
    pub announced : IsAnnounced made (rail.now (rail.now w.env).1).0 (log_of id w) (log_of id v)

  register-IsAnnounced :
      (r : ActionRecord) (w : World E)
      → IsAnnounced r
          (rail.now w.env).0
          (log_of r.action_id w)
          (log_of r.action_id (register rail r w))
  unfolding register append next_event own named_text
  register-IsAnnounced r w = record {
    event =
        next_event rail.runtime rail.signer (log_of r.action_id w) r.action_id "ACTION_PROPOSED"
          "rail" (rail.now w.env).0 (proposed_payload rail r);
    added = rw (lookup-insert_self r.action_id _ w.by_action) refl;
    numbered = refl;
    named = refl;
    typed = refl;
    dated = refl;
    enters = refl;
    subject = refl;
  }

  register-record :
      (r : ActionRecord) (w : World E) → lookup r.action_id (register rail r w).actions ≡ some r
  unfolding register
  register-record r w = lookup-insert_self r.action_id r w.actions

  before : (now t : ℕ) → not (is_expired t now) ≡ true → now < t
  unfolding is_expired
  before now t h = ground arith

  within : (low high n : ℕ) → in_bounds low high n ≡ true → (low ≤ n) × (n ≤ high)
  unfolding in_bounds
  within low high n h = let (a, b) = &&-true _ _ h in (leb→le low n a, leb→le n high b)

  check_proposal-IsOrdered :
      (p : Proposal)
      → check_proposal rail.runtime p ≡ ok tt
      → (admits p.schema_version p.action_type ≡ true) × (p.requested_at < p.expires_at)
  unfolding check_proposal
  check_proposal-IsOrdered p h =
      let (version, h1) =
        >>-eq-ok (assert (admits p.schema_version p.action_type) "SCHEMA_INVALID") _ h in
      let (_, h2) = >>-eq-ok (assert_non_empty p.subject.type) _ h1 in
      let (_, h3) = >>-eq-ok (assert_non_empty p.subject.id) _ h2 in
      let (_, h4) = >>-eq-ok (assert_non_empty p.target.connector) _ h3 in
      let (_, h5) = >>-eq-ok (assert_non_empty p.target.resource_type) _ h4 in
      let (_, h6) = >>-eq-ok (assert_non_empty p.target.resource_id) _ h5 in
      let (_, h7) = >>-eq-ok (assert_non_empty p.idempotency_key) _ h6 in
      (
        assert-ok _ "SCHEMA_INVALID" version,
        ltb→lt p.requested_at p.expires_at (assert-ok _ "SCHEMA_INVALID" h7),
      )

  check_proposal-IsAdmissible :
      (now : ℕ) (p : Proposal)
      → check_proposal rail.runtime p ≡ ok tt
      → check_proposal_at rail.runtime now p ≡ ok tt
      → IsAdmissible now p
  unfolding check_proposal_at
  check_proposal-IsAdmissible now p h k =
      let (version, order) = check_proposal-IsOrdered p h in
      let (timely, k1) =
        >>-eq-ok (assert (not (is_expired p.expires_at now)) "ACTION_EXPIRED") _ k in
      let (_, k2) = >>-eq-ok (assert_non_empty p.evidence_plan.source) _ k1 in
      let (age, k3) =
        >>-eq-ok
          (assert (in_bounds 1 max_duration_seconds p.evidence_plan.max_age_seconds)
            "SCHEMA_INVALID")
          _ k2 in
      let (_, k4) =
        >>-eq-ok
          (discard rail.runtime
            (evaluate_postcondition rail.runtime p.postcondition (obj Fields.end)))
          _ k3 in
      let (parameters, size) = >>-eq-ok (check_parameters p.action_type p.parameters) _ k4 in
      record {
        versioned = version;
        ordered = order;
        unexpired = before now p.expires_at (assert-ok _ "ACTION_EXPIRED" timely);
        aged = within 1 max_duration_seconds _ (assert-ok _ "SCHEMA_INVALID" age);
        declared = parameters;
        limited = assert-ok _ "CANONICALIZATION_FAILED" size;
      }

  -- Where `propose` returns an id, the store had room, the id was free, and the proposal was unexpired
  -- at the first reading of the clock, with its times in order, an evidence age within the bounds, valid
  -- parameters and a size within the limits. The store now has under the id a record of the proposal and
  -- its digest in `PROPOSED`, whose permit is unused, and its log has gained one event, ACTION_PROPOSED at
  -- the second reading, which enters PROPOSED with that digest.
  pub propose-IsProposed :
      (p : Proposal) (w : World E) (id : String) (v : World E)
      → propose rail p w ≡ (ok id, v)
      → IsProposed p w id v
  unfolding propose
  propose-IsProposed p w id v h =
      let w1 = record w { env = (rail.now w.env).1 } in
      let r = new_record rail (digest rail.runtime (proposal_json rail.runtime p)) p in
      let (room, h1) =
        guarded-ok (assert (ltb (length w.actions) rail.max_actions) "ACTION_CAPACITY_REACHED") w _
          id v h in
      let (valid, h2) = guarded-ok (check_proposal rail.runtime p) w _ id v h1 in
      let (timely, h3) =
        guarded-ok (check_proposal_at rail.runtime (rail.now w.env).0 p) w1 _ id v h2 in
      let (new, h4) =
        guarded-ok (assert (not (contains r.action_id w.actions)) "ACTION_EXISTS") w1 _ id v h3 in
      let named : r.action_id ≡ id = ok_inj (ap (λ x. x.0) h4) in
      let left : register rail r w1 ≡ v = ap (λ x. x.1) h4 in
      record {
        room = ltb→lt _ _ (assert-ok _ "ACTION_CAPACITY_REACHED" room);
        admissible = check_proposal-IsAdmissible (rail.now w.env).0 p valid timely;
        new =
            subst (λ i. lookup i w.actions ≡ none) named
              (absent _ (assert-ok _ "ACTION_EXISTS" new));
        made = r;
        registered =
            subst (λ i. lookup i v.actions ≡ some r) named
              (subst (λ (x : World E). lookup r.action_id x.actions ≡ some r) left
                (register-record r w1));
        called = named;
        in_state = refl;
        of_proposal = refl;
        of_digest = refl;
        unused = refl;
        announced =
            subst (λ i. IsAnnounced r (rail.now w1.env).0 (log_of i w) (log_of i v)) named
              (subst
                (λ (x : World E).
                  IsAnnounced r (rail.now w1.env).0 (log_of r.action_id w) (log_of r.action_id x))
                left (register-IsAnnounced r w1));
      }
