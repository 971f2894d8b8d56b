-- ===== src/Verify/Bundle/Pinned.antt =====
-- A receipt pins the bundle that it is accepted in.
use consequence_rail.Base.{
  ◌≡◌, ◌∙◌, refl, sym, ap, ◌⊎◌, inl, inr, true, &&-true, String, str_eq, eq_iff, Option, none, some,
  List, [], ◌∷◌, map, length,
}
use consequence_rail.Json.{Json, Json-discrete}
use consequence_rail.Canonical.{Runtime, digest}
use consequence_rail.Errors.{ok, ◌>>◌, >>-eq-ok, >>=-eq-ok, assert_each-ok, ok_inj}
use consequence_rail.Signing.{Keys}
use consequence_rail.EventStore.{ChainSummary, check_events, verify_event_chain, first_action}
use consequence_rail.EventStore.Checkpoint.{Collision, same_events, normal_event}
use consequence_rail.Canonical.Normal.{normal}
use consequence_rail.Rail.Records.{Receipt}
use consequence_rail.Rail.Encode.{reservation_json, permit_json}
use consequence_rail.Verify.Bundle.{
  Bundle, same_texts, is_head, binds_permit, binds_receipt, check_bindings, verify_signatures,
  verify_integrity,
}

same_texts_sound : (ss ts : List String) → same_texts ss ts ≡ true → ss ≡ ts
unfolding same_texts
same_texts_sound [] [] h = refl
same_texts_sound [] (t ∷ ts) h = cc
same_texts_sound (s ∷ ss) [] h = cc
same_texts_sound (s ∷ ss) (t ∷ ts) h =
    let (here, there) = &&-true (str_eq s t) (same_texts ss ts) h in
    cc ((eq_iff s t).0 here, same_texts_sound ss ts there)

is_head_sound : (head : String) (o : Option String) → is_head head o ≡ true → o ≡ some head
is_head_sound head none h = cc
is_head_sound head (some t) h = ap some (sym ((eq_iff head t).0 h))

module _ (rt : Runtime) where
  -- The bindings that pin a bundle to its receipt.
  pub record IsBound (b : Bundle) (head : Option String) : Type 0 where
    permits : binds_permit rt b ≡ true
    receipts : binds_receipt rt b ≡ true
    heads : is_head b.settlement_receipt.event_chain_head head ≡ true

  check_bindings-IsBound :
      (b : Bundle) (head : Option String) → check_bindings rt b head ≡ ok tt → IsBound b head
  unfolding check_bindings
  check_bindings-IsBound b head h =
      let (_, (permit, (receipt, (_, (its_head, _))))) = assert_each-ok "BUNDLE_TAMPERED" _ h in
      record { permits = permit; receipts = receipt; heads = its_head }

  pub record IsIntact (keys : Keys) (b : Bundle) : Type 0 where
    pub head : Option String
    pub chain : check_events rt keys (first_action rt b.events) 0 none b.events ≡ ok head
    pub bound : IsBound b head

  pub verify_integrity-IsIntact :
      (keys connector_keys : Keys) (b : Bundle) (x : ChainSummary rt)
      → verify_integrity rt keys connector_keys b ≡ ok x
      → IsIntact keys b
  unfolding verify_integrity verify_event_chain
  verify_integrity-IsIntact keys connector_keys b x h =
      let (summary, chained, rest) = >>=-eq-ok (verify_event_chain rt keys b.events) _ h in
      let (head, linked, made) =
        >>=-eq-ok (check_events rt keys (first_action rt b.events) 0 none b.events) _ chained in
      let signed = verify_signatures rt keys connector_keys b in
      let bindings = check_bindings rt b summary.chain_head in
      let (checked, _) = >>-eq-ok (signed >> bindings) (ok summary) rest in
      record {
        head = summary.chain_head;
        chain = linked ∙ ap ok (ap (λ (z : ChainSummary rt). z.chain_head) (ok_inj made));
        bound = check_bindings-IsBound b summary.chain_head (>>-eq-ok signed bindings checked).1;
      }

  -- Two bundles with the same artifacts and the same signed history, up to the order of keys.
  pub record IsSamePast (b c : Bundle) : Type 0 where
    pub actions : b.action.action_id ≡ c.action.action_id
    pub digests : b.action.action_digest ≡ c.action.action_digest
    pub reservations :
        normal (reservation_json rt b.recourse_reservation)
        ≡ normal (reservation_json rt c.recourse_reservation)
    pub permits : normal (permit_json rt b.action_permit) ≡ normal (permit_json rt c.action_permit)
    pub manifests : b.evidence_manifest ≡ c.evidence_manifest
    pub histories : map (normal_event rt) b.events ≡ map (normal_event rt) c.events

  -- What a receipt names, as it is in a bundle that binds it.
  record IsNamed (b : Bundle) : Type 0 where
    action : b.settlement_receipt.action_id ≡ b.action.action_id
    subject : b.settlement_receipt.action_digest ≡ b.action.action_digest
    permit : b.settlement_receipt.action_permit_digest ≡ digest rt (permit_json rt b.action_permit)
    reservation :
        b.settlement_receipt.recourse_reservation_digest
        ≡ digest rt (reservation_json rt b.recourse_reservation)
    manifest : b.settlement_receipt.evidence_digests ≡ b.evidence_manifest

  binds_receipt-IsNamed : (b : Bundle) → binds_receipt rt b ≡ true → IsNamed b
  binds_receipt-IsNamed b h =
      let (h5, manifest) = &&-true _ _ h in
      let (h4, _) = &&-true _ _ h5 in
      let (h3, reservation) = &&-true _ _ h4 in
      let (h2, permit) = &&-true _ _ h3 in
      let (action, subject) = &&-true _ _ h2 in
      record {
        action = (eq_iff _ _).0 action;
        subject = (eq_iff _ _).0 subject;
        permit = (eq_iff _ _).0 permit;
        reservation = (eq_iff _ _).0 reservation;
        manifest = same_texts_sound _ _ manifest;
      }

  same_or_collision :
      (left right : Json)
      → digest rt left ≡ digest rt right
      → (normal left ≡ normal right) ⊎ Collision rt
  same_or_collision left right e = elim (Json-discrete (normal left) (normal right)) [
    | yes one ↦ inl one
    | no two ↦ inr (record { left = left; right = right; differ = two; agree = e })
  ]

  both : {A B C : Type 0} → A ⊎ C → B ⊎ C → (A × B) ⊎ C
  both (inl a) (inl b) = inl (a, b)
  both (inl a) (inr c) = inr c
  both (inr c) other = inr c

  -- Two accepted bundles with one receipt and the same number of events are of one action, with the
  -- same evidence manifest and, up to the order of keys, the same reservation, permit and signed
  -- history, or two JSON values are in hand that differ in more than the order of keys and have one
  -- digest. The verifiers' keys may differ.
  pub verify_integrity-IsSamePast :
      (keys connector_keys keys' connector_keys' : Keys) (b c : Bundle) (x y : ChainSummary rt)
      → verify_integrity rt keys connector_keys b ≡ ok x
      → verify_integrity rt keys' connector_keys' c ≡ ok y
      → b.settlement_receipt ≡ c.settlement_receipt
      → length b.events ≡ length c.events
      → IsSamePast b c ⊎ Collision rt
  verify_integrity-IsSamePast keys connector_keys keys' connector_keys' b c x y h k same sized =
      let v = verify_integrity-IsIntact keys connector_keys b x h in
      let w = verify_integrity-IsIntact keys' connector_keys' c y k in
      let m = binds_receipt-IsNamed b v.bound.receipts in
      let n = binds_receipt-IsNamed c w.bound.receipts in
      let heads =
        is_head_sound b.settlement_receipt.event_chain_head v.head v.bound.heads
        ∙ ap (λ (r : Receipt). some r.event_chain_head) same
        ∙ sym (is_head_sound c.settlement_receipt.event_chain_head w.head w.bound.heads) in
      let reservations =
        same_or_collision (reservation_json rt b.recourse_reservation)
          (reservation_json rt c.recourse_reservation)
          (sym m.reservation
            ∙ ap (λ (r : Receipt). r.recourse_reservation_digest) same
            ∙ n.reservation) in
      let permits =
        same_or_collision (permit_json rt b.action_permit) (permit_json rt c.action_permit)
          (sym m.permit ∙ ap (λ (r : Receipt). r.action_permit_digest) same ∙ n.permit) in
      let histories =
        same_events rt keys keys' (first_action rt b.events) (first_action rt c.events) 0 0 none
          none v.head w.head b.events c.events sized v.chain w.chain heads in
      elim (both (both reservations permits) histories) [
        | inr found ↦ inr found
        | inl ((one, two), (past, _)) ↦ inl (record {
          actions = sym m.action ∙ ap (λ (r : Receipt). r.action_id) same ∙ n.action;
          digests = sym m.subject ∙ ap (λ (r : Receipt). r.action_digest) same ∙ n.subject;
          reservations = one;
          permits = two;
          manifests = sym m.manifest ∙ ap (λ (r : Receipt). r.evidence_digests) same ∙ n.manifest;
          histories = past;
        })
      ]
