-- ===== src/Rail/Receipts.antt =====
-- What `close` leaves where it returns: the closed state and the receipt over the log.
use consequence_rail.Base.{
  ◌≡◌, sym, ap, ◌∙◌, true, not, String, Option, none, some, List, [], ◌∷◌, last?,
}
use consequence_rail.Json.{Json, object, str}
use consequence_rail.Errors.{rail_error, ok, err, ok_inj}
use consequence_rail.State.{State, closed, Outcome, receipt_outcome, allowed}
use consequence_rail.EventStore.{Event, last_hash}
use consequence_rail.Rail.Records.{ActionRecord, Receipt, Reserved, Permitted, RecourseStatus}
use consequence_rail.Rail.Interface.{Rail}
use consequence_rail.Rail.Session.{
  with_fields, Session, gets, lift, assign, require, transition, commit_transition, append_event,
  set_state, transition_payload, ◌>>◌,
}
use consequence_rail.Rail.Encode.{settlement_reason, outcome_text}
use consequence_rail.Rail.Lifecycle.{
  close, issue_receipt, finalize_recourse, present, sign_receipt, unsigned_receipt, need_reserved,
  or_empty, time_of, is_disputed, receipt_supports,
}
use consequence_rail.Rail.Guards.{err≢ok, >>=-ok, require-ok, present-ok, need_reserved-ok}

module _ {E : Type 0} where
  gets-ok :
      {A : Type 0} (f : ActionRecord → List Event → A) (s u : Session E) (a : A)
      → gets f s ≡ (ok a, u)
      → (f s.action s.events ≡ a) × (s ≡ u)
  unfolding gets
  gets-ok f s u a h = (ok_inj (ap (λ x. x.0) h), ap (λ x. x.1) h)

  outcome-ok :
      (found : Option Outcome) (o : Outcome) (s u : Session E)
      → lift (elim found [ none ↦ err (rail_error "ILLEGAL_TRANSITION") | some p ↦ ok p ]) s
        ≡ (ok o, u)
      → found ≡ some o
  unfolding lift
  outcome-ok none o s u h = absurd (err≢ok (ap (λ x. x.0) h))
  outcome-ok (some p) o s u h = ap some (ok_inj (ap (λ x. x.0) h))

module _ {E : Type 0} (rail : Rail E) where
  transition-ok :
      (next : State) (reason : String) (d : Json) (s t : Session E)
      → transition rail next reason d s ≡ (ok tt, t)
      → (allowed s.action.state next ≡ true) × (t.action.state ≡ next)
  unfolding transition commit_transition set_state
  transition-ok next reason d s t h =
      let (r, u, read, h1) =
        >>=-ok (gets (λ a es. a))
          (λ a.
            require (allowed a.state next) "ILLEGAL_TRANSITION"
            >> commit_transition rail a.state next reason d)
          s tt t h in
      let (same_record, e1) = gets-ok (λ a es. a) s u r read in
      let (_, v, guarded, h2) =
        >>=-ok (require (allowed r.state next) "ILLEGAL_TRANSITION")
          (λ done. commit_transition rail r.state next reason d) u tt t h1 in
      let (legal, e2) = require-ok (allowed r.state next) "ILLEGAL_TRANSITION" u v guarded in
      let (_, w, _, h3) =
        >>=-ok
          (append_event rail "STATE_TRANSITION" "rail"
            (transition_payload rail r.state next reason d))
          (λ done. set_state rail next) v tt t h2 in
      (rw same_record legal, sym (ap (λ x. x.1.action.state) h3))

  -- The receipt of a closed action.
  pub record IsReceipted (o : Outcome) (t : Session E) : Type 0 where
    pub receipt : Receipt
    pub issued : t.action.receipt ≡ some receipt
    pub concluded : receipt.outcome ≡ o
    pub satisfied_unless_disputed : receipt.postcondition_satisfied ≡ not (is_disputed o)
    pub head : receipt.event_chain_head ≡ or_empty (last_hash rail.runtime (last? t.events))
    pub dated : receipt.closed_at ≡ time_of (last? t.events)
    pub addressed : receipt.action_id ≡ t.action.action_id

  receipted :
      (o : Outcome) (status : RecourseStatus) (v : Reserved) (p : Permitted) (s u t : Session E)
      (y : Receipt)
      → sign_receipt rail (unsigned_receipt rail o status v p s.action s.events) ≡ y
      → s ≡ u
      → record u { action = with_fields (λ r. record r { receipt = some y }) u.action } ≡ t
      → IsReceipted o t
  receipted o status v p s u t y made e e' = record {
    receipt = y;
    issued = ap (λ (x : Session E). x.action.receipt) (sym e');
    concluded = ap (λ (x : Receipt). x.outcome) (sym made);
    satisfied_unless_disputed = ap (λ (x : Receipt). x.postcondition_satisfied) (sym made);
    head =
        ap (λ (x : Receipt). x.event_chain_head) (sym made)
        ∙ ap (λ (x : Session E). or_empty (last_hash rail.runtime (last? x.events))) e
        ∙ ap (λ (x : Session E). or_empty (last_hash rail.runtime (last? x.events))) e';
    dated =
        ap (λ (x : Receipt). x.closed_at) (sym made)
        ∙ ap (λ (x : Session E). time_of (last? x.events)) e
        ∙ ap (λ (x : Session E). time_of (last? x.events)) e';
    addressed =
        ap (λ (x : Receipt). x.action_id) (sym made)
        ∙ ap (λ (x : Session E). x.action.action_id) e
        ∙ ap (λ (x : Session E). x.action.action_id) e';
  }

  issue_receipt-IsReceipted :
      (o : Outcome) (status : RecourseStatus) (s t : Session E)
      → issue_receipt rail o status s ≡ (ok tt, t)
      → IsReceipted o t × (t.action.state ≡ s.action.state)
  unfolding issue_receipt assign
  issue_receipt-IsReceipted o status s t h =
      let (v, u1, m1, h1) = >>=-ok (need_reserved rail) _ s tt t h in
      let (_, e1) = need_reserved-ok rail s u1 v m1 in
      let (x, u2, m2, h2) = >>=-ok (gets (λ r es. r.permitted)) _ u1 tt t h1 in
      let (_, e2) = gets-ok (λ r es. r.permitted) u1 u2 x m2 in
      let (p, u3, m3, h3) = >>=-ok (lift (present x)) _ u2 tt t h2 in
      let (_, e3) = present-ok x p u2 u3 m3 in
      let (y, u4, m4, h4) =
        >>=-ok (gets (λ r es. sign_receipt rail (unsigned_receipt rail o status v p r es))) _ u3 tt
          t h3 in
      let (made, e4) =
        gets-ok (λ r es. sign_receipt rail (unsigned_receipt rail o status v p r es)) u3 u4 y m4 in
      let e5 = ap (λ x. x.1) h4 in
      (
        receipted o status v p u3 u4 t y made e4 e5,
        ap (λ (x : Session E). x.action.state) (sym e5)
            ∙ ap (λ (x : Session E). x.action.state) (sym (e1 ∙ e2 ∙ e3 ∙ e4)),
      )

  -- Where `close` returns, the state it closed from has an outcome, the action is closed, and its
  -- record has a receipt with that outcome over the head of the log.
  pub close-IsReceipted :
      (s t : Session E)
      → close rail s ≡ (ok tt, t)
      → (o : Outcome) × (receipt_outcome s.action.state ≡ some o)
        × (t.action.state ≡ closed)
        × IsReceipted o t
  unfolding close
  close-IsReceipted s t h =
      let (r, u1, m1, h1) = >>=-ok (gets (λ a es. a)) _ s tt t h in
      let (read, e1) = gets-ok (λ a es. a) s u1 r m1 in
      let (o, u2, m2, h2) = >>=-ok (lift _) _ u1 tt t h1 in
      let found = outcome-ok (receipt_outcome r.state) o u1 u2 m2 in
      let (final, u3, _, h3) =
        >>=-ok (finalize_recourse rail (not (is_disputed o)) (settlement_reason o)) _ u2 tt t h2 in
      let (status, u4, _, h4) = >>=-ok (lift (present final)) _ u3 tt t h3 in
      let (_, u5, _, h5) =
        >>=-ok (require (receipt_supports status.status) "RECEIPT_UNSUPPORTED") _ u4 tt t h4 in
      let (_, u6, m6, h6) =
        >>=-ok
          (transition rail closed (settlement_reason o)
            (object (("outcome", str (outcome_text o)) ∷ [])))
          _ u5 tt t h5 in
      let (_, shut) = transition-ok closed _ _ u5 u6 m6 in
      let (receipted, kept) = issue_receipt-IsReceipted o status u6 t h6 in
      (o, rw read found, kept ∙ shut, receipted)
