-- ===== src/Rail/Stable/Calls.antt =====
-- Every sequence of calls, `propose` included, from the empty store.
use consequence_rail.Base.{
  ℕ, true, not, ◌≡◌, refl, Option, none, some, String, List, [], ◌∷◌, lookup, contains, is_some,
}
use consequence_rail.Errors.{Result, ok, err, assert-ok}
use consequence_rail.EventStore.{append}
use consequence_rail.Rail.Records.{ActionRecord, Proposal}
use consequence_rail.Rail.Interface.{Rail}
use consequence_rail.Rail.Session.{Session}
use consequence_rail.Rail.Session.Keeps.{Stable}
use consequence_rail.Rail.World.{
  World, Call, proposes, commands, perform, perform_all, propose, register, guarded, new_record,
  proposed_payload, empty_world,
}
use consequence_rail.Rail.Stable.Commands.{session_of, Everywhere, store-Keeps, run-Keeps}

-- The session that `propose` leaves.
abbrev pub founding : {E : Type 0} → Rail E → E → String → Proposal → ℕ → Session E
founding rail env d p now =
    let r = new_record rail d p in
    record {
      env = env;
      action = r;
      events =
          append rail.runtime rail.signer [] r.action_id "ACTION_PROPOSED" "rail" now
            (proposed_payload rail r);
    }

module _ {E : Type 0} {rail : Rail E} {P : Session E → Type 0} (stable : Stable rail P)
    (founded : (env : E) (d : String) (p : Proposal) (now : ℕ)
      → P (founding rail env d p now)) where
  outside-Everywhere : (w : World E) (e : E) → Everywhere P w → Everywhere P (record w { env = e })
  outside-Everywhere w e h = record {
    each = λ id r l. stable.outside (session_of w id r) e (h.each id r l);
    registered = h.registered;
  }

  guarded-Everywhere :
      (r : Result (Unit {0})) (w : World E) (k : World E → Result String × World E)
      → Everywhere P w
      → (r ≡ ok tt → Everywhere P (k w).1)
      → Everywhere P (guarded rail r w k).1
  unfolding guarded
  guarded-Everywhere (ok tt) w k h kh = kh refl
  guarded-Everywhere (err e) w k h kh = h

  absent : (o : Option ActionRecord) → not (is_some o) ≡ true → o ≡ none
  absent none h = refl
  absent (some a) h = cc

  register-Everywhere :
      (d : String) (p : Proposal) (w : World E)
      → not (contains (new_record rail d p).action_id w.actions) ≡ true
      → Everywhere P w
      → Everywhere P (register rail (new_record rail d p) w)
  unfolding register
  register-Everywhere d p w new h =
      let id = (new_record rail d p).action_id in
      let (now, env) = rail.now w.env in
      let none_yet = h.registered id (absent (lookup id w.actions) new) in
      store-Keeps stable id _ w (rw none_yet (founded env d p now)) h

  propose-Everywhere :
      (p : Proposal) (w : World E) → Everywhere P w → Everywhere P (propose rail p w).1
  unfolding propose
  propose-Everywhere p w h =
      let h' = outside-Everywhere w (rail.now w.env).1 h in
      guarded-Everywhere _ w _ h λ capacity. guarded-Everywhere _ w _ h λ valid.
        guarded-Everywhere _ _ _ h' λ timely.
          guarded-Everywhere _ _ _ h'
            λ new. register-Everywhere _ p _ (assert-ok _ "ACTION_EXISTS" new) h'

  perform-Everywhere : (c : Call) (w : World E) → Everywhere P w → Everywhere P (perform rail c w)
  unfolding perform
  perform-Everywhere (proposes p) w h = propose-Everywhere p w h
  perform-Everywhere (commands id c) w h = run-Keeps stable c id w h

  perform_all_from :
      (cs : List Call) (w : World E) → Everywhere P w → Everywhere P (perform_all rail cs w)
  unfolding perform_all
  perform_all_from [] w h = h
  perform_all_from (c ∷ cs) w h = perform_all_from cs (perform rail c w) (perform-Everywhere c w h)

  pub perform_all-Everywhere :
      (cs : List Call) (env : E) → Everywhere P (perform_all rail cs (empty_world rail env))
  unfolding lookup
  perform_all-Everywhere cs env =
      perform_all_from cs (empty_world rail env)
        (record { each = λ id r e. cc e; registered = λ id e. refl })
