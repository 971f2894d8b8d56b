-- ===== src/Rail/Session/Keeps.antt =====
-- An induction principle for the methods. A predicate on sessions that survives a change of the
-- outside, an assignment to a field, an event that is no transition and a permitted transition is
-- kept by every method, whether it returns or throws.
use consequence_rail.Base.{
  ℕ, ◌≡◌, Bool, true, false, String, str_eq, if◌then◌else◌, Bool-cases, inl, inr,
}
use consequence_rail.Json.{Json}
use consequence_rail.Errors.{Thrown, Result, ok, err}
use consequence_rail.State.{State, allowed}
use consequence_rail.EventStore.{append}
use consequence_rail.Rail.Records.{ActionRecord}
use consequence_rail.Rail.Interface.{Rail, Call}
use consequence_rail.Rail.Session.{
  Session, Method, pure, throw, lift, gets, call, peek, attempt, recover, go_on, ◌>>=◌, assign,
  append_event, transition, transition_payload, with_fields,
}

-- `m` keeps `P`, whether it returns or throws.
pub record Keeps {E A : Type 0} (P : Session E → Type 0) (m : Method E A) : Type 0 where
  pub at : (s : Session E) → P s → P (m s).1

abbrev pub is_transition_type : String → Bool
is_transition_type event_type = str_eq event_type "STATE_TRANSITION"

abbrev pub with_event : {E : Type 0} → Rail E → String → String → Json → ℕ → Session E → Session E
with_event rail event_type actor payload now s = record s {
  events = append rail.runtime rail.signer s.events s.action.action_id event_type actor now payload;
}

pub record Stable {E : Type 0} (rail : Rail E) (P : Session E → Type 0) : Type 0 where
  pub outside : (s : Session E) (e : E) → P s → P (record s { env = e })
  pub field :
      (s : Session E) (f : ActionRecord → ActionRecord)
      → P s
      → P (record s { action = with_fields f s.action })
  pub event :
      (s : Session E) (event_type actor : String) (payload : Json) (now : ℕ)
      → is_transition_type event_type ≡ false
      → P s
      → P (with_event rail event_type actor payload now s)
  pub step :
      (s : Session E) (next : State) (reason : String) (details : Json) (now : ℕ)
      → allowed s.action.state next ≡ true
      → P s
      → P
          (record (with_event rail "STATE_TRANSITION" "rail"
            (transition_payload rail s.action.state next reason details)
            now
            s) { action = record s.action { state = next } })

module _ {E : Type 0} {P : Session E → Type 0} where
  module _ {A : Type 0} where
    pub Keeps-peek : (f : E → Result A) → Keeps P (peek f)
    unfolding peek
    Keeps-peek f = record { at = λ s p. p }

    pub Keeps-gets : (f : ActionRecord → _ → A) → Keeps P (gets f)
    unfolding gets
    Keeps-gets f = record { at = λ s p. p }

    pub Keeps-lift : (r : Result A) → Keeps P (lift r)
    unfolding lift
    Keeps-lift r = record { at = λ s p. p }

    pub Keeps-throw : (e : Thrown) → Keeps P (throw {A = A} e)
    unfolding throw
    Keeps-throw e = record { at = λ s p. p }

    pub Keeps-pure : (a : A) → Keeps P (pure a)
    unfolding pure
    Keeps-pure a = record { at = λ s p. p }

    pub Keeps-if :
        (b : Bool) {m n : Method E A} → Keeps P m → Keeps P n → Keeps P (if b then m else n)
    Keeps-if true km kn = km
    Keeps-if false km kn = kn

    Keeps-recover :
        (r : Result A) (h : Thrown → Method E A)
        → ((e : Thrown) → Keeps P (h e))
        → Keeps P (recover r h)
    Keeps-recover (ok a) h kh = record { at = λ s p. p }
    Keeps-recover (err e) h kh = kh e

    pub Keeps-attempt :
        {m : Method E A} {h : Thrown → Method E A}
        → Keeps P m
        → ((e : Thrown) → Keeps P (h e))
        → Keeps P (attempt m h)
    unfolding attempt
    Keeps-attempt {m} {h} km kh = record {
      at = λ s p. let (r, s') = m s in (Keeps-recover r h kh).at s' (km.at s p);
    }

  module _ {A B : Type 0} where
    Keeps-go_on :
        (r : Result A) (f : A → Method E B) → ((a : A) → Keeps P (f a)) → Keeps P (go_on r f)
    Keeps-go_on (ok a) f kf = kf a
    Keeps-go_on (err e) f kf = record { at = λ s p. p }

    pub Keeps-bind :
        {m : Method E A} {f : A → Method E B}
        → Keeps P m
        → ((a : A) → Keeps P (f a))
        → Keeps P (m >>= f)
    unfolding ◌>>=◌
    Keeps-bind {m} {f} km kf = record {
      at = λ s p. let (r, s') = m s in (Keeps-go_on r f kf).at s' (km.at s p);
    }

module _ {E : Type 0} {rail : Rail E} {P : Session E → Type 0} (stable : Stable rail P) where
  pub Keeps-call : {A : Type 0} (f : Call E A) → Keeps P (call f)
  unfolding call
  Keeps-call f = record { at = λ s h. stable.outside s (f s.env).1 h }

  pub Keeps-assign : (f : ActionRecord → ActionRecord) → Keeps P (assign f)
  unfolding assign
  Keeps-assign f = record { at = λ s h. stable.field s f h }

  pub Keeps-event :
      (event_type actor : String) (payload : Json)
      → is_transition_type event_type ≡ false
      → Keeps P (append_event rail event_type actor payload)
  unfolding append_event
  Keeps-event event_type actor payload plain = record {
    at = λ s h. stable.event _ event_type actor payload _ plain (stable.outside s _ h);
  }

  pub Keeps-transition :
      (next : State) (reason : String) (details : Json)
      → Keeps P (transition rail next reason details)
  unfolding transition
  Keeps-transition next reason details = record {
    at = λ s h. elim (Bool-cases (allowed s.action.state next)) [
      | inl e ↦
          let (now, env) = rail.now s.env in
          rw e (
            stable.step (record s { env = env }) next reason details now e (stable.outside s env h))
      | inr e ↦ rw e h
    ];
  }

pub ruleset keeps_rules = (
  Keeps-pure, Keeps-throw, Keeps-lift, Keeps-gets, Keeps-peek, Keeps-if, Keeps-attempt, Keeps-bind,
)
