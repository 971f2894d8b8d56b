-- ===== src/Connector/Recourse.antt =====
-- The recourse that a connector holds, once a remedy has consumed it.
use consequence_rail.Base.{
  ◌≡◌, refl, false, String, Option, none, some, Dict, lookup, lookup-insert_self,
}
use consequence_rail.Rail.Records.{RecourseState}
use consequence_rail.Connector.{Held, held_active, set_status}

pub consumed-ends :
    (token : String) (o : Option Held) (held : Dict Held)
    → lookup token held ≡ o
    → held_active (lookup token (set_status token RecourseState.consumed o held)) ≡ false
consumed-ends token none held e = rw e refl
consumed-ends token (some h) held e =
    rw (lookup-insert_self token (record h { status = RecourseState.consumed }) held) refl
