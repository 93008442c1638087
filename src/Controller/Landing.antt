-- ===== src/Controller/Landing.antt =====
-- Down and off the runway: `report_landed`, `report_down`, `request_breakup` and `end_following` of
-- src/marshall/atc/controller.py. `R.station_for`, which finds a seat among the theatre's, is an
-- argument by its answer.
mod Tests
use marshall.Prelude.{
  String, Bool, true, false, not, ◌&&◌, ◌||◌, Option, none, some, List, [], ◌∷◌, ◌==◌, is_in, lower,
  if◌then◌else◌,
}
use marshall.Prelude.Dict
use marshall.Stations.{Station}
use marshall.Controller.{
  landed, is_landed, Aircraft, handoff, continue_approach, following_ends, Engine, write, say,
  anomaly,
}
use marshall.Controller.Sequence.{try_clear, give_up}
use marshall.Controller.Runway.{take_runway, who_is_on_the_runway}

-- Controller._ground_at, of what the search for a ground seat finds
unfoldable pub ground_at : String → Option Station → Option Station
ground_at fld found = if fld == "" then none else found

abbrev role_of : Option Station → String
role_of none = ""
role_of (some me) = me.role

abbrev also_of : Option Station → List String
also_of none = []
also_of (some me) = me.also

abbrev pub seat_field : Option Station → String
seat_field none = ""
seat_field (some me) = me.field

abbrev same_seat : Station → Option Station → Bool
same_seat g none = false
same_seat g (some me) = g.name == me.name

-- Controller._must_be_told
unfoldable pub must_be_told : Aircraft → Option Station → Option Station → Bool
must_be_told ac me none = false
must_be_told ac me (some g) =
    if lower ac.sortie_phase == "taxi_in"
    then false
    else if is_in "ground" (role_of me ∷ also_of me)
    then false
    else not (same_seat g me)

-- Where he is in the sortie once he is down.
unfoldable pub phase_when_down : Option Station → String → String
phase_when_down (some g) now = "taxi_in"
phase_when_down none now = if lower now == "taxi_in" then now else "landed"

abbrev pub down : Aircraft → Engine → Aircraft
down ac e = record ac { phase = landed; last_report_t = e.t; map_t = none }

abbrev pub down_on_board : Aircraft → Engine → Engine
down_on_board ac e = give_up (down ac e) (write (down ac e) e)

-- Controller.report_down, once `get` has found the aircraft
unfoldable pub report_down : Option Station → Option Station → Aircraft → Engine → Engine
report_down me found ac e =
    let here = down ac e in
    let gnd = ground_at (seat_field me) found in
    let tell = must_be_told here me gnd in
    let e1 =
      write (record here { sortie_phase = phase_when_down gnd here.sortie_phase })
        (down_on_board ac e) in
    try_clear none none (if tell then say (handoff ac.callsign "ground") e1 else e1)

-- The answer to a landing call, once Tower has asked who is on the runway.
unfoldable pub answer_landing : Aircraft → Engine × Option String → Engine
answer_landing ac (e, some who) = try_clear none none (say (continue_approach ac.callsign) e)
answer_landing ac (e, none) = try_clear none none (take_runway ac e)

abbrev pub never_flew : Aircraft → Bool
never_flew ac =
    is_in (lower ac.sortie_phase) ("clearance" ∷ "taxi" ∷ "holding_short" ∷ [])
    && not ac.has_been_airborne

-- `self.working and twr is not None and self.working != "tower"`
unfoldable pub works_elsewhere : String → Option Station → Bool
works_elsewhere working none = false
works_elsewhere working (some twr) = not (working == "") && not (working == "tower")

-- Controller.report_landed, once `get` has found the aircraft
unfoldable pub report_landed :
    String → Option Station → Option Station → Option Station → Aircraft → Engine → Engine
report_landed working me twr found ac e =
    if is_landed ac.phase
    then report_down me found ac e
    else if never_flew ac
    then anomaly ac.callsign e
    else if works_elsewhere working twr
    then try_clear none none (down_on_board ac e)
    else answer_landing (down ac e) (who_is_on_the_runway (down ac e) (down_on_board ac e))

-- Controller.end_following, once `get` has found the aircraft
unfoldable pub end_following : Bool → Aircraft → Engine → Engine
end_following service_over ac e =
    if not ac.following && not service_over
    then e
    else say (following_ends ac.callsign)
        (write (record ac { following = false; following_to = ""; following_leg = 0 }) e)
