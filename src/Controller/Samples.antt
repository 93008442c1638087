-- ===== src/Controller/Samples.antt =====
-- A few arrivals at one aerodrome, for the tests of the board.
use marshall.Prelude.{ℕ, String, true, false, Option, none, some, List, [], ◌∷◌}
use marshall.Controller.{Phase, enroute, holding, Approach, Aircraft, Engine}

abbrev pub batumi : Approach
batumi = record {
  aerodrome = "Batumi";
  stack_ft = 4000 ∷ 5000 ∷ 6000 ∷ 7000 ∷ [];
  missed_ft = 3000;
  final_approach_sec = 90;
  may_vector = true;
}

abbrev pub arrival : String → Phase → Option ℕ → Aircraft
arrival callsign phase assigned_ft = record {
  callsign = callsign;
  phase = phase;
  sortie_phase = "approach";
  assigned_ft = assigned_ft;
  cleared_ft = none;
  profile = some batumi;
  last_report_t = 0;
  approaches = 0;
  map_t = none;
  has_been_airborne = true;
  runway_vacated = false;
  following = false;
  following_to = "";
  following_leg = 0;
  track = "";
  clearance_agreed = none;
  radar_identified = true;
  on_visual = false;
}

abbrev filed : List Aircraft → List (String × Aircraft)
filed [] = []
filed (a ∷ bs) = (a.callsign, a) ∷ filed bs

abbrev pub board : List Aircraft → Engine
board aircraft = record {
  aircraft = filed aircraft;
  profile = some batumi;
  letdown_by = [];
  letdown_since_by = [];
  runway_by = [];
  runway_since_by = [];
  seen_on_runway = [];
  anomalies = [];
  decided = [];
  t = 100;
}

abbrev pub alpha : Aircraft
alpha = arrival "Alpha 1" holding (some 4000)

abbrev pub bravo : Aircraft
bravo = arrival "Bravo 1" holding (some 5000)

abbrev pub coming : Aircraft
coming = arrival "Coming 1" enroute none

abbrev pub quiet : Engine
quiet = board (alpha ∷ coming ∷ [])
