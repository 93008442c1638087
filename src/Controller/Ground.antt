-- ===== src/Controller/Ground.antt =====
-- On the ground: `request_clearance`, `clearance_read_back`, `taxi_in`, `request_taxi` and
-- `report_holding_short` of src/marshall/atc/controller.py, and `get`, of a callsign that has been resolved.
-- The words of `_atis_phrase`, and the seat that `R.station_for` finds, are arguments.
mod Tests
use marshall.Prelude.{
  ℕ, String, Bool, true, false, not, ◌&&◌, ◌||◌, Option, none, some, List, [], ◌∷◌, ◌++◌, ◌==◌,
  find_first, is_in, if◌then◌else◌,
}
use marshall.Prelude.Dict
use marshall.Names
use marshall.Stations.{Station}
use marshall.Controller.{
  unknown, Aircraft, advise_atis, say_again, taxi, parking, refuse, Engine, write, say, anomaly,
  key,
}
use marshall.Controller.Runway.{is_seen, free_runway, owns}

-- Aircraft(key), with the defaults of its class
unfoldable pub new_aircraft : String → Aircraft
new_aircraft callsign = record {
  callsign = callsign;
  phase = unknown;
  sortie_phase = "";
  assigned_ft = none;
  cleared_ft = none;
  profile = none;
  last_report_t = 0;
  approaches = 0;
  map_t = none;
  has_been_airborne = false;
  runway_vacated = false;
  following = false;
  following_to = "";
  following_leg = 0;
  track = "";
  clearance_agreed = none;
  radar_identified = false;
  on_visual = false;
}

-- Controller.get
unfoldable pub get_aircraft : String → Engine → Aircraft
get_aircraft callsign e = elim (Dict.get e.aircraft callsign) [
  | some ac ↦ ac
  | none ↦ new_aircraft callsign
]

-- Controller._seen_holder, with nobody left out
unfoldable pub seen_anyone : Engine → String → List String → Option Aircraft
seen_anyone e k [] = none
seen_anyone e k (label ∷ labels) =
    elim (find_first (λ o. key e (some o) == k && is_seen label o) (Dict.values e.aircraft)) [
      | some other ↦ some other
      | none ↦ seen_anyone e k labels
    ]

-- Is he himself on the strip, by radar?
unfoldable pub is_still_on : Aircraft → Engine → Bool
is_still_on ac e =
    let k = key e (some ac) in
    elim (Dict.get e.seen_on_runway (Names.squash k)) [
      | none ↦ false
      | some labels ↦ elim (seen_anyone e k labels) [
        | none ↦ false
        | some there ↦ there.callsign == ac.callsign
      ]
    ]

-- D.Decision(kind="advise_atis", ...) if letter else None
abbrev advised : String → String → Engine → Engine
advised callsign letter e = if letter == "" then e else say (advise_atis callsign letter) e

-- Controller.request_clearance, by the ATIS phrase and the letter in it
unfoldable pub request_clearance : String → String → Aircraft → Engine → Engine
request_clearance extra letter ac e =
    let e1 = write (record ac { sortie_phase = "clearance"; last_report_t = e.t }) e in
    if extra == "" then e1 else advised ac.callsign letter e1

-- Controller.clearance_read_back
unfoldable pub clearance_read_back : Option Bool → List String → Aircraft → Engine → Engine
clearance_read_back (some true) missed ac e =
    write (record ac { last_report_t = e.t; sortie_phase = "taxi"; clearance_agreed = some true }) e
clearance_read_back (some false) [] ac e = write (record ac { last_report_t = e.t }) e
clearance_read_back (some false) (m ∷ ms) ac e =
    say (say_again ac.callsign (m ∷ ms)) (write (record ac { last_report_t = e.t }) e)
clearance_read_back none missed ac e = write (record ac { last_report_t = e.t }) e

-- Controller.taxi_in, by whether there is a Ground seat
unfoldable pub taxi_in : Option Station → Option Station → Aircraft → Engine → Engine
taxi_in me gnd ac e =
    let here = record ac { sortie_phase = "taxi_in"; last_report_t = e.t } in
    let off = record here { runway_vacated = true } in
    let e1 =
      if is_still_on ac e
      then write here (anomaly ac.callsign e)
      else write off (free_runway (key e (some ac)) e) in
    if owns me "ground"
    then say (parking ac.callsign) e1
    else elim gnd [ none ↦ e1 | some g ↦ say (refuse ac.callsign "ground") e1 ]

abbrev pub has_agreed : Option Bool → Bool
has_agreed none = false
has_agreed (some b) = b

-- Controller.request_taxi
unfoldable pub request_taxi : Option Station → Aircraft → Engine → Engine
request_taxi me ac e =
    let here = record ac { sortie_phase = "taxi"; last_report_t = e.t } in
    if not (owns me "ground")
    then say (refuse ac.callsign "ground") (write here e)
    else if not (has_agreed ac.clearance_agreed)
    then say (refuse ac.callsign "clearance") (write (record here { sortie_phase = "clearance" }) e)
    else say (taxi ac.callsign) (write here e)

-- Controller.report_holding_short
unfoldable pub report_holding_short : Aircraft → Engine → Engine
report_holding_short ac e =
    write (record ac { sortie_phase = "holding_short"; last_report_t = e.t }) e

-- Controller.note_clearance_agreed, of an aircraft that is on the board
unfoldable pub note_clearance_agreed : String → Bool → Engine → Engine
note_clearance_agreed callsign agreed e = elim (Dict.get e.aircraft callsign) [
  | none ↦ e
  | some ac ↦ write (record ac { clearance_agreed = some agreed }) e
]
