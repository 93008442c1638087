-- ===== src/Controller/Runway.antt =====
-- Who has the runway, in src/marshall/atc/controller.py. An aircraft is told from another by its
-- callsign, under which it stands on the board.
use marshall.Prelude.{
  String, Bool, true, false, not, ◌&&◌, ◌||◌, Option, none, some, List, [], ◌∷◌, ◌==◌, find_first,
  keep, is_in, lower, if◌then◌else◌,
}
use marshall.Prelude.Dict
use marshall.Prelude.Dict.{Dict}
use marshall.Names
use marshall.Stations.{Station}
use marshall.Controller.{
  is_landed, Aircraft, hold_short, cleared_takeoff, refuse, Engine, write, say, key, in_letdown,
  set_letdown,
}

-- Controller._done_with_it
unfoldable pub done_with_it : Aircraft → Bool
done_with_it ac =
    let ph = lower ac.sortie_phase in
    if is_in ph ("landed" ∷ "taxi_in" ∷ []) || is_landed ac.phase
    then ac.runway_vacated
    else if ph == "departure"
    then ac.has_been_airborne
    else true

-- Controller.note_on_the_runway
unfoldable pub note_on_the_runway : String → Option (List String) → Engine → Engine
note_on_the_runway field_name none e = record e {
  seen_on_runway = Dict.remove e.seen_on_runway (Names.squash field_name);
}
note_on_the_runway field_name (some who) e = record e {
  seen_on_runway =
      Dict.put e.seen_on_runway (Names.squash field_name) (keep (λ w. not (w == "")) who);
}

-- Another aircraft that recovers to the same aerodrome.
unfoldable pub other_here : Engine → Aircraft → Aircraft → Bool
other_here e ac other = not (other.callsign == ac.callsign) && key e (some other) == key e (some ac)

unfoldable pub is_seen : String → Aircraft → Bool
is_seen label other = Names.same label other.track || Names.same label other.callsign

-- Controller._seen_holder
unfoldable pub seen_holder : Engine → Aircraft → List String → Option Aircraft
seen_holder e ac [] = none
seen_holder e ac (label ∷ labels) =
    elim (find_first (λ o. other_here e ac o && is_seen label o) (Dict.values e.aircraft)) [
      | some other ↦ some other
      | none ↦ seen_holder e ac labels
    ]

unfoldable pub take_runway : Aircraft → Engine → Engine
take_runway ac e = record e {
  runway_by = Dict.put e.runway_by (key e (some ac)) ac.callsign;
  runway_since_by = Dict.put e.runway_since_by (key e (some ac)) e.t;
}

unfoldable pub free_runway : String → Engine → Engine
free_runway k e = record e {
  runway_by = Dict.remove e.runway_by k;
  runway_since_by = Dict.remove e.runway_since_by k;
}

-- d.setdefault(k, v)
abbrev pub set_default {ℓ} : {V : Type ℓ} → Dict V → String → V → Dict V
set_default d k v = elim (Dict.get d k) [ some w ↦ d | none ↦ Dict.put d k v ]

unfoldable pub adopt_seen : String → String → Engine → Engine
adopt_seen k there e = record e {
  runway_by = set_default e.runway_by k there;
  runway_since_by = set_default e.runway_since_by k e.t;
}

unfoldable pub vacate : Aircraft → Engine → Engine
vacate gone e = if done_with_it gone then e else write (record gone { runway_vacated = true }) e

-- Radar looked, and nobody else stands on the strip.
unfoldable pub strip_is_empty : Aircraft → Engine → Engine
strip_is_empty ac e =
    let k = key e (some ac) in
    elim (Dict.get e.runway_by k) [
      | none ↦ e
      | some held ↦
          if held == ac.callsign
          then e
          else free_runway k
              (elim (Dict.get e.aircraft held) [ none ↦ e | some gone ↦ vacate gone e ])
    ]

-- An aircraft that got onto the strip without a clearance.
unfoldable pub adopt_other : Aircraft → Engine → Engine × Option String
adopt_other ac e =
    elim (find_first (λ o. other_here e ac o && not (done_with_it o)) (Dict.values e.aircraft)) [
      | none ↦ (e, none)
      | some other ↦ (take_runway other e, some other.callsign)
    ]

-- Nobody has looked: the recorded holder, or whoever is on the strip by the board.
unfoldable pub by_the_board : Aircraft → Engine → Engine × Option String
by_the_board ac e =
    let k = key e (some ac) in
    let rest = adopt_other ac e in
    let freed = adopt_other ac (free_runway k e) in
    elim (Dict.get e.runway_by k) [
      | none ↦ rest
      | some who ↦ elim (Dict.get e.aircraft who) [
        | none ↦ freed
        | some holder ↦
            if done_with_it holder
            then freed
            else if holder.callsign == ac.callsign
            then (e, none)
            else (e, some who)
      ]
    ]

-- Controller.who_is_on_the_runway
unfoldable pub who_is_on_the_runway : Aircraft → Engine → Engine × Option String
who_is_on_the_runway ac e =
    let k = key e (some ac) in
    elim (Dict.get e.seen_on_runway (Names.squash k)) [
      | none ↦ by_the_board ac e
      | some labels ↦ elim (seen_holder e ac labels) [
        | some there ↦ (adopt_seen k there.callsign e, some there.callsign)
        | none ↦ (strip_is_empty ac e, none)
      ]
    ]

-- Controller._owns, of the seat that works the call
unfoldable pub owns : Option Station → String → Bool
owns none role = true
owns (some me) role = me.role == "" || (me.role == role || is_in role me.also)

-- The answer of Tower, once it has asked who is on the runway.
unfoldable pub answer_takeoff : Aircraft → Engine × Option String → Engine
answer_takeoff ac (e, some who) = say (hold_short ac.callsign) e
answer_takeoff ac (e, none) =
    say (cleared_takeoff ac.callsign)
      (write (record ac { sortie_phase = "departure" }) (take_runway ac e))

-- Controller.request_takeoff, once `get` has found the aircraft
unfoldable pub request_takeoff : Option Station → Aircraft → Engine → Engine
request_takeoff me ac e =
    let here = record ac { last_report_t = e.t } in
    let e' = write here e in
    if owns me "tower"
    then answer_takeoff here (who_is_on_the_runway here e')
    else say (refuse ac.callsign "tower") e'

-- Controller.release
unfoldable pub release : String → Engine → Engine × Bool
release callsign e = elim (Dict.get e.aircraft callsign) [
  | none ↦ (e, false)
  | some ac ↦
      let k = key e (some ac) in
      let held : Bool = elim (Dict.get e.runway_by k) [
        | none ↦ false
        | some who ↦ who == callsign
      ] in
      let e1 = if held then free_runway k e else e in
      let down : Bool = elim (in_letdown e1 (some ac)) [
        | none ↦ false
        | some who ↦ who == callsign
      ] in
      let e2 = if down then set_letdown (some ac) none e1 else e1 in
      (record e2 { aircraft = Dict.remove e2.aircraft callsign }, true)
]
