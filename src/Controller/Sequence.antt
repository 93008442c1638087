-- ===== src/Controller/Sequence.antt =====
-- Who is cleared next, and how the stack steps down, in src/marshall/atc/controller.py.
use marshall.Prelude.{
  ℕ, suc, zero, ◌+◌, String, Bool, true, false, not, ◌&&◌, Option, none, some, List, [], ◌∷◌, ◌==◌,
  keep, leb, eqb, is_in, if◌then◌else◌,
}
use marshall.Prelude.Dict
use marshall.Prelude.Dict.{Dict}
use marshall.Approach.{last_of}
use marshall.Controller.{
  Phase, unknown, enroute, holding, cleared, missed, landed, is_holding, Aircraft, hold, level,
  continue_hold, cleared_approach, Engine, write, say, anomaly, pro, key, in_letdown, set_letdown,
  level_of, level_in, levels_of, holds_here, holders, spoken_for, stack_of, free_slot,
  the_approach_takes_over, next_up,
}

-- sorted({a.assigned_ft for a in holders}): the holders stand in the order of their levels
unfoldable pub distinct : List ℕ → List ℕ
distinct [] = []
distinct (x ∷ xs) = let rest = distinct xs in if level_in x rest then rest else x ∷ rest

unfoldable pub free_levels : Engine → Option Aircraft → List ℕ
free_levels e ref = keep (λ ft. not (level_in ft (spoken_for e ref))) (stack_of e ref)

abbrev pub at_level : ℕ → Aircraft → Aircraft
at_level ft a = record a { assigned_ft = some ft }

-- for ac in movers: ac.assigned_ft = want
unfoldable pub moved : Engine → Option Aircraft → ℕ → ℕ → Dict Aircraft → Dict Aircraft
moved e ref from want [] = []
moved e ref from want ((k, a) ∷ d) =
    let rest = moved e ref from want d in
    if holds_here e ref a && eqb (level_of a) from
    then (k, at_level want a) ∷ rest
    else (k, a) ∷ rest

unfoldable pub step_level : Option Aircraft → ℕ → ℕ → Engine → Engine
step_level ref from want e =
    if eqb from want then e else record e { aircraft = moved e ref from want e.aircraft }

-- the loop of Controller._step_down over the levels that were held when it began
unfoldable pub step_levels : Option Aircraft → List ℕ → List ℕ → Engine → Engine
step_levels ref [] free e = e
step_levels ref (l ∷ levels) [] e = e
step_levels ref (l ∷ levels) (want ∷ free) e = step_levels ref levels free (step_level ref l want e)

-- Controller._step_down
unfoldable pub step_down : Option Aircraft → Engine → Engine
step_down ref e = step_levels ref (distinct (levels_of (holders e ref))) (free_levels e ref) e

abbrev pub on_approach : ℕ → Aircraft → Aircraft
on_approach t a = the_approach_takes_over (record a { phase = cleared; last_report_t = t })

-- Somebody asks while the letdown is his already.
unfoldable pub continue_him : String → Engine → Engine
continue_him by e = elim (Dict.get e.aircraft by) [
  | none ↦ e
  | some ac ↦ if is_holding ac.phase then write (on_approach e.t ac) (anomaly by e) else e
]

-- Somebody asks while the letdown is another's.
unfoldable pub number_two : String → Engine → Engine
number_two by e =
    say
      (continue_hold by (elim (Dict.get e.aircraft by) [ some ac ↦ ac.assigned_ft | none ↦ none ]))
      e

unfoldable pub clear_next : Aircraft → Engine → Engine
clear_next ac e =
    let his = on_approach e.t ac in
    let done =
      say (cleared_approach ac.callsign)
        (set_letdown (some his) (some ac.callsign) (write his e)) in
    if is_holding ac.phase then step_down (some his) done else done

-- Controller._try_clear_one
unfoldable pub try_clear_one : Option String → Option Aircraft → Engine → Engine
try_clear_one requested_by ref e = elim (in_letdown e ref) [
  | some who ↦ elim requested_by [
    | none ↦ e
    | some by ↦ if by == who then continue_him by e else number_two by e
  ]
  | none ↦ elim (next_up e ref) [ none ↦ e | some ac ↦ clear_next ac e ]
]

-- one stack at a time, each once
unfoldable pub try_each : List Aircraft → List String → Engine → Engine
try_each [] seen e = e
try_each (a ∷ bs) seen e =
    let k = key e (some a) in
    let skip = try_each bs seen e in
    let go = try_each bs (k ∷ seen) (try_clear_one none (some a) e) in
    if is_in k seen then skip else go

-- Controller._try_clear
unfoldable pub try_clear : Option String → Option Aircraft → Engine → Engine
try_clear requested_by (some ref) e = try_clear_one requested_by (some ref) e
try_clear (some by) none e = try_clear_one (some by) (Dict.get e.aircraft by) e
try_clear none none e = elim (Dict.values e.aircraft) [
  | [] ↦ try_clear_one none none e
  | a ∷ bs ↦ try_each (a ∷ bs) [] e
]

-- An arrival over the beacon enters the stack, when it has room.
unfoldable pub place : Aircraft → Engine → Engine
place ac e = elim (free_slot (write ac e) (some ac)) [
  | none ↦ write ac e
  | some slot ↦ try_clear none none (
      say (hold ac.callsign slot)
        (write (record ac { phase = holding; assigned_ft = some slot }) e))
]

-- On the approach, it starts the clock of the missed approach point.
unfoldable pub time_passage : Aircraft → Engine → Engine
time_passage ac e =
    let final : ℕ = elim (pro e (some ac)) [ none ↦ 0 | some p ↦ p.final_approach_sec ] in
    write (record ac { map_t = some (e.t + final) }) e

-- Aircraft.governing_ft
unfoldable pub governing_ft : Aircraft → Option ℕ
governing_ft ac = elim ac.assigned_ft [ some ft ↦ some ft | none ↦ ac.cleared_ft ]

-- `if x` of an altitude: neither None nor 0
abbrev pub told : Option ℕ → Option ℕ
told none = none
told (some zero) = none
told (some (suc n)) = some (suc n)

-- The level that is spoken: the one he is held to if he is not there, and else his own.
unfoldable pub spoken_level : Option ℕ → Option ℕ → Option ℕ
spoken_level (some ft) (some want) = some (if eqb ft want then ft else want)
spoken_level (some ft) none = some ft
spoken_level none (some want) = some want
spoken_level none none = none

unfoldable pub check_level : Aircraft → Option ℕ → Engine → Engine
check_level ac altitude_ft e = elim (spoken_level (told altitude_ft) (told (governing_ft ac))) [
  | none ↦ write ac e
  | some ft ↦ say (level ac.callsign ft) (write ac e)
]

unfoldable pub by_report : Phase → Aircraft → Option ℕ → Engine → Engine
by_report unknown ac altitude_ft e = place ac e
by_report enroute ac altitude_ft e = place ac e
by_report cleared ac altitude_ft e = time_passage ac e
by_report holding ac altitude_ft e = check_level ac altitude_ft e
by_report missed ac altitude_ft e = check_level ac altitude_ft e
by_report landed ac altitude_ft e = check_level ac altitude_ft e

-- Controller.report_beacon, once `get` has found the aircraft
unfoldable pub report_beacon : Aircraft → Option ℕ → Engine → Engine
report_beacon ac altitude_ft e =
    by_report ac.phase (record ac { last_report_t = e.t }) altitude_ft e

-- if self._in_letdown(ac) == ac.callsign: self._set_letdown(ac, None)
unfoldable pub give_up : Aircraft → Engine → Engine
give_up ac e = elim (in_letdown e (some ac)) [
  | none ↦ e
  | some who ↦ if who == ac.callsign then set_letdown (some ac) none e else e
]

abbrev pub tried_again : Aircraft → ℕ → Aircraft
tried_again ac t = record ac { approaches = 1 + ac.approaches; last_report_t = t; map_t = none }

-- getattr(pro, "top_ft", None), and nothing where that raises
unfoldable pub outer_level : Aircraft → Engine → Option (Option ℕ)
outer_level ac e = elim (pro e (some ac)) [
  | none ↦ some none
  | some p ↦ elim (last_of p.stack_ft) [ none ↦ none | some ft ↦ some (some ft) ]
]

-- To the outer hold, and back to the front of the line.
abbrev pub banished : Aircraft → Option ℕ → Engine → Aircraft
banished ac ft e = record (tried_again ac e.t) { phase = holding; assigned_ft = ft }

abbrev pub gone_around : Aircraft → Engine → Aircraft
gone_around ac e = record (tried_again ac e.t) {
  phase = missed;
  assigned_ft = elim (pro e (some ac)) [ none ↦ none | some p ↦ some p.missed_ft ];
}

-- Controller._do_missed: whether he is sent to the outer hold, nothing where it raises, and the board,
-- on which what was written before that stands
unfoldable pub do_missed : Aircraft → Engine → Option Bool × Engine
do_missed ac e =
    if leb 2 (1 + ac.approaches)
    then elim (outer_level ac e) [
      | none ↦ (none, write (tried_again ac e.t) (give_up ac e))
      | some ft ↦ (some true, write (banished ac ft e) (give_up ac e))
    ]
    else (some false, write (gone_around ac e) (give_up ac e))

-- The clearances after a missed approach, and whether it comes to them.
unfoldable pub after_missed : Option Bool × Engine → Bool × Engine
after_missed (none, e) = (false, e)
after_missed (some banished, e) = (true, try_clear none none e)
