-- ===== src/Controller/Clock.antt =====
-- What time alone does to the board, `tick` of src/marshall/atc/controller.py: the point of the missed
-- approach, and the limits on a runway, a letdown and a silence.
use marshall.Prelude.{
  ℕ, ◌+◌, ◌-◌, ◌*◌, String, Bool, true, false, ◌||◌, ◌&&◌, not, Option, none, some, List, [], ◌∷◌,
  keep, leb, if◌then◌else◌,
}
use marshall.Prelude.Dict
use marshall.Prelude.Dict.{Dict}
use marshall.Controller.{is_holding, is_missed, Aircraft, Engine, write, anomaly}
use marshall.Controller.Sequence.{do_missed, after_missed, try_clear}
use marshall.Controller.Runway.{free_runway}

-- CLEARANCE_TIMEOUT_SEC, RUNWAY_HOLD_SEC and REPORT_OVERDUE_SEC
abbrev pub clearance_timeout_sec : ℕ
clearance_timeout_sec = 12 * 60

abbrev pub runway_hold_sec : ℕ
runway_hold_sec = 5 * 60

abbrev pub report_overdue_sec : ℕ
report_overdue_sec = 5 * 60

-- t - d.get(k, 0.0), of a time that is not in the future
unfoldable pub held_for : ℕ → Dict ℕ → String → ℕ
held_for t since k = t - (elim (Dict.get since k) [ none ↦ 0 | some s ↦ s ])

-- Controller._station_passage
unfoldable pub station_passage : Aircraft → Engine → Bool × Engine
station_passage ac e = after_missed (do_missed ac e)

-- One round of the loop, and whether it ends without an exception
unfoldable pub pass : String → Engine → Bool × Engine
pass cs e = elim (Dict.get e.aircraft cs) [
  | none ↦ (true, e)
  | some ac ↦ elim ac.map_t [
    | none ↦ (true, e)
    | some due ↦ if leb due e.t then station_passage ac e else (true, e)
  ]
]

-- for cs in list(self._letdown_by.values())
unfoldable pub pass_each : List String → Engine → Bool × Engine
pass_each [] e = (true, e)
pass_each (cs ∷ rest) e =
    let on = pass_each rest (pass cs e).1 in if (pass cs e).0 then on else pass cs e

-- for key, cs in list(d.items()): the rows are those that were there when the loop began
unfoldable pub for_items : (String → String → Engine → Engine) → Dict String → Engine → Engine
for_items body [] e = e
for_items body ((k, cs) ∷ rows) e = for_items body rows (body k cs e)

unfoldable pub off_the_runway : String → Engine → Engine
off_the_runway cs e = elim (Dict.get e.aircraft cs) [
  | none ↦ e
  | some ac ↦ write (record ac { runway_vacated = true }) e
]

unfoldable pub time_runway : String → String → Engine → Engine
time_runway k cs e =
    if leb (held_for e.t e.runway_since_by k) runway_hold_sec
    then e
    else free_runway k (off_the_runway cs (anomaly cs e))

-- self._letdown_by.pop(key, None), and when it was given
unfoldable pub take_back : String → Engine → Engine
take_back k e = record e {
  letdown_by = Dict.remove e.letdown_by k;
  letdown_since_by = Dict.remove e.letdown_since_by k;
}

abbrev pub unassigned : Aircraft → Aircraft
unassigned ac = record ac { assigned_ft = none }

unfoldable pub give_on : String → String → Engine → Engine
give_on k cs e = elim (Dict.get e.aircraft cs) [
  | none ↦ try_clear none none (take_back k e)
  | some ac ↦ try_clear none (some (unassigned ac)) (take_back k (write (unassigned ac) e))
]

unfoldable pub time_letdown : String → String → Engine → Engine
time_letdown k cs e =
    if leb (held_for e.t e.letdown_since_by k) clearance_timeout_sec then e else give_on k cs e

unfoldable pub is_overdue : ℕ → Aircraft → Bool
is_overdue t a =
    (is_holding a.phase || is_missed a.phase) && not (leb (t - a.last_report_t) report_overdue_sec)

-- max(overdue, key=lambda a: self.t - a.last_report_t): the first of the greatest
unfoldable pub quietest : ℕ → List Aircraft → Option Aircraft
quietest t [] = none
quietest t (a ∷ bs) = elim (quietest t bs) [
  | none ↦ some a
  | some b ↦ if leb (t - b.last_report_t) (t - a.last_report_t) then some a else some b
]

unfoldable pub prompt : Engine → Engine
prompt e = elim (quietest e.t (keep (is_overdue e.t) (Dict.values e.aircraft))) [
  | none ↦ e
  | some ac ↦ write (record ac { last_report_t = e.t }) e
]

-- What `tick` does once the missed approaches are called.
unfoldable pub time_limits : Engine → Engine
time_limits e1 =
    let e2 = for_items time_runway e1.runway_by e1 in
    let e3 = for_items time_letdown e2.letdown_by e2 in prompt e3

-- Controller.tick, and whether it ends without an exception
unfoldable pub tick : ℕ → Engine → Bool × Engine
tick seconds e =
    let e0 = record e { t = e.t + seconds } in
    let (done, e1) = pass_each (Dict.values e0.letdown_by) e0 in
    if done then (true, time_limits e1) else (false, e1)
