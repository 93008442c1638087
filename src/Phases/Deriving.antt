-- ===== src/Phases/Deriving.antt =====
-- What `derive` of src/marshall/atc/phases.py may and may not do to a phase.
use marshall.Prelude.{
  String, ◌≡◌, Bool, true, false, ◌&&◌, ◌||◌, none, some, ◌⊎◌, ◌==◌, is_in, lower, arith, eq_iff,
  if◌then◌else◌,
}
use marshall.Phases.{
  may_follow, has_flown, airborne_only, straddles, Facts, wanted, settle, derive, Derived,
}
use marshall.Phases.Table.{may_follow-landed}

-- Nothing to transition from.
abbrev pub Fresh : String → Type 0
Fresh current = (current ≡ "") ⊎ (current ≡ "unknown")

-- How a phase may be left for the one that the facts want.
abbrev pub Allowed : String → String → Type 0
Allowed current want = (want ≡ current) ⊎ Fresh current ⊎ (may_follow current want ≡ true)

-- What the facts want, as `derive` asks it.
abbrev pub want_of : String → Facts → String
want_of current f =
    wanted current f.on_ground (lower f.separation) f.was_airborne (lower f.worked_by)

abbrev pub Outcome : String → String → Derived → Type 0
Outcome current want d =
    ((want ≡ "") × (d.phase ≡ current) × (d.refused ≡ none))
    ⊎ ((d.phase ≡ want) × (d.refused ≡ none) × Allowed current want)
    ⊎ ((d.phase ≡ current) × (d.refused ≡ some (current, want)) × (may_follow current want ≡ false))

settle-Outcome : (current want : String) → Outcome current want (settle current want)
unfolding settle
settle-Outcome current want =
    ground (arith, eq_iff current "", eq_iff current "unknown", eq_iff want "", eq_iff want current)

-- Every call of `derive` ends in one of three ways. The facts want nothing, and the phase stands.
-- Or the phase becomes the wanted one, which it already was, or which the table lets follow it, or
-- there was no phase to leave. Or the table forbids the wanted phase: the phase stands, and the
-- refusal of just that transition is reported.
pub derive-Outcome :
    (current : String) (f : Facts) → Outcome current (want_of current f) (derive current f)
unfolding derive
derive-Outcome current f = settle-Outcome current _

-- A derived phase is the one that was there, or follows it, or there was none to leave.
pub derive-legal :
    (current : String) (f : Facts)
    → ((derive current f).phase ≡ current)
      ⊎ Fresh current
      ⊎ (may_follow current (derive current f).phase ≡ true)
derive-legal current f = ground (arith, derive-Outcome current f)

settle-landed :
    (current : String)
    → may_follow current "landed" ≡ true
    → settle current "landed" ≡ record { phase = "landed"; refused = none }
unfolding settle
settle-landed current h = ground (arith, eq_iff "landed" current, eq_iff current "")

wanted-landed :
    (current sep worked_by : String) (was : Bool)
    → has_flown current || was ≡ true
    → wanted current (some true) sep was worked_by ≡ "landed"
unfolding wanted
wanted-landed current sep worked_by was h = ground arith

flown_or_seen : (air was roll : Bool) → air || (was && roll) ≡ true → air || was ≡ true
flown_or_seen air was roll h = ground arith

flown_or_rolling : (air was roll : Bool) → air || (was && roll) ≡ true → air || roll ≡ true
flown_or_rolling air was roll h = ground arith

-- Wheels down is an observation, never refused: an aircraft in a phase that exists only in the air,
-- or in `departure` after radar saw it fly, is `landed` as soon as the sim has it on the ground.
derive-landed :
    (current : String) (f : Facts)
    → is_in (lower current) airborne_only || (f.was_airborne && is_in (lower current) straddles)
      ≡ true
    → f.on_ground ≡ some true
    → derive current f ≡ record { phase = "landed"; refused = none }
unfolding derive has_flown
derive-landed current f h down =
    let air = is_in (lower current) airborne_only in
    let roll = is_in (lower current) straddles in
    let seen : air || f.was_airborne ≡ true = flown_or_seen air f.was_airborne roll h in
    let lawful : air || roll ≡ true = flown_or_rolling air f.was_airborne roll h in
    rw (down, wanted-landed current (lower f.separation) (lower f.worked_by) f.was_airborne seen)
      (settle-landed current (may_follow-landed current lawful))

wanted-grounded :
    (current sep worked_by : String)
    → has_flown current ≡ false
    → (sep == "landed") ≡ false
    → wanted current (some true) sep false worked_by
      ≡ (if current == "" then "clearance" else current)
unfolding wanted
wanted-grounded current sep worked_by h e = ground arith

settle-seeded :
    (current : String)
    → settle current (if current == "" then "clearance" else current)
      ≡ record { phase = if current == "" then "clearance" else current; refused = none }
unfolding settle
settle-seeded current = ground (arith, eq_iff current "", eq_iff current current)

-- A parked aircraft that nothing says has flown keeps the rung that the conversation put it on, and
-- one with no phase starts at `clearance`. Nothing is refused.
derive-grounded :
    (current : String) (f : Facts)
    → f.on_ground ≡ some true
    → f.was_airborne ≡ false
    → has_flown current ≡ false
    → (lower f.separation == "landed") ≡ false
    → derive current f
      ≡ record { phase = if current == "" then "clearance" else current; refused = none }
unfolding derive
derive-grounded current f down was air sep =
    rw (down, was, wanted-grounded current (lower f.separation) (lower f.worked_by) air sep)
      (settle-seeded current)
