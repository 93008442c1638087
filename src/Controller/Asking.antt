-- ===== src/Controller/Asking.antt =====
-- A pilot asks for an approach: `request_approach` and `request_visual` of src/marshall/atc/controller.py.
-- The approach that his words name, and whether `offer_approaches` has any to offer, are arguments.
pub mod Queue
pub mod Visual
mod Tests
use marshall.Prelude.{
  ℕ, suc, zero, String, Bool, true, false, not, ◌&&◌, ◌||◌, Option, none, some, List, [], ◌∷◌, ◌==◌,
  if◌then◌else◌,
}
use marshall.Prelude.Dict
use marshall.Stations.{Station}
use marshall.Controller.{
  Phase, unknown, enroute, holding, cleared, missed, landed, Approach, Aircraft, hold, refuse,
  Engine, write, say, pro, in_letdown, set_letdown, stack_of, free_slot, the_approach_takes_over,
  next_up,
}
use marshall.Controller.Sequence.{try_clear, give_up, told}
use marshall.Controller.Runway.{owns}

unfoldable pub is_cleared : Phase → Bool
is_cleared cleared = true
is_cleared unknown = false
is_cleared enroute = false
is_cleared holding = false
is_cleared missed = false
is_cleared landed = false

-- ac.phase in (Phase.UNKNOWN, Phase.ENROUTE)
unfoldable pub is_new : Phase → Bool
is_new unknown = true
is_new enroute = true
is_new holding = false
is_new cleared = false
is_new missed = false
is_new landed = false

abbrev vectors : Option Approach → Bool
vectors none = false
vectors (some p) = p.may_vector

-- Controller.may_be_sequenced
unfoldable pub may_be_sequenced : Aircraft → Engine → Bool
may_be_sequenced ac e = ac.radar_identified || not (vectors (pro e (some ac)))

-- Controller.assign_approach, of an aircraft that is on the board
abbrev pub assigned : Approach → Aircraft → Aircraft
assigned p ac = record ac { profile = some p }

abbrev pub in_stack : ℕ → ℕ → Aircraft → Aircraft
in_stack t slot ac = record ac { phase = holding; assigned_ft = some slot; last_report_t = t }

-- self._in_letdown(ac) is None and self._next_up(ac) is ac
unfoldable pub is_first : Aircraft → Engine → Bool
is_first ac e = elim (in_letdown e (some ac)) [
  | some who ↦ false
  | none ↦ elim (next_up e (some ac)) [ none ↦ false | some a ↦ a.callsign == ac.callsign ]
]

-- He is told to hold, unless he is about to be cleared.
unfoldable pub told_to_hold : Aircraft → ℕ → Engine → Engine
told_to_hold ac slot e = if is_first ac e then e else say (hold ac.callsign slot) e

-- An aircraft with an approach: into the stack if it is new, and the letdown is tried.
unfoldable pub queue : Aircraft → Engine → Engine
queue ac e =
    let slot : Option ℕ = if is_new ac.phase then free_slot (write ac e) (some ac) else none in
    let e1 : Engine = elim slot [
      | none ↦ write ac e
      | some ft ↦ told_to_hold (in_stack e.t ft ac) ft (write (in_stack e.t ft ac) e)
    ] in
    try_clear (some ac.callsign) none e1

-- One without an approach, to whom the published ones may have been offered.
unfoldable pub choose : Bool → Aircraft → Engine → Engine
choose offered ac e = elim (pro e (some ac)) [
  | some p ↦ queue ac e
  | none ↦ if offered then write ac e else queue ac e
]

unfoldable pub ask_anew : Option Approach → Bool → Aircraft → Engine → Engine
ask_anew asked offered ac e =
    if not (may_be_sequenced ac e)
    then write ac e
    else elim asked [ none ↦ choose offered ac e | some p ↦ queue (assigned p ac) e ]

-- Cleared already: the approach that he named instead gives up the one he has.
unfoldable pub ask_again : Option Approach → Aircraft → Engine → Engine
ask_again none ac e = write ac e
ask_again (some p) ac e =
    let his = record (assigned p ac) { phase = enroute } in
    let e1 = write his (give_up (assigned p ac) e) in
    if may_be_sequenced his e1 then queue his e1 else e1

-- Controller.request_approach, once `get` has found the aircraft; `asked` is the published approach, other
-- than the one he has, that his words name
unfoldable pub request_approach :
    Option Station → Option Approach → Bool → Aircraft → Engine → Engine
request_approach me asked offered ac e =
    if not (owns me "approach")
    then say (refuse ac.callsign "approach") (write ac e)
    else if is_cleared ac.phase
    then ask_again asked ac e
    else ask_anew asked offered ac e

-- Somebody else has the letdown.
unfoldable pub is_anothers : Aircraft → Engine → Bool
is_anothers ac e = elim (in_letdown e (some ac)) [
  | none ↦ false
  | some who ↦ not (who == "" || who == ac.callsign)
]

abbrev first_of : List ℕ → Option ℕ
first_of [] = none
first_of (ft ∷ fts) = some ft

-- The level at which he waits: his own, a free one, or the bottom of the stack; none where `bottom_ft`
-- raises, or where there is no procedure, since `spell_alt` of no level raises too
unfoldable pub waiting_level : Aircraft → Engine → Option ℕ
waiting_level ac e = elim ac.assigned_ft [
  | some ft ↦ some ft
  | none ↦ elim (told (free_slot (write ac e) (some ac))) [
    | some ft ↦ some ft
    | none ↦ first_of (stack_of e (some ac))
  ]
]

-- Controller.request_visual, once `get` has found the aircraft
unfoldable pub request_visual : Aircraft → Engine → Option Engine
request_visual ac e =
    let his =
      the_approach_takes_over
        (record ac { phase = cleared; on_visual = true; last_report_t = e.t }) in
    let here = record ac { phase = holding } in
    let waits : Option Engine = elim (waiting_level here e) [
      | none ↦ none
      | some ft ↦ some (say (hold ac.callsign ft) (write (record here { assigned_ft = some ft }) e))
    ] in
    if is_anothers ac e
    then waits
    else some (write his (set_letdown (some ac) (some ac.callsign) e))
