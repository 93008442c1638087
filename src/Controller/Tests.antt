-- ===== src/Controller/Tests.antt =====
-- A few arrivals at one aerodrome, and the theorems about the board at them.
use marshall.Prelude.{ℕ, ◌≡◌, refl, Option, none, some, List, [], ◌∷◌, lower, only_alnum, str_leb}
use marshall.Prelude.Dict
use marshall.Names
use marshall.Stations.Samples.{batumi_tower}
use marshall.Controller.{
  unknown, enroute, holding, is_holding, is_missed, is_landed, Aircraft, hold, cleared_approach,
  Engine, write, say, procedure_of, pro, key, in_letdown, set_letdown, same_stack, before, insert,
  sorted, holds_here, holders, up_there, spoken_for, stack_of, free_slot, the_approach_takes_over,
  fewest, going_around, next_up,
}
use marshall.Controller.Sequence.{
  distinct, free_levels, moved, step_level, step_levels, step_down, clear_next, try_clear_one,
  try_each, try_clear, place, by_report, report_beacon,
}
use marshall.Controller.Runway.{
  seen_holder, strip_is_empty, is_seen, done_with_it, other_here, by_the_board, adopt_other,
  who_is_on_the_runway, take_runway, owns, answer_takeoff, request_takeoff,
}
use marshall.Controller.Samples.{arrival, board, alpha, bravo, coming, quiet}
use marshall.Controller.Levels.{IsSlot, free_slot-IsSlot}
use marshall.Controller.Order.{IsNext, next_up-IsNext}
use marshall.Controller.Letdown.{Keeps}
use marshall.Controller.Clearing.{try_clear_one-takes}
use marshall.Controller.Reporting.{report_beacon-Keeps}
use marshall.Controller.Sighted.{IsEmptyStrip, takeoff-IsEmptyStrip}
use marshall.Controller.Takeoff.{heard, IsClear, takeoff-IsClear}

-- The arrival is put above the man in the stack, who is cleared.
report_beacon-quiet :
    (report_beacon coming none quiet).decided
    ≡ hold "Coming 1" 5000 ∷ cleared_approach "Alpha 1" ∷ []
unfolding report_beacon by_report place try_clear try_each try_clear_one clear_next step_down
    step_levels step_level moved distinct free_levels next_up fewest going_around holders holds_here
    sorted insert before spoken_for up_there stack_of free_slot same_stack in_letdown set_letdown
    key pro procedure_of write say is_holding is_missed is_landed the_approach_takes_over Dict.get
    Dict.put Dict.values str_leb
report_beacon-quiet = refl

abbrev crowded : Engine
crowded = board (
    alpha
    ∷ bravo
    ∷ arrival "Charlie 1" holding (some 6000)
    ∷ arrival "Vector 1" enroute (some 5000)
    ∷ [])

abbrev levels_after : Engine → List (Option ℕ)
levels_after e = assigned (Dict.values e.aircraft)
  where
    assigned : List Aircraft → List (Option ℕ)
    assigned [] = []
    assigned (a ∷ bs) = a.assigned_ft ∷ assigned bs

-- With an aircraft under vectors at the second level, the stack steps up, and the two holders above
-- end at one level.
step_down-crowded :
    levels_after (try_clear none none crowded) ≡ some 4000 ∷ some 7000 ∷ some 7000 ∷ some 5000 ∷ []
unfolding try_clear try_each try_clear_one clear_next step_down step_levels step_level moved
    distinct free_levels next_up fewest going_around holders holds_here sorted insert before
    spoken_for up_there stack_of same_stack in_letdown set_letdown key pro procedure_of write say
    is_holding is_missed is_landed the_approach_takes_over Dict.get Dict.put Dict.values str_leb
step_down-crowded = refl

free_slot-IsSlot_example : IsSlot quiet (some coming) (free_slot quiet (some coming))
free_slot-IsSlot_example = free_slot-IsSlot quiet (some coming)

next_up-IsNext_example : IsNext quiet (some coming) (next_up quiet (some coming))
next_up-IsNext_example = next_up-IsNext quiet (some coming)

try_clear_one-takes_example :
    Dict.get (try_clear_one none (some coming) quiet).letdown_by "Batumi" ≡ some "Alpha 1"
unfolding next_up fewest going_around holders holds_here sorted insert before same_stack in_letdown
    key pro procedure_of is_holding is_missed Dict.get Dict.values
try_clear_one-takes_example =
    try_clear_one-takes none coming alpha quiet (refl, (refl, tt)) refl refl refl

abbrev on_final : Engine
on_final = record quiet { letdown_by = ("Batumi", "Delta 1") ∷ [] }

report_beacon-Keeps_example : Keeps on_final (report_beacon coming none on_final)
unfolding procedure_of Dict.values
report_beacon-Keeps_example = report_beacon-Keeps coming none on_final (refl, (refl, tt)) refl

abbrev holding_short : Aircraft
holding_short = record (arrival "Echo 1" unknown none) { sortie_phase = "holding_short" }

abbrev ready : Engine
ready = board (holding_short ∷ alpha ∷ [])

takeoff-IsClear_example :
    IsClear (heard holding_short ready) (record holding_short { last_report_t = 100 })
unfolding key pro procedure_of Dict.get Dict.put Dict.values request_takeoff owns answer_takeoff
    who_is_on_the_runway by_the_board adopt_other other_here done_with_it take_runway write say
    is_landed lower
takeoff-IsClear_example =
    takeoff-IsClear (some batumi_tower) holding_short ready refl (λ who holder h g. absurd (cc))
      refl

abbrev two_fields : Engine
two_fields = record quiet { letdown_by = ("Batumi", "Alpha 1") ∷ ("Kobuleti", "Delta 1") ∷ [] }

abbrev watched : Engine
watched = record ready { seen_on_runway = ("batumi", "Stranger" ∷ []) ∷ [] }

takeoff-IsEmptyStrip_example :
    IsEmptyStrip
      (heard holding_short watched)
      (record holding_short { last_report_t = 100 })
      ("Stranger" ∷ [])
unfolding key pro procedure_of Dict.get Dict.put Dict.values request_takeoff owns answer_takeoff
    who_is_on_the_runway seen_holder strip_is_empty other_here is_seen take_runway write say lower
    only_alnum Names.squash Names.same
takeoff-IsEmptyStrip_example =
    takeoff-IsEmptyStrip (some batumi_tower) holding_short watched ("Stranger" ∷ []) refl refl
