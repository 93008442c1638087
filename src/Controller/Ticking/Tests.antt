-- ===== src/Controller/Ticking/Tests.antt =====
-- A quarter of an hour with nothing said, on a board where one man has the letdown and another the runway.
use marshall.Prelude.{◌⊎◌, true, false, ◌+◌, String, ◌≡◌, refl, some, [], ◌∷◌}
use marshall.Prelude.Dict
use marshall.Approach.{last_of}
use marshall.Controller.{
  cleared, Aircraft, Engine, is_holding, is_missed, is_landed, write, say, anomaly, procedure_of,
  pro, key, in_letdown, set_letdown, same_stack, before, insert, sorted, holds_here, holders,
  up_there, spoken_for, stack_of, the_approach_takes_over, fewest, going_around, next_up,
}
use marshall.Controller.Sequence.{
  distinct, free_levels, moved, step_level, step_levels, step_down, clear_next, try_clear_one,
  try_clear, outer_level, give_up, do_missed, after_missed,
}
use marshall.Controller.Runway.{free_runway}
use marshall.Controller.Clock.{
  held_for, station_passage, pass, pass_each, for_items, off_the_runway, time_runway, take_back,
  give_on, time_letdown, is_overdue, quietest, prompt, time_limits, tick,
}
use marshall.Controller.Samples.{batumi, arrival, board, bravo}
use marshall.Controller.Passing.{HasRecentLetdown, HasRecentRunway}
use marshall.Controller.Ticking.{IsStranded, tick-IsRecent}

abbrev silent : Aircraft
silent = arrival "Silent 1" cleared (some 4000)

abbrev stopped : Engine
stopped = record (board (silent ∷ bravo ∷ [])) {
  letdown_by = ("Batumi", "Silent 1") ∷ [];
  letdown_since_by = ("Batumi", 100) ∷ [];
  runway_by = ("Batumi", "Silent 1") ∷ [];
  runway_since_by = ("Batumi", 90) ∷ [];
}

-- The letdown goes to the man who holds, and the runway to nobody.
tick-stopped :
    (Dict.get (tick 900 stopped).1.letdown_by "Batumi" ≡ some "Bravo 1")
    × (Dict.get (tick 900 stopped).1.letdown_since_by "Batumi" ≡ some 1000)
    × ((tick 900 stopped).1.runway_by ≡ [])
unfolding try_clear clear_next step_down step_levels step_level moved try_clear_one distinct
    free_levels next_up fewest going_around holders holds_here sorted insert before spoken_for
    up_there stack_of same_stack in_letdown set_letdown key pro procedure_of write say anomaly
    is_holding is_missed is_landed the_approach_takes_over Dict.get Dict.put Dict.remove Dict.values
    held_for station_passage pass pass_each for_items off_the_runway time_runway take_back give_on
    free_runway time_letdown is_overdue quietest prompt time_limits tick
tick-stopped = (refl, refl, refl)

-- Just within the limits, nothing changes hands.
tick-within :
    ((tick 290 stopped).1.letdown_by ≡ stopped.letdown_by)
    × ((tick 290 stopped).1.runway_by ≡ stopped.runway_by)
unfolding Dict.get Dict.put Dict.values write held_for pass pass_each for_items time_runway
    time_letdown is_overdue quietest prompt time_limits tick is_holding is_missed
tick-within = (refl, refl)

-- At an aerodrome whose stack is empty, a second missed approach ends the tick: the runway is kept.
abbrev shut : Aircraft
shut = record silent {
  profile = some (record batumi { stack_ft = [] });
  approaches = 1;
  map_t = some 500;
}

abbrev overcast : Engine
overcast = record (board (shut ∷ bravo ∷ [])) {
  letdown_by = ("Batumi", "Silent 1") ∷ [];
  letdown_since_by = ("Batumi", 100) ∷ [];
  runway_by = ("Batumi", "Bravo 1") ∷ [];
  runway_since_by = ("Batumi", 90) ∷ [];
}

tick-overcast :
    ((tick 900 overcast).0 ≡ false) × ((tick 900 overcast).1.runway_by ≡ ("Batumi", "Bravo 1") ∷ [])
unfolding in_letdown set_letdown key pro procedure_of write Dict.get Dict.put Dict.remove
    Dict.values last_of outer_level give_up do_missed after_missed station_passage pass pass_each
    tick
tick-overcast = (refl, refl)

tick-IsRecent_example :
    ((tick 900 stopped).1.t ≡ stopped.t + 900)
    × ((((tick 900 stopped).0 ≡ true)
          × ((k : String) → HasRecentLetdown (tick 900 stopped).1 k)
          × ((k : String) → HasRecentRunway (tick 900 stopped).1 k))
        ⊎ (((tick 900 stopped).0 ≡ false) × ((ac : Aircraft) × IsStranded (tick 900 stopped).1 ac)))
tick-IsRecent_example = tick-IsRecent 900 stopped
