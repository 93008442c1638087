-- ===== src/Controller/Asking/Tests.antt =====
-- Requests for an approach at Batumi, and for one elsewhere.
use marshall.Prelude.{◌≡◌, refl, subst, true, false, none, some, [], ◌∷◌, ◌==◌, any, str_leb}
use mathlib.Core.Option.{some-injective}
use marshall.Prelude.Dict
use marshall.Controller.{
  enroute, cleared, Approach, Aircraft, Engine, hold, continue_hold, say, write, pro, procedure_of,
  key, in_letdown, set_letdown, stack_of, free_slot, next_up, holders, holds_here, is_holding,
  same_stack, sorted, insert, before, fewest, going_around, is_landed, is_missed, spoken_for,
  up_there, the_approach_takes_over, anomaly,
}
use marshall.Controller.Sequence.{
  try_clear, try_clear_one, clear_next, continue_him, distinct, free_levels, give_up, moved,
  number_two, step_down, step_level, step_levels,
}
use marshall.Controller.Runway.{owns}
use marshall.Controller.Levels.{occupies}
use marshall.Controller.Asking.{
  ask_anew, ask_again, choose, is_first, is_new, may_be_sequenced, queue, told_to_hold, is_cleared,
  is_anothers, waiting_level, request_approach, request_visual,
}
use marshall.Controller.Asking.Queue.{request_approach-letdown}
use marshall.Controller.Asking.Visual.{to_hold, request_visual-full}
use marshall.Controller.Samples.{batumi, arrival, alpha, bravo, coming, board}

abbrev kobuleti : Approach
kobuleti = record batumi { aerodrome = "Kobuleti"; stack_ft = 3000 ∷ [] }

abbrev occupied : Engine
occupied = record (board (alpha ∷ coming ∷ [])) { letdown_by = ("Batumi", "Alpha 1") ∷ [] }

-- Behind somebody in the letdown he is given a level to hold at, and told so.
request_approach-hold :
    (request_approach none none false coming occupied).decided
    ≡ hold "Coming 1" 5000 ∷ continue_hold "Coming 1" (some 5000) ∷ []
unfolding request_approach ask_anew ask_again choose is_first is_new may_be_sequenced queue
    told_to_hold is_cleared is_anothers waiting_level try_clear try_clear_one clear_next
    continue_him distinct free_levels give_up moved number_two step_down step_level step_levels
    holders holds_here is_holding same_stack sorted insert before fewest going_around is_landed
    is_missed spoken_for up_there the_approach_takes_over anomaly say write pro procedure_of key
    in_letdown set_letdown stack_of free_slot next_up owns Dict.get Dict.put Dict.remove Dict.values
    str_leb
request_approach-hold = refl

-- Cleared at Batumi he asks for Kobuleti, and has both letdowns.
abbrev changing : Aircraft
changing = arrival "Coming 1" cleared (some 4000)

request_approach-elsewhere :
    (request_approach none
      (some kobuleti)
      false
      changing
      (record (board (changing ∷ [])) { letdown_by = ("Batumi", "Coming 1") ∷ [] })).letdown_by
    ≡ ("Batumi", "Coming 1") ∷ ("Kobuleti", "Coming 1") ∷ []
unfolding request_approach ask_anew ask_again choose is_first is_new may_be_sequenced queue
    told_to_hold is_cleared is_anothers waiting_level try_clear try_clear_one clear_next
    continue_him distinct free_levels give_up moved number_two step_down step_level step_levels
    holders holds_here is_holding same_stack sorted insert before fewest going_around is_landed
    is_missed spoken_for up_there the_approach_takes_over anomaly say write pro procedure_of key
    in_letdown set_letdown stack_of free_slot next_up owns Dict.get Dict.put Dict.remove Dict.values
    str_leb
request_approach-elsewhere = refl

abbrev two_fields : Engine
two_fields = record occupied { letdown_by = ("Batumi", "Alpha 1") ∷ ("Kobuleti", "Delta 1") ∷ [] }

request_approach-letdown_example :
    Dict.get (request_approach none (some kobuleti) false coming two_fields).letdown_by "Kobuleti"
    ≡ some "Delta 1"
unfolding procedure_of Dict.values Dict.get
request_approach-letdown_example =
    request_approach-letdown none (some kobuleti) false coming two_fields "Kobuleti" "Delta 1"
      (refl, (refl, tt)) refl
      (λ p h.
        subst (λ (q : Approach). (q.aerodrome == "") ≡ false) (some-injective kobuleti p h) refl)
      refl refl

-- A stack of two levels, both of them taken.
abbrev low : Approach
low = record batumi { stack_ft = 4000 ∷ 5000 ∷ [] }

abbrev newcomer : Aircraft
newcomer = record (arrival "Coming 1" enroute none) { profile = some low }

abbrev full : Engine
full =
    record (board
      (record alpha { profile = some low } ∷ record bravo { profile = some low } ∷ newcomer ∷ [])) {
        letdown_by = ("Batumi", "Alpha 1") ∷ [];
      }

request_visual-full_example :
    (request_visual newcomer full
      ≡ some (
          say
            (hold "Coming 1" 4000)
            (write (record (to_hold newcomer) { assigned_ft = some 4000 }) full)))
    × (any
          (occupies (write (to_hold newcomer) full) (some (to_hold newcomer)) 4000)
          (Dict.values (write (to_hold newcomer) full).aircraft)
        ≡ true)
unfolding is_anothers holders holds_here is_holding same_stack sorted insert before fewest
    going_around is_landed is_missed spoken_for up_there the_approach_takes_over anomaly say write
    pro procedure_of key in_letdown set_letdown stack_of free_slot next_up Dict.get Dict.put
    Dict.values str_leb
request_visual-full_example = request_visual-full newcomer full 4000 (5000 ∷ []) refl refl refl refl
