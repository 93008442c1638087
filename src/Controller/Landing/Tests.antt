-- ===== src/Controller/Landing/Tests.antt =====
-- Landing calls on concrete boards.
use marshall.Prelude.{◌≡◌, refl, true, false, some, none, [], ◌∷◌, lower, only_alnum}
use marshall.Prelude.Dict
use marshall.Names
use marshall.Controller.{
  cleared, landed, Aircraft, continue_approach, handoff, unknown, is_holding, is_missed, is_landed,
  write, say, procedure_of, pro, key, in_letdown, set_letdown, insert, sorted, holds_here, holders,
  fewest, going_around, next_up,
}
use marshall.Controller.Sequence.{give_up, try_each, try_clear_one, try_clear}
use marshall.Controller.Runway.{
  done_with_it, other_here, by_the_board, adopt_other, who_is_on_the_runway, take_runway,
}
use marshall.Controller.Landing.{
  ground_at, must_be_told, phase_when_down, report_down, answer_landing, works_elsewhere,
  report_landed, end_following, down, down_on_board,
}
use marshall.Stations.{Station}
use marshall.Stations.Samples.{batumi_tower}
use marshall.Controller.Samples.{arrival, board}
use marshall.Controller.Takeoff.{IsClear}
use marshall.Controller.Cleared.{report_landed-IsClear}

abbrev ace : Aircraft
ace = arrival "Ace 1" cleared none

-- Down, and off the strip.
abbrev gone : Aircraft
gone = record (arrival "Gone 1" landed none) { runway_vacated = true }

abbrev rolling : Aircraft
rolling = record (arrival "Rolling 1" unknown none) {
  sortie_phase = "departure";
  has_been_airborne = false;
}

abbrev ground : Station
ground = record batumi_tower { name = "Batumi Ground"; role = "ground"; also = [] }

report_landed-quiet :
    (report_landed "tower"
      (some batumi_tower)
      (some batumi_tower)
      none
      ace
      (board (ace ∷ gone ∷ []))).runway_by
    ≡ ("Batumi", "Ace 1") ∷ []
unfolding report_landed answer_landing who_is_on_the_runway by_the_board adopt_other other_here
    done_with_it give_up write key pro procedure_of in_letdown set_letdown Dict.get Dict.put
    Dict.values is_landed works_elsewhere lower try_clear try_each try_clear_one next_up fewest
    going_around is_missed holders sorted insert holds_here is_holding take_runway Names.squash
    only_alnum
report_landed-quiet = refl

-- With somebody still on the strip he goes on, and the strip is recorded as theirs.
report_landed-busy :
    ((report_landed "tower"
        (some batumi_tower)
        (some batumi_tower)
        none
        ace
        (board (ace ∷ rolling ∷ []))).decided
      ≡ continue_approach "Ace 1" ∷ [])
    × ((report_landed "tower"
          (some batumi_tower)
          (some batumi_tower)
          none
          ace
          (board (ace ∷ rolling ∷ []))).runway_by
        ≡ ("Batumi", "Rolling 1") ∷ [])
unfolding report_landed answer_landing who_is_on_the_runway by_the_board adopt_other other_here
    done_with_it give_up write say key pro procedure_of in_letdown set_letdown Dict.get Dict.put
    Dict.values is_landed works_elsewhere lower try_clear try_each try_clear_one next_up fewest
    going_around is_missed holders sorted insert holds_here is_holding take_runway Names.squash
    only_alnum
report_landed-busy = (refl, refl)

-- Once down, Tower sends him to Ground, when that is another seat.
report_down-told :
    (report_down
      (some (record batumi_tower { also = [] }))
      (some ground)
      ace
      (board (ace ∷ []))).decided
    ≡ handoff "Ace 1" "ground" ∷ []
unfolding report_down must_be_told ground_at phase_when_down give_up write say key pro procedure_of
    in_letdown set_letdown Dict.get Dict.put Dict.values is_landed lower try_clear try_each
    try_clear_one next_up fewest going_around is_missed holders sorted insert holds_here is_holding
report_down-told = refl

end_following-none : (end_following false ace (board (ace ∷ []))).decided ≡ []
unfolding end_following
end_following-none = refl

report_landed-IsClear_example :
    IsClear (down_on_board ace (board (ace ∷ gone ∷ []))) (down ace (board (ace ∷ gone ∷ [])))
unfolding report_landed answer_landing who_is_on_the_runway by_the_board adopt_other other_here
    done_with_it give_up write key pro procedure_of in_letdown set_letdown Dict.get Dict.put
    Dict.values is_landed works_elsewhere lower try_clear try_each try_clear_one next_up fewest
    going_around is_missed holders sorted insert holds_here is_holding take_runway Names.squash
    only_alnum
report_landed-IsClear_example =
    report_landed-IsClear "tower" (some batumi_tower) (some batumi_tower) none ace
      (board (ace ∷ gone ∷ [])) refl (λ who holder g h. absurd (cc)) (λ g. cc) refl
