-- ===== src/Handoff/Tests.antt =====
-- Handoffs at two aerodromes, and the theorems about them at concrete inputs.
use marshall.Prelude.{
  ℕ, ◌-◌, ◌+◌, ◌≡◌, refl, true, false, Option, none, some, [], ◌∷◌, is_in, lower,
}
use marshall.Phases
use marshall.Stations.{Station, hit, role_at}
use marshall.Stations.Samples.{batumi_tower, batumi_approach, kobuleti_tower, center, seats}
use marshall.Airspace.{
  Fix, Procedure, over_procedures, furthest, procedure_reach_nm, terminal_reach_nm,
}
use marshall.Handoff.{
  State, Profile, Verdict, hand_to, ground_seats, airborne, at, fires, by_rules, by_phase,
  phase_owner, due,
}
use marshall.Handoff.Safety.{due-airborne}

abbrev far_apart : ℕ → ℕ → ℕ
far_apart a b = (a - b) + (b - a)

abbrev batumi : Fix ℕ
batumi = record { name = "Batumi"; place = some 0 }

abbrev radar_approach : Procedure ℕ
radar_approach = record {
  outer_hold = none;
  iaf = none;
  arrival_fix = none;
  navaid = none;
  aerodrome = some (record { name = "BATUMI"; place = some 0 });
}

abbrev asr : Option (Profile ℕ)
asr = some (record { guidance = "talkdown"; procedure = radar_approach })

abbrev ils : Option (Profile ℕ)
ils = some (record { guidance = "intercept"; procedure = radar_approach })

abbrev on_final : State
on_final = record { on_ground = false; range_nm = some 300; inbound = true; phase = "approach" }

abbrev verdict_of : Option (Profile ℕ) → Station → State → Option Verdict
verdict_of profile me st =
    due far_apart seats (batumi ∷ []) (radar_approach ∷ []) profile (some me) st

-- On an ILS he is Tower's inside five miles.
ils_to_tower : verdict_of ils batumi_approach on_final ≡ some (hand_to batumi_tower "tower" false)
unfolding due by_phase by_rules phase_owner fires at role_at hit lower Phases.get Phases.owner_of
ils_to_tower = refl

abbrev lost : State
lost = record { on_ground = false; range_nm = some 300; inbound = true; phase = "taxi_in" }

-- Flying with a phase of the ground: Tower keeps the rule table, and never Ground.
lost_is_tower :
    verdict_of ils (record kobuleti_tower { role = "ground"; also = [] }) lost
    ≡ some (hand_to kobuleti_tower "tower" true)
unfolding due by_phase by_rules phase_owner fires at role_at hit lower Phases.get Phases.owner_of
lost_is_tower = refl

due-airborne_example : is_in "tower" ground_seats ≡ false
unfolding airborne
due-airborne_example =
    due-airborne far_apart seats (batumi ∷ []) (radar_approach ∷ []) ils
      (record kobuleti_tower { role = "ground"; also = [] }) lost kobuleti_tower "tower" true refl
      lost_is_tower

-- Inbound to an aerodrome that has no seats at all.
abbrev arriving : State
arriving = record { on_ground = false; range_nm = some 1000; inbound = true; phase = "" }

abbrev plain_center : Station
plain_center = record center { also = [] }

nobody_there :
    due far_apart [] (batumi ∷ []) (radar_approach ∷ []) ils (some plain_center) arriving ≡ none
unfolding due by_phase by_rules phase_owner fires at role_at hit lower Phases.get Phases.owner_of
    terminal_reach_nm procedure_reach_nm over_procedures furthest
nobody_there = refl
