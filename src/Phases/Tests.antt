-- ===== src/Phases/Tests.antt =====
-- Runs of src/marshall/atc/phases.py, and its theorems at concrete inputs.
use marshall.Prelude.{◌≡◌, refl, true, false, none, some, [], ◌∷◌, lower}
use marshall.Phases.{Facts, Phase, get, may_follow, flies_geometry, wanted, derive}
use marshall.Phases.Table.{flies_geometry-flown}
use marshall.Phases.Deriving.{Outcome, want_of, derive-Outcome}
use marshall.Phases.Ladder.{◌⟶*◌, run, run-⟶*}

-- The sim has him on the ground.
abbrev parked : Facts
parked = record { on_ground = some true; separation = ""; was_airborne = false; worked_by = "" }

-- Approach works him, and cleared him.
abbrev cleared : Facts
cleared = record {
  on_ground = some false;
  separation = "CLEARED";
  was_airborne = true;
  worked_by = "Approach";
}

abbrev rotating : Facts
rotating = record { on_ground = some false; separation = ""; was_airborne = false; worked_by = "" }

derive_fresh : derive "" parked ≡ record { phase = "clearance"; refused = none }
unfolding derive wanted lower may_follow get
derive_fresh = refl

derive-cleared : derive "arrival" cleared ≡ record { phase = "approach"; refused = none }
unfolding derive wanted lower may_follow get
derive-cleared = refl

derive_welded :
    derive "departure" cleared
    ≡ record { phase = "departure"; refused = some ("departure", "approach") }
unfolding derive wanted lower may_follow get
derive_welded = refl

flies_geometry-missed : flies_geometry "Missed" ≡ true
unfolding lower
flies_geometry-missed = flies_geometry-flown "Missed"

derive-Outcome_example :
    Outcome "departure" (want_of "departure" cleared) (derive "departure" cleared)
derive-Outcome_example = derive-Outcome "departure" cleared

abbrev filed_row : Phase
filed_row = record {
  name = "filed";
  owner = "";
  aims_at = "none";
  follows = "clearance" ∷ "taxi" ∷ "enroute" ∷ [];
  handler = "";
}

run-⟶*_example : "taxi" ⟶* run "taxi" (rotating ∷ cleared ∷ [])
run-⟶*_example = run-⟶* "taxi" (rotating ∷ cleared ∷ []) refl
