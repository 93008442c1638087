-- ===== src/Stations/Tests.antt =====
-- Searches of the seats of two aerodromes.
use marshall.Prelude.{◌≡◌, refl, none, some}
use marshall.Stations.{hit, role_at, on_frequency}
use marshall.Stations.Samples.{batumi_tower, batumi_approach, center, seats}
use marshall.Stations.Best.{IsBest, role_at-IsBest}

-- His own aerodrome's Tower, not the first of the table.
tower_at_batumi : role_at seats "tower" "Batumi" ≡ some batumi_tower
unfolding role_at hit
tower_at_batumi = refl

-- Another aerodrome's Ground is no answer.
ground_at_batumi : role_at seats "ground" "Batumi" ≡ none
unfolding role_at hit
ground_at_batumi = refl

departure_anywhere : role_at seats "departure" "Batumi" ≡ some center
unfolding role_at hit
departure_anywhere = refl

second_channel : on_frequency seats 260000400 ≡ some batumi_approach
unfolding on_frequency
second_channel = refl

role_at-IsBest_example : IsBest seats "departure" "Batumi" (role_at seats "departure" "Batumi")
role_at-IsBest_example = role_at-IsBest seats "departure" "Batumi"
