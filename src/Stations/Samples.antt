-- ===== src/Stations/Samples.antt =====
-- The seats of two aerodromes, for the tests.
use marshall.Prelude.{List, [], ◌∷◌}
use marshall.Stations.{Station}

abbrev pub batumi_tower : Station
batumi_tower = record {
  name = "Batumi Tower";
  freq_hz = 131000000;
  role = "tower";
  also = [];
  channels = [];
  field = "Batumi";
}

abbrev pub batumi_approach : Station
batumi_approach = record {
  name = "Batumi Approach";
  freq_hz = 132000000;
  role = "approach";
  also = [];
  channels = 260000000 ∷ [];
  field = "Batumi";
}

abbrev pub kobuleti_tower : Station
kobuleti_tower = record {
  name = "Kobuleti Tower";
  freq_hz = 133000000;
  role = "tower";
  also = "ground" ∷ "clearance" ∷ [];
  channels = [];
  field = "Kobuleti";
}

abbrev pub center : Station
center = record {
  name = "Center";
  freq_hz = 134000000;
  role = "center";
  also = "departure" ∷ [];
  channels = [];
  field = "";
}

abbrev pub seats : List Station
seats = kobuleti_tower ∷ batumi_tower ∷ batumi_approach ∷ center ∷ []
