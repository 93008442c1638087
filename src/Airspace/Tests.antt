-- ===== src/Airspace/Tests.antt =====
-- The theorems of the airspace at concrete charts and procedures.
use marshall.Prelude.{
  ℕ, ◌+◌, ◌-◌, ◌≤◌, ◌≡◌, refl, true, none, some, List, [], ◌∷◌, Memᴰ, lower, arith,
}
use marshall.Airspace.{
  Cell, Fix, Procedure, manoeuvre_nm, terminal_nm, terminal_reach_nm, best_within, mva_for, msa_for,
  inside,
}
use marshall.Airspace.Reach.{terminal_reach_nm-covers}
use marshall.Airspace.Altitude.{covers, at_bearing, mva_for-nearest, msa_for_lem}

-- Two rings of the vectoring chart, thirty degrees wide.
abbrev inner : Cell
inner = record { lo = 3000; hi = 6000; out_to = 1000; alt = 3000 }

abbrev outer : Cell
outer = record { lo = 3000; hi = 6000; out_to = 1500; alt = 5500 }

abbrev chart : List Cell
chart = outer ∷ inner ∷ []

mva_for-nearest_example :
    (e : Cell) × (mva_for 40000 (some 800) chart ≡ e.alt)
    × Memᴰ e chart
    × (covers (at_bearing 40000) 800 e ≡ true)
    × (e.out_to ≤ outer.out_to)
    × (e.alt ≤ mva_for 40000 none chart)
unfolding inside
mva_for-nearest_example = mva_for-nearest 40000 800 chart outer (Memᴰ.head refl) refl

mva_inner : mva_for 40000 (some 800) chart ≡ 3000
unfolding mva_for best_within
mva_inner = refl

msa_for-west : msa_for 30000 none ≡ 7000
msa_for-west = msa_for_lem 30000

-- Positions on a line, in hundredths of a mile.
abbrev far_apart : ℕ → ℕ → ℕ
far_apart a b = (a - b) + (b - a)

abbrev kobuleti : Fix ℕ
kobuleti = record { name = "KOBULETI"; place = some 2260 }

abbrev batumi : Fix ℕ
batumi = record { name = "Batumi"; place = some 0 }

abbrev batumi_ils : Procedure ℕ
batumi_ils = record {
  outer_hold = some kobuleti;
  iaf = none;
  arrival_fix = none;
  navaid = none;
  aerodrome = some (record { name = "BATUMI"; place = some 0 });
}

terminal_reach_nm-covers_example :
    (far_apart 0 2260 + manoeuvre_nm ≤ terminal_reach_nm far_apart (some batumi) (batumi_ils ∷ []))
    × (terminal_nm ≤ terminal_reach_nm far_apart (some batumi) (batumi_ils ∷ []))
unfolding lower
terminal_reach_nm-covers_example =
    terminal_reach_nm-covers far_apart batumi 0 (batumi_ils ∷ []) batumi_ils kobuleti 2260 refl
      (Memᴰ.head refl) refl (Memᴰ.head refl) refl (omega arith)
