-- ===== src/Progress/Tests.antt =====
-- Progress along a straight route of three fixes, with positions on a line.
use marshall.Prelude.{
  ℕ, ◌+◌, ◌-◌, ◌≡◌, refl, String, Option, none, some, List, [], ◌∷◌, leb, strip, if◌then◌else◌,
}
use marshall.Following.{ahead, behind}
use marshall.Filing.{Leg}
use marshall.Progress.{
  Fix, Progress, Geometry, leg_ahead, last_name, closest_from, fixes_of, legs_between,
  distance_to_leg, range_to, heading_for, standing_at, on_or_off, along_route, where_on_route,
}
use marshall.Progress.Standing.{IsStanding}
use marshall.Progress.Nearest.{IsNearest, where_on_route-IsNearest}

abbrev apart : ℕ → ℕ → ℕ
apart a b = (a - b) + (b - a)

-- East along the line
abbrev line : Geometry ℕ
line = record {
  leg_offset = λ pos a b. record {
    along = if leb a pos then ahead (pos - a) else behind (a - pos - 1);
    cross = 0;
    leg_nm = apart a b;
  };
  range_nm = apart;
  bearing_true = λ a b. if leb a b then 9000 else 27000;
}

abbrev leg : String → Option ℕ → Leg ℕ
leg fix place = record { fix = fix; place = place; alt_ft = some 3000 }

abbrev route : List (Leg ℕ)
route =
    leg "FOO" (some 5000)
    ∷ leg "" (some 6000)
    ∷ leg "BAR" (some 9000)
    ∷ leg "HERE" none
    ∷ leg "SPAM" (some 20000)
    ∷ []

abbrev told : Option Progress → List String
told none = "nothing" ∷ []
told (some p) = p.from_fix ∷ p.to_fix ∷ p.reached

where_on_route-between : told (where_on_route line route (some 6000)) ≡ "FOO" ∷ "BAR" ∷ "FOO" ∷ []
unfolding leg_ahead last_name closest_from fixes_of legs_between distance_to_leg range_to
    heading_for standing_at on_or_off along_route where_on_route strip
where_on_route-between = refl

-- A mile short of a fix, that is behind him.
where_on_route-at :
    told (where_on_route line route (some 8900)) ≡ "BAR" ∷ "SPAM" ∷ "FOO" ∷ "BAR" ∷ []
unfolding leg_ahead last_name closest_from fixes_of legs_between distance_to_leg range_to
    heading_for standing_at on_or_off along_route where_on_route strip
where_on_route-at = refl

where_on_route-past :
    told (where_on_route line route (some 20500)) ≡ "SPAM" ∷ "" ∷ "FOO" ∷ "BAR" ∷ "SPAM" ∷ []
unfolding leg_ahead last_name closest_from fixes_of legs_between distance_to_leg range_to
    heading_for standing_at on_or_off along_route where_on_route strip
where_on_route-past = refl

-- Forty miles away, the nearest fix.
where_on_route-off : told (where_on_route line route (some 1000)) ≡ "" ∷ "FOO" ∷ []
unfolding leg_ahead last_name closest_from fixes_of legs_between distance_to_leg range_to
    heading_for standing_at on_or_off along_route where_on_route strip
where_on_route-off = refl

abbrev fixes : List (Fix ℕ)
fixes =
    record { name = "FOO"; place = 5000 }
    ∷ record { name = "BAR"; place = 9000 }
    ∷ record { name = "SPAM"; place = 20000 }
    ∷ []

where_on_route-IsNearest_example :
    (p : Progress) × (where_on_route line route (some 8900) ≡ some p)
    × IsNearest line 8900 fixes
        (legs_between
          (record { name = "FOO"; place = 5000 })
          (record { name = "BAR"; place = 9000 } ∷ record { name = "SPAM"; place = 20000 } ∷ []))
        p.leg
    × IsStanding fixes p
unfolding fixes_of strip
where_on_route-IsNearest_example =
    where_on_route-IsNearest line route 8900 (record { name = "FOO"; place = 5000 })
      (record { name = "BAR"; place = 9000 }) (record { name = "SPAM"; place = 20000 } ∷ []) refl
