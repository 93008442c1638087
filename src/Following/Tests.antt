-- ===== src/Following/Tests.antt =====
-- A route along a line, flown and wandered from.
use marshall.Prelude.{
  All, ◌<◌, ℕ, ◌-◌, ◌+◌, ◌≤◌, ◌≡◌, refl, false, some, List, [], ◌∷◌, leb, if◌then◌else◌, arith,
}
use marshall.Following.{
  ahead, behind, at_least, size, Leg, Along, Geometry, origin, along_leg, guide, next_index,
  off_course,
}
use marshall.Following.Latch.{fly, IsPassed, AtSome, fly-IsPassed, watch}

abbrev line : Geometry ℕ
line = record {
  range_nm = λ a b. (a - b) + (b - a);
  bearing_true = λ a b. if leb a b then 9000 else 27000;
  alongtrack_nm = λ a b c. if leb a c then ahead (c - a) else behind (a - c - 1);
  crosstrack_nm = λ a b c. ahead 0;
}

abbrev route : List (Leg ℕ)
route =
    (record { fix = "ALPHA"; place = 1000; alt_ft = 5000 })
    ∷ (record { fix = "BRAVO"; place = 3000; alt_ft = 6000 })
    ∷ []

-- The first fix by the capture radius, and a wobble does not undo it.
fly-line : fly line route (some 0) (500 ∷ 900 ∷ 700 ∷ 2000 ∷ 3100 ∷ 3200 ∷ []) 0 ≡ 2
unfolding guide along_leg origin next_index at_least
fly-line = refl

abbrev seen : List ℕ
seen = 900 ∷ 2000 ∷ []

fly-IsPassed_example :
    ((0 ≤ fly line route (some 0) seen 0)
      × (fly line route (some 0) seen 0 ≤ 0 + 2)
      × (fly line route (some 0) seen 0 ≤ 2))
    × ((k : ℕ)
        → 0 ≤ k
        → k < fly line route (some 0) seen 0
        → AtSome line route (some 0) (IsPassed line route (some 0) k) seen)
    × (fly line route (some 0) seen 0 ≡ 0
        → All (λ here. IsPassed line route (some 0) 0 here → ⊥) seen)
fly-IsPassed_example = fly-IsPassed line route (some 0) seen 0 (omega arith)

abbrev reading : ℕ → Along
reading off = record {
  index = 1;
  fix = "BRAVO";
  heading_true = 9000;
  distance_nm = 1000;
  alt_ft = 6000;
  xtk_nm = behind off;
  along_nm = ahead 1000;
  leg_nm = 2000;
  passed = false;
}

watch-wander :
    watch 200 100 500 (reading 250 ∷ reading 120 ∷ reading 90 ∷ reading 150 ∷ []) false ≡ false
unfolding off_course at_least size
watch-wander = refl
