-- ===== src/Progress.antt =====
-- How far along his route an aircraft is: `_fixes`, `_distance_to_leg` and `where` of
-- src/marshall/atc/progress.py. The geometry, `_leg_offset` and `range_bearing_true`, is an argument.
pub mod Standing
pub mod Nearest
mod Tests
use marshall.Prelude.{
  ℕ, zero, suc, ◌+◌, String, Bool, true, false, not, ◌&&◌, Option, none, some, List, [], ◌∷◌, ◌==◌,
  map, length, take, drop, leb, ltb, strip, if◌then◌else◌,
}
use marshall.Following.{Signed, ahead, behind}
use marshall.Filing.{Leg}

abbrev pub reached_nm : ℕ
reached_nm = 200

abbrev pub off_route_nm : ℕ
off_route_nm = 1000

pub record Fix (Pos : Type 0) : Type 0 where
  pub name : String
  pub place : Pos

-- `leg` is the index of the fix ahead.
pub record Progress : Type 0 where
  pub leg : ℕ
  pub from_fix : String
  pub to_fix : String
  pub nm_to_next : Option ℕ
  pub bearing_to_next : Option ℕ
  pub reached : List String

-- Progress.done
unfoldable pub is_done : Progress → Bool
is_done p = p.to_fix == ""

-- What `_leg_offset` answers of a position and a leg.
pub record Offset : Type 0 where
  pub along : Signed
  pub cross : ℕ
  pub leg_nm : ℕ

pub record Geometry (Pos : Type 0) : Type 0 where
  pub leg_offset : Pos → Pos → Pos → Offset
  pub range_nm : Pos → Pos → ℕ
  pub bearing_true : Pos → Pos → ℕ

-- along < 0; what is behind by `n` is at -(n + 1)
abbrev pub is_behind : Signed → Bool
is_behind (ahead n) = false
is_behind (behind n) = true

-- along >= leg_nm - slack
abbrev pub is_within : Signed → ℕ → ℕ → Bool
is_within (ahead n) leg_nm slack = leb leg_nm (n + slack)
is_within (behind n) leg_nm slack = leb (leg_nm + n + 1) slack

-- along > leg_nm
abbrev pub is_beyond : Signed → ℕ → Bool
is_beyond (ahead n) leg_nm = ltb leg_nm n
is_beyond (behind n) leg_nm = false

-- fixes[-1][0], of the names behind him
unfoldable pub last_name : List String → String
last_name [] = ""
last_name (n ∷ []) = n
last_name (n ∷ m ∷ ns) = last_name (m ∷ ns)

-- The index of the fix ahead, on the nearest leg
unfoldable pub leg_ahead : ℕ → Offset → ℕ → ℕ
leg_ahead best o count =
    if is_within o.along o.leg_nm reached_nm && leb (best + 3) count
    then best + 2
    else if is_within o.along o.leg_nm 0 && leb count (best + 2)
    then count
    else if is_behind o.along
    then best
    else best + 1

module _ {A : Type 0} (key : A → ℕ) where
  -- The first of the smallest, with its index, among the best so far and the rest.
  unfoldable pub closest_from : ℕ → ℕ × A → List A → ℕ × A
  closest_from i best [] = best
  closest_from i (j, b) (a ∷ more) =
      closest_from (suc i) (if ltb (key a) (key b) then (i, a) else (j, b)) more

  -- min(range(...), key=...)
  abbrev pub closest : A → List A → ℕ × A
  closest first rest = closest_from 1 (0, first) rest

module _ {Pos : Type 0} where
  unfoldable pub fixes_of : List (Leg Pos) → List (Fix Pos)
  fixes_of [] = []
  fixes_of (leg ∷ legs) =
      let rest = fixes_of legs in
      elim leg.place [
        | none ↦ rest
        | some p ↦
            if strip leg.fix == "" then rest else record { name = strip leg.fix; place = p } ∷ rest
      ]

  -- (fixes[i], fixes[i + 1]), of the fixes after one
  unfoldable pub legs_between : Fix Pos → List (Fix Pos) → List (Fix Pos × Fix Pos)
  legs_between a [] = []
  legs_between a (b ∷ fixes) = (a, b) ∷ legs_between b fixes

  abbrev pub names_of : List (Fix Pos) → List String
  names_of fixes = map (λ (f : Fix Pos). f.name) fixes

  module _ (geo : Geometry Pos) (pos : Pos) where
    unfoldable pub distance_to_leg : Fix Pos × Fix Pos → ℕ
    distance_to_leg (a, b) =
        let o = geo.leg_offset pos a.place b.place in
        if is_behind o.along
        then geo.range_nm a.place pos
        else if is_beyond o.along o.leg_nm
        then geo.range_nm b.place pos
        else o.cross

    unfoldable pub range_to : Fix Pos → ℕ
    range_to f = geo.range_nm f.place pos

    unfoldable pub heading_for : ℕ → List (Fix Pos) → Fix Pos → Progress
    heading_for leg fixes next = record {
      leg = leg;
      from_fix = last_name (names_of (take leg fixes));
      to_fix = next.name;
      nm_to_next = some (geo.range_nm pos next.place);
      bearing_to_next = some (geo.bearing_true pos next.place);
      reached = names_of (take leg fixes);
    }

    -- The fix at that index, or the end of the route
    unfoldable pub standing_at : ℕ → List (Fix Pos) → Progress
    standing_at leg fixes = elim (drop leg fixes) [
      | next ∷ later ↦ heading_for leg fixes next
      | [] ↦ record {
        leg = leg;
        from_fix = last_name (names_of fixes);
        to_fix = "";
        nm_to_next = none;
        bearing_to_next = none;
        reached = names_of (take leg fixes);
      }
    ]

    unfoldable pub on_or_off :
        List (Fix Pos) → Fix Pos → List (Fix Pos) → ℕ × (Fix Pos × Fix Pos) → Progress
    on_or_off fixes first rest (best, (a, b)) =
        let near = closest range_to first rest in
        if ltb off_route_nm (distance_to_leg (a, b))
        then heading_for near.0 fixes near.1
        else standing_at (leg_ahead best (geo.leg_offset pos a.place b.place) (length fixes)) fixes

    unfoldable pub along_route : List (Fix Pos) → Option Progress
    along_route [] = none
    along_route (f ∷ []) = some (heading_for 0 (f ∷ []) f)
    along_route (f ∷ g ∷ fixes) = some (
        on_or_off (f ∷ g ∷ fixes) f (g ∷ fixes)
          (closest distance_to_leg (f, g) (legs_between g fixes)))

  -- where
  unfoldable pub where_on_route : Geometry Pos → List (Leg Pos) → Option Pos → Option Progress
  where_on_route geo legs none = none
  where_on_route geo legs (some pos) = along_route geo pos (fixes_of legs)
