-- ===== src/Phases.antt =====
-- src/marshall/atc/phases.py: the phases of a sortie, who works each, and the one that the facts
-- point at. Each phase's `note` is prose that no function reads, and is left out.
pub mod Table
pub mod Deriving
pub mod Ladder
mod Tests
use marshall.Prelude.{
  ℕ, String, Bool, true, false, not, ◌&&◌, ◌||◌, Option, none, some, List, [], ◌∷◌, ◌==◌, is_in,
  find_first, keep, map, lower, if◌then◌else◌,
}

pub record Phase : Type 0 where
  pub name : String
  pub owner : String
  pub aims_at : String
  pub follows : List String
  pub handler : String

abbrev row : String → String → String → List String → String → Phase
row n o a f h = record { name = n; owner = o; aims_at = a; follows = f; handler = h }

abbrev asr_guide : String
asr_guide = "marshall.atc.asr:guide"

-- PHASES, in the order of the source
abbrev pub phases : List Phase
phases =
    row "unknown" "" "none"
      ("enroute" ∷ "clearance" ∷ "taxi" ∷ "arrival" ∷ "holding" ∷ "approach" ∷ []) ""
    ∷ row "filed" "" "none" ("clearance" ∷ "taxi" ∷ "enroute" ∷ []) ""
    ∷ row "clearance" "delivery" "none" ("taxi" ∷ "filed" ∷ []) ""
    ∷ row "taxi" "ground" "none" ("holding_short" ∷ []) ""
    ∷ row "holding_short" "tower" "none" ("departure" ∷ "taxi" ∷ []) ""
    ∷ row "departure" "departure" "course" ("enroute" ∷ "arrival" ∷ "landed" ∷ []) ""
    ∷ row "enroute" "center" "point" ("tasked" ∷ "arrival" ∷ "rtb" ∷ "holding" ∷ "landed" ∷ []) ""
    ∷ row "tasked" "overlord" "point" ("on_station" ∷ "rtb" ∷ "enroute" ∷ "landed" ∷ []) ""
    ∷ row "on_station" "overlord" "orbit" ("tasked" ∷ "rtb" ∷ "landed" ∷ []) ""
    ∷ row "rtb" "center" "point" ("arrival" ∷ "enroute" ∷ "landed" ∷ []) ""
    ∷ row "arrival" "approach" "course" ("holding" ∷ "approach" ∷ "landed" ∷ []) asr_guide
    ∷ row "holding" "approach" "orbit" ("approach" ∷ "landed" ∷ []) ""
    ∷ row "approach" "approach" "course" ("missed" ∷ "landed" ∷ []) asr_guide
    ∷ row "missed" "approach" "course" ("holding" ∷ "approach" ∷ "enroute" ∷ "landed" ∷ [])
        asr_guide
    ∷ row "landed" "tower" "none" ("taxi_in" ∷ []) ""
    ∷ row "taxi_in" "ground" "none" [] ""
    ∷ []

-- FLOWN
abbrev pub flown : List String
flown = map (λ p. p.name) (keep (λ p. not (p.handler == "")) phases)

unfoldable pub get : String → Option Phase
get name = find_first (λ p. p.name == lower name) phases

abbrev follows_of : Option Phase → List String
follows_of none = []
follows_of (some p) = p.follows

unfoldable pub may_follow : String → String → Bool
may_follow current nxt = is_in (lower nxt) (follows_of (get current))

abbrev owner_in : Option Phase → String
owner_in none = ""
owner_in (some p) = p.owner

unfoldable pub owner_of : String → String
owner_of name = owner_in (get name)

abbrev pub on_the_ground : List String
on_the_ground = "clearance" ∷ "taxi" ∷ "holding_short" ∷ "landed" ∷ "taxi_in" ∷ []

abbrev pub not_yet : List String
not_yet = "" ∷ "unknown" ∷ "filed" ∷ []

abbrev pub airborne_only : List String
airborne_only =
    "enroute" ∷ "tasked" ∷ "on_station" ∷ "rtb" ∷ "arrival" ∷ "holding" ∷ "approach" ∷ "missed" ∷ []

abbrev pub straddles : List String
straddles = "departure" ∷ []

unfoldable pub has_flown : String → Bool
has_flown phase = is_in (lower phase) airborne_only

-- What a caller of `derive` knows. `on_ground` is `none` where nothing has told it.
pub record Facts : Type 0 where
  pub on_ground : Option Bool
  pub separation : String
  pub was_airborne : Bool
  pub worked_by : String

abbrev is_true : Option Bool → Bool
is_true (some true) = true
is_true _ = false

abbrev is_false : Option Bool → Bool
is_false (some false) = true
is_false _ = false

-- `current or "clearance"`
abbrev seeded : String → String
seeded current = if current == "" then "clearance" else current

unfoldable pub wanted : String → Option Bool → String → Bool → String → String
unfolding has_flown
wanted current on_ground sep was_airborne worked_by =
    if is_true on_ground
    then if was_airborne || has_flown current || sep == "landed" then "landed" else seeded current
    else if sep == "landed"
    then "landed"
    else if is_false on_ground && is_in current ("clearance" ∷ "taxi" ∷ "holding_short" ∷ [])
    then "departure"
    else if sep == "missed"
    then "missed"
    else if sep == "cleared"
    then "approach"
    else if sep == "holding"
    then "holding"
    else if worked_by == "approach" && is_in current ("departure" ∷ "enroute" ∷ "rtb" ∷ "" ∷ [])
    then "arrival"
    else if worked_by == "center" && is_in current ("departure" ∷ "" ∷ [])
    then "enroute"
    else current

-- The phase, and the call of `refused(current, want)` if it is made.
pub record Derived : Type 0 where
  pub phase : String
  pub refused : Option (String × String)

-- The legality check: what `derive` makes of the phase that the facts want.
unfoldable pub settle : String → String → Derived
settle current want =
    if want == "" || want == current
    then record { phase = if current == "" then want else current; refused = none }
    else if current == "" || current == "unknown"
    then record { phase = want; refused = none }
    else if may_follow current want
    then record { phase = want; refused = none }
    else record { phase = current; refused = some (current, want) }

unfoldable pub derive : String → Facts → Derived
unfolding settle
derive current f =
    settle current
      (wanted current f.on_ground (lower f.separation) f.was_airborne (lower f.worked_by))

unfoldable pub flies_geometry : String → Bool
flies_geometry phase = elim (get phase) [
  | none ↦ false
  | some p ↦ not (p.aims_at == "none") && not (p.handler == "")
]

-- `fly handler pos profile` is the imported function that the handler names.
module _ {Pos Profile Guidance : Type 0} (fly : String → Pos → Profile → Guidance) where
  unfoldable pub guide : String → Pos → Profile → Option Guidance
  guide phase pos profile = elim (get phase) [
    | none ↦ none
    | some p ↦ if p.handler == "" then none else some (fly p.handler pos profile)
  ]
