-- ===== src/Controller.antt =====
-- src/marshall/atc/controller.py: the board, its letdowns and its stacks. The aircraft stand on the board
-- under their callsigns; an operation takes the aircraft that `get` has found, and writes it back. Of a
-- transmission the engine keeps the decision beside the words. Levels are feet, times are seconds.
pub mod Levels
pub mod Clearing
pub mod Letdown
pub mod Sequence
pub mod Runway
pub mod Order
pub mod Sorting
pub mod Reporting
pub mod Takeoff
pub mod Sighted
pub mod Missed
pub mod Clock
pub mod Passing
pub mod Rounds
pub mod Landing
pub mod Cleared
pub mod Strip
pub mod Ground
pub mod Agreed
pub mod Waiting
pub mod Asking
mod Samples
pub mod Ticking
mod Tests
use marshall.Prelude.{
  ℕ, ◌+◌, String, Bool, true, false, not, ◌&&◌, ◌||◌, Option, none, some, List, [], ◌∷◌, ◌++◌, ◌==◌,
  find_first, any, keep, ltb, leb, eqb, str_leb, if◌then◌else◌,
}
use marshall.Prelude.Dict
use marshall.Prelude.Dict.{Dict}

pub data Phase : Type 0 where
  unknown : Phase
  enroute : Phase
  holding : Phase
  cleared : Phase
  missed : Phase
  landed : Phase

unfoldable pub is_holding : Phase → Bool
is_holding holding = true
is_holding unknown = false
is_holding enroute = false
is_holding cleared = false
is_holding missed = false
is_holding landed = false

unfoldable pub is_missed : Phase → Bool
is_missed missed = true
is_missed unknown = false
is_missed enroute = false
is_missed holding = false
is_missed cleared = false
is_missed landed = false

unfoldable pub is_landed : Phase → Bool
is_landed landed = true
is_landed unknown = false
is_landed enroute = false
is_landed holding = false
is_landed cleared = false
is_landed missed = false

-- What the engine reads of an `ApproachProfile`: `aerodrome.name`, its levels, and what `may_vector` says.
-- Its `outer_hold`, which a sentence names, is a fix and not `None`, as its annotation says.
pub record Approach : Type 0 where
  pub aerodrome : String
  pub stack_ft : List ℕ
  pub missed_ft : ℕ
  pub final_approach_sec : ℕ
  pub may_vector : Bool

pub record Aircraft : Type 0 where
  pub callsign : String
  pub phase : Phase
  pub sortie_phase : String
  pub assigned_ft : Option ℕ
  pub cleared_ft : Option ℕ
  pub profile : Option Approach
  pub last_report_t : ℕ
  pub approaches : ℕ
  pub map_t : Option ℕ
  pub has_been_airborne : Bool
  pub runway_vacated : Bool
  pub following : Bool
  pub following_to : String
  pub following_leg : ℕ
  pub track : String
  pub clearance_agreed : Option Bool
  pub radar_identified : Bool
  pub on_visual : Bool

-- A decision's kind, to whom, and its level, role, letter or what is to be said again; the runway and the
-- station's name and frequency, which only the words need, are left out. `parking` is the kind "taxi" with
-- that note.
pub data Decision : Type 0 where
  hold : String → ℕ → Decision
  level : String → ℕ → Decision
  continue_hold : String → Option ℕ → Decision
  cleared_approach : String → Decision
  hold_short : String → Decision
  cleared_takeoff : String → Decision
  continue_approach : String → Decision
  refuse : String → String → Decision
  handoff : String → String → Decision
  following_ends : String → Decision
  advise_atis : String → String → Decision
  say_again : String → List String → Decision
  taxi : String → Decision
  parking : String → Decision

pub record Engine : Type 0 where
  pub aircraft : Dict Aircraft
  pub profile : Option Approach
  pub letdown_by : Dict String
  pub letdown_since_by : Dict ℕ
  pub runway_by : Dict String
  pub runway_since_by : Dict ℕ
  pub seen_on_runway : Dict (List String)
  pub anomalies : List String
  pub decided : List Decision
  pub t : ℕ

-- What is written to an aircraft on the board.
unfoldable pub write : Aircraft → Engine → Engine
write ac e = record e { aircraft = Dict.put e.aircraft ac.callsign ac }

unfoldable pub say : Decision → Engine → Engine
say d e = record e { decided = e.decided ++ d ∷ [] }

unfoldable pub anomaly : String → Engine → Engine
anomaly who e = record e { anomalies = e.anomalies ++ who ∷ [] }

unfoldable pub procedure_of : Aircraft → Option Approach → Option Approach
procedure_of ac fallback = elim ac.profile [ some p ↦ some p | none ↦ fallback ]

-- Controller._pro, also of no aircraft
unfoldable pub pro : Engine → Option Aircraft → Option Approach
pro e none = e.profile
pro e (some ac) = procedure_of ac e.profile

-- Controller._key
unfoldable pub key : Engine → Option Aircraft → String
key e ref = elim (pro e ref) [ none ↦ "" | some p ↦ p.aerodrome ]

unfoldable pub in_letdown : Engine → Option Aircraft → Option String
in_letdown e ref = Dict.get e.letdown_by (key e ref)

unfoldable pub set_letdown : Option Aircraft → Option String → Engine → Engine
set_letdown ac none e = record e {
  letdown_by = Dict.remove e.letdown_by (key e ac);
  letdown_since_by = Dict.remove e.letdown_since_by (key e ac);
}
set_letdown ac (some who) e = record e {
  letdown_by = Dict.put e.letdown_by (key e ac) who;
  letdown_since_by = Dict.put e.letdown_since_by (key e ac) e.t;
}

-- Controller._same_stack
unfoldable pub same_stack : Engine → Option Aircraft → Aircraft → Bool
same_stack e none a = true
same_stack e (some ref) a =
    let mine = key e (some ref) in
    let his = key e (some a) in mine == "" || (his == "" || mine == his)

abbrev pub level_of : Aircraft → ℕ
level_of a = elim a.assigned_ft [ some ft ↦ ft | none ↦ 0 ]

abbrev pub is_assigned : Aircraft → Bool
is_assigned a = elim a.assigned_ft [ some ft ↦ true | none ↦ false ]

-- The order of the stack: by level, then by callsign.
unfoldable pub before : Aircraft → Aircraft → Bool
before a b =
    ltb (level_of a) (level_of b)
    || (eqb (level_of a) (level_of b) && str_leb a.callsign b.callsign)

unfoldable pub insert : Aircraft → List Aircraft → List Aircraft
insert a [] = a ∷ []
insert a (b ∷ bs) = let rest = insert a bs in if before a b then a ∷ b ∷ bs else b ∷ rest

unfoldable pub sorted : List Aircraft → List Aircraft
sorted [] = []
sorted (a ∷ bs) = insert a (sorted bs)

unfoldable pub holds_here : Engine → Option Aircraft → Aircraft → Bool
holds_here e ref a = is_holding a.phase && (is_assigned a && same_stack e ref a)

-- Controller._holders
unfoldable pub holders : Engine → Option Aircraft → List Aircraft
holders e ref = sorted (keep (holds_here e ref) (Dict.values e.aircraft))

abbrev pub level_in : ℕ → List ℕ → Bool
level_in ft = any (eqb ft)

abbrev pub levels_of : List Aircraft → List ℕ
levels_of [] = []
levels_of (a ∷ bs) = level_of a ∷ levels_of bs

unfoldable pub up_there : Engine → Option Aircraft → Aircraft → Bool
up_there e ref a =
    is_assigned a && (not (is_holding a.phase || is_landed a.phase) && same_stack e ref a)

-- Controller._spoken_for
unfoldable pub spoken_for : Engine → Option Aircraft → List ℕ
spoken_for e ref = levels_of (keep (up_there e ref) (Dict.values e.aircraft))

unfoldable pub stack_of : Engine → Option Aircraft → List ℕ
stack_of e ref = elim (pro e ref) [ none ↦ [] | some p ↦ p.stack_ft ]

-- Controller._free_slot
unfoldable pub free_slot : Engine → Option Aircraft → Option ℕ
free_slot e ac =
    let taken = levels_of (holders e ac) ++ spoken_for e ac in
    find_first (λ ft. not (level_in ft taken)) (stack_of e ac)

-- Controller._the_approach_takes_over
unfoldable pub the_approach_takes_over : Aircraft → Aircraft
the_approach_takes_over ac =
    if ac.following
    then record ac { following = false; following_to = ""; following_leg = 0 }
    else ac

-- min(missed, key=lambda a: a.approaches): the first of the least
unfoldable pub fewest : List Aircraft → Option Aircraft
fewest [] = none
fewest (a ∷ bs) = elim (fewest bs) [
  | none ↦ some a
  | some b ↦ if leb a.approaches b.approaches then some a else some b
]

abbrev pub first : List Aircraft → Option Aircraft
first [] = none
first (a ∷ bs) = some a

unfoldable pub going_around : Engine → Option Aircraft → Aircraft → Bool
going_around e ref a = is_missed a.phase && same_stack e ref a

-- Controller._next_up
unfoldable pub next_up : Engine → Option Aircraft → Option Aircraft
next_up e ref = elim (fewest (keep (going_around e ref) (Dict.values e.aircraft))) [
  | some a ↦ some a
  | none ↦ first (holders e ref)
]
