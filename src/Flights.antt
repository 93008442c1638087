-- ===== src/Flights.antt =====
-- src/marshall/atc/flights.py: which flights exist, and who is in them. Distances are counted in
-- hundredths of a nautical mile, and times in a unit of the caller's. A refusal is a constructor for
-- each of the texts that the source returns.
pub mod Same
pub mod Invariant
pub mod Keeping
pub mod Membership
mod Tests
use marshall.Prelude.{
  ℕ, String, Bool, true, false, ◌||◌, not, Option, none, some, List, [], ◌∷◌, ◌++◌, ◌==◌, any, keep,
  find_first, ltb, lower, strip, if◌then◌else◌,
}
use marshall.Prelude.Dict
use marshall.Prelude.Dict.{Dict}

abbrev pub join_nm : ℕ
join_nm = 100

-- _same
unfoldable pub same : String → String → Bool
same a b = lower (strip a) == lower (strip b)

pub record Flight : Type 0 where
  pub name : String
  pub lead : String
  pub members : List String
  pub formed_at : ℕ

unfoldable pub has : Flight → String → Bool
has f who = same who f.lead || any (λ m. same who m) f.members

pub data Refusal : Type 0 where
  nameless : Refusal
  exists : String → Refusal
  already_in : String → String → Refusal
  no_flight : String → Refusal
  unseen : String → String → Refusal
  too_far : String → ℕ → String → Refusal

-- `(flight, "")` or `(None, why)`
pub data Answer : Type 0 where
  joined : Flight → Answer
  refused : Refusal → Answer

-- `Roster.flights`; every method takes it and returns what it has become.
abbrev pub Roster : Type 0
Roster = Dict Flight

-- Roster.of
unfoldable pub of : Roster → String → Option Flight
of [] handle = none
of ((k, f) ∷ r) handle = if has f handle then some f else of r handle

abbrev pub or_now : Option ℕ → ℕ → ℕ
or_now none clock = clock
or_now (some t) clock = t

abbrev pub some_name : String → Roster → Bool
some_name name [] = false
some_name name ((k, f) ∷ r) = same name k || some_name name r

abbrev pub opened : String → String → ℕ → Flight
opened name lead at = record { name = name; lead = lead; members = lead ∷ []; formed_at = at }

-- Roster.create, with what time.time() returns
unfoldable pub create : ℕ → String → String → Option ℕ → Roster → Roster × Answer
create clock name lead now r =
    if name == "" || lead == ""
    then (r, refused nameless)
    else if some_name name r
    then (r, refused (exists name))
    else elim (of r lead) [
      | some other ↦ (r, refused (already_in lead other.name))
      | none ↦ let f = opened name lead (or_now now clock) in (Dict.put r name f, joined f)
    ]

-- Roster.dissolve
unfoldable pub dissolve : String → Roster → Roster × List String
dissolve name [] = ([], [])
dissolve name ((k, f) ∷ r) =
    let rest = dissolve name r in if same k name then (r, f.members) else ((k, f) ∷ rest.0, rest.1)

-- next((c for k, c in self.flights.items() if _same(k, name)), None)
unfoldable pub called : String → Roster → Option Flight
called name [] = none
called name ((k, f) ∷ r) = if same k name then some f else called name r

-- A write through a flight that was found by the same test.
unfoldable pub update_first : (String → Flight → Bool) → (Flight → Flight) → Roster → Roster
update_first test change [] = []
update_first test change ((k, f) ∷ r) =
    let rest = update_first test change r in if test k f then (k, change f) ∷ r else (k, f) ∷ rest

abbrev pub with_member : String → Flight → Flight
with_member handle f = record f { members = f.members ++ handle ∷ [] }

abbrev pub without_member : String → Flight → Flight
without_member handle f = record f { members = keep (λ m. not (same m handle)) f.members }

-- the distance check of Roster.join
abbrev pub admit : String → String → Flight → Option ℕ → Roster → Roster × Answer
admit name handle f none r = (r, refused (unseen handle name))
admit name handle f (some d) r =
    if ltb join_nm d
    then (r, refused (too_far handle d name))
    else (update_first (λ k _. same k name) (with_member handle) r, joined (with_member handle f))

-- Roster.join
unfoldable pub join : String → String → Option ℕ → Roster → Roster × Answer
join name handle miles r = elim (called name r) [
  | none ↦ (r, refused (no_flight name))
  | some f ↦ if has f handle then (r, joined f) else elim (of r handle) [
    | some other ↦ (r, refused (already_in handle other.name))
    | none ↦ admit name handle f miles r
  ]
]

abbrev pub is_empty_list : List String → Bool
is_empty_list [] = true
is_empty_list (m ∷ ms) = false

-- Roster.leaves: the name of the flight that it ends, or nothing
unfoldable pub leaves : String → Roster → Roster × String
leaves handle r = elim (of r handle) [
  | none ↦ (r, "")
  | some f ↦
      if same f.lead handle
      then ((dissolve f.name r).0, f.name)
      else let r' = update_first (λ _ g. has g handle) (without_member handle) r in
        if is_empty_list (without_member handle f).members
        then ((dissolve f.name r').0, f.name)
        else (r', "")
]

-- Roster.speaking_as
unfoldable pub speaking_as : String → Roster → String
speaking_as handle r = elim (of r handle) [ some f ↦ f.name | none ↦ handle ]
