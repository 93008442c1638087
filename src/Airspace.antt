-- ===== src/Airspace.antt =====
-- src/marshall/core/airspace.py: the lowest safe altitudes, and how far a terminal area reaches.
-- Distances are counted in hundredths of a nautical mile and bearings in hundredths of a degree.
pub mod Reach
pub mod Altitude
mod Tests
use Prim.Native.Nat.{max}
use marshall.Prelude.{
  ℕ, ◌+◌, ◌%◌, String, Bool, true, false, not, ◌&&◌, ◌||◌, Option, none, some, List, [], ◌∷◌, ◌==◌,
  lower, ltb, leb, eqb, if◌then◌else◌,
}

abbrev pub full_circle : ℕ
full_circle = 36000

abbrev pub terminal_nm : ℕ
terminal_nm = 2500

abbrev pub manoeuvre_nm : ℕ
manoeuvre_nm = 500

-- A sector `(lo, hi, alt)`; one with `hi` at or below `lo` goes through north.
pub record Sector : Type 0 where
  pub lo : ℕ
  pub hi : ℕ
  pub alt : ℕ

unfoldable pub inside : ℕ → ℕ → ℕ → Bool
inside lo hi b = if ltb lo hi then leb lo b && ltb b hi else leb lo b || ltb b hi

-- max(a for _, _, a in sectors), which the source takes of tables that are not empty
unfoldable pub highest : List Sector → ℕ
highest [] = 0
highest (s ∷ ss) = max s.alt (highest ss)

alt_in : ℕ → List Sector → Option ℕ
alt_in b [] = none
alt_in b (s ∷ ss) = if inside s.lo s.hi b then some s.alt else alt_in b ss

unfoldable pub alt_for : ℕ → List Sector → ℕ
unfolding alt_in
alt_for bearing sectors = elim (alt_in (bearing % full_circle) sectors) [
  | some a ↦ a
  | none ↦ highest sectors
]

abbrev pub msa_sectors : List Sector
msa_sectors =
    record { lo = 21700; hi = 3800; alt = 7000 }
    ∷ record { lo = 3800; hi = 21700; alt = 13600 }
    ∷ []

-- `sectors or MSA_SECTORS`
abbrev or_default : Option (List Sector) → List Sector
or_default none = msa_sectors
or_default (some []) = msa_sectors
or_default (some (s ∷ ss)) = s ∷ ss

unfoldable pub msa_for : ℕ → Option (List Sector) → ℕ
unfolding alt_for
msa_for bearing sectors = alt_for bearing (or_default sectors)

-- A cell `(lo, hi, out_to, alt)` of the vectoring chart.
pub record Cell : Type 0 where
  pub lo : ℕ
  pub hi : ℕ
  pub out_to : ℕ
  pub alt : ℕ

unfoldable pub highest_cell : List Cell → ℕ
highest_cell [] = 0
highest_cell (c ∷ cs) = max c.alt (highest_cell cs)

-- `best` where no range was given: the highest altitude of the sector so far
unfoldable pub best_overall : List Cell → ℕ → Option ℕ → Option ℕ
unfolding inside
best_overall [] b best = best
best_overall (c ∷ cs) b best =
    best_overall cs b (
      if inside c.lo c.hi b then some (elim best [ none ↦ c.alt | some a ↦ max a c.alt ]) else best)

abbrev closer : ℕ → Option (ℕ × ℕ) → Bool
closer out_to none = true
closer out_to (some (o, a)) = ltb out_to o

-- `best` where a range was given: the nearest ring that reaches it, with its altitude
unfoldable pub best_within : List Cell → ℕ → ℕ → Option (ℕ × ℕ) → Option (ℕ × ℕ)
unfolding inside
best_within [] b range best = best
best_within (c ∷ cs) b range best = best_within cs b range (
    if inside c.lo c.hi b && (leb range c.out_to && closer c.out_to best)
    then some (c.out_to, c.alt)
    else best)

-- The table is an argument: the source's MVA_CELLS, or a chart of the caller's.
unfoldable pub mva_for : ℕ → Option ℕ → List Cell → ℕ
mva_for bearing none cells = elim (best_overall cells (bearing % full_circle) none) [
  | none ↦ highest_cell cells
  | some a ↦ a
]
mva_for bearing (some range) cells = elim (best_within cells (bearing % full_circle) range none) [
  | none ↦ highest_cell cells
  | some (o, a) ↦ a
]

-- Positions and the great-circle distance between two of them are not modelled: they are parameters.
pub record Fix {ℓ} (Place : Type ℓ) : Type ℓ where
  pub name : String
  pub place : Option Place

-- The fixes that a published procedure names.
pub record Procedure {ℓ} (Place : Type ℓ) : Type ℓ where
  pub outer_hold : Option (Fix Place)
  pub iaf : Option (Fix Place)
  pub arrival_fix : Option (Fix Place)
  pub navaid : Option (Fix Place)
  pub aerodrome : Option (Fix Place)

module _ {ℓ} {Place : Type ℓ} where
  abbrev pub aerodrome_name : Procedure Place → String
  aerodrome_name p = elim p.aerodrome [ none ↦ "" | some f ↦ f.name ]

  abbrev pub fixes : Procedure Place → List (Option (Fix Place))
  fixes p = p.outer_hold ∷ p.iaf ∷ p.arrival_fix ∷ p.navaid ∷ p.aerodrome ∷ []

module _ {ℓ} {Place : Type ℓ} (nm_between : Place → Place → ℕ) where
  -- max(far, _nm_between(field, f)), for a fix that has a position
  abbrev pub further : Place → ℕ → Option (Fix Place) → ℕ
  further here far none = far
  further here far (some f) = elim f.place [ none ↦ far | some at ↦ max far (nm_between here at) ]

  unfoldable pub furthest : Place → ℕ → List (Option (Fix Place)) → ℕ
  furthest here far [] = far
  furthest here far (f ∷ fs) = furthest here (further here far f) fs

  unfoldable pub over_procedures : Place → String → ℕ → List (Procedure Place) → ℕ
  over_procedures here name far [] = far
  over_procedures here name far (p ∷ ps) =
      over_procedures here name
        (if lower (aerodrome_name p) == lower name then furthest here far (fixes p) else far) ps

  unfoldable pub procedure_reach_nm : Option (Fix Place) → List (Procedure Place) → ℕ
  procedure_reach_nm none procedures = 0
  procedure_reach_nm (some field) procedures = elim field.place [
    | none ↦ 0
    | some here ↦
        let far = over_procedures here field.name 0 procedures in
        if eqb far 0 then 0 else far + manoeuvre_nm
  ]

  -- `others` is accepted and not used by the source.
  unfoldable pub terminal_reach_nm : Option (Fix Place) → List (Procedure Place) → ℕ
  terminal_reach_nm field procedures = max terminal_nm (procedure_reach_nm field procedures)
