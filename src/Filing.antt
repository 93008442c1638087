-- ===== src/Filing.antt =====
-- Filing a flight plan: `check` of src/marshall/atc/filing.py, its refusals and its warnings. The board and
-- the chart are its arguments, as in the source; `_nm_apart` of a point and a published one is an argument
-- by whether it is above one mile.
pub mod Keys
pub mod Accepting
pub mod Board
pub mod Naming
pub mod Keeping
pub mod Undone
mod Tests
use marshall.Prelude.{
  ℕ, zero, suc, ◌%◌, String, Bool, true, false, not, ◌&&◌, ◌||◌, Option, none, some, List, [], ◌∷◌,
  ◌++◌, ◌==◌, keep, map, ltb, eqb, is_in, lower, strip, length, if◌then◌else◌,
}
use marshall.Prelude.Dict
use marshall.Prelude.Dict.{Dict}
use marshall.Filing.Keys.{name_ok, label_ok, key_for, near, words}

-- A leg: its fix, where the plan puts it if it gives a latitude and a longitude, and what `int` makes of its
-- altitude, where that is a number that is not negative.
pub record Leg (Pos : Type 0) : Type 0 where
  pub fix : String
  pub place : Option Pos
  pub alt_ft : Option ℕ

-- The FIELDS of a plan; an absent one is "".
pub record Plan (Pos : Type 0) : Type 0 where
  pub name : String
  pub label : String
  pub legs : List (Leg Pos)
  pub task : String
  pub origin : String

pub data Refusal : Type 0 where
  unusable_key : Refusal
  unsayable_label : Refusal
  label_taken : String → String → Refusal
  no_legs : Refusal
  unnamed_leg : ℕ → Refusal
  unknown_fix : String → Refusal
  no_altitude : String → Refusal
  no_task : Refusal
  no_such_plan : String → Refusal

pub data Warning : Type 0 where
  sounds_like : String → String → String → Warning
  also_published : String → Warning
  not_round : String → ℕ → Warning
  repeats_destination : String → Warning

abbrev pub or_else : String → String → String
or_else a b = if a == "" then b else a

-- if test: ....append(item)
abbrev pub when {ℓ} : {A : Type ℓ} → Bool → A → List A
when test item = if test then item ∷ [] else []

-- {k: v for k, v in taken.items() if v != own}
unfoldable pub others : String → List (String × String) → List (String × String)
others own [] = []
others own ((k, v) ∷ taken) =
    let rest = others own taken in if v == own then rest else (k, v) ∷ rest

unfoldable pub too_close : String → List (String × String) → List Warning
too_close label [] = []
too_close label ((other, name) ∷ taken) =
    when (near label other) (sounds_like label other name) ++ too_close label taken

unfoldable pub refuse_label : String → List (String × String) → List Refusal
refuse_label label taken = elim (Dict.get taken (lower label)) [
  | none ↦ []
  | some owner ↦ label_taken label owner ∷ []
]

unfoldable pub warn_label : String → List (String × String) → List Warning
warn_label label taken = elim (Dict.get taken (lower label)) [
  | none ↦ too_close label taken
  | some owner ↦ []
]

module _ {Pos : Type 0} where
  -- name or key_for(label)
  unfoldable pub key_of : Plan Pos → String
  key_of plan = or_else (strip plan.name) (key_for (strip plan.label))

  unfoldable pub is_carried : Leg Pos → Bool
  is_carried leg = elim leg.place [ none ↦ false | some p ↦ true ]

  unfoldable pub refuse_altitude : Leg Pos → List Refusal
  refuse_altitude leg = elim leg.alt_ft [ none ↦ no_altitude (strip leg.fix) ∷ [] | some ft ↦ [] ]

  unfoldable pub refuse_leg : List String → ℕ → Leg Pos → List Refusal
  refuse_leg fixes i leg =
      if strip leg.fix == ""
      then unnamed_leg i ∷ []
      else when (not (is_carried leg) && not (is_in (lower (strip leg.fix)) fixes))
          (unknown_fix (strip leg.fix))
        ++ refuse_altitude leg

  -- for i, leg in enumerate(legs, start=i)
  unfoldable pub refuse_legs : List String → ℕ → List (Leg Pos) → List Refusal
  refuse_legs fixes i [] = []
  refuse_legs fixes i (leg ∷ legs) = refuse_leg fixes i leg ++ refuse_legs fixes (suc i) legs

  unfoldable pub no_leg : List (Leg Pos) → Bool
  no_leg [] = true
  no_leg (leg ∷ legs) = false

  -- The refusals of `check`; `own` is `updating or name`.
  unfoldable pub refusals : Plan Pos → List String → List (String × String) → String → List Refusal
  refusals plan fixes taken updating =
      when (not (name_ok (key_of plan))) unusable_key
      ++ (when (not (label_ok (strip plan.label))) unsayable_label
          ++ (refuse_label (strip plan.label) (others (or_else updating (key_of plan)) taken)
              ++ (when (no_leg plan.legs) no_legs
                  ++ (refuse_legs fixes 1 plan.legs ++ when (strip plan.task == "") no_task))))

  unfoldable pub warn_place : (Pos → Pos → Bool) → List String → Dict Pos → Leg Pos → List Warning
  warn_place far fixes at leg = elim leg.place [
    | none ↦ []
    | some here ↦ elim (Dict.get at (lower (strip leg.fix))) [
      | none ↦ []
      | some there ↦
          when (is_in (lower (strip leg.fix)) fixes && far there here)
            (also_published (strip leg.fix))
    ]
  ]

  unfoldable pub warn_altitude : Bool → Leg Pos → List Warning
  warn_altitude is_last leg = elim leg.alt_ft [
    | none ↦ []
    | some ft ↦ when (not (eqb (ft % 100) 0) && not is_last) (not_round (strip leg.fix) ft)
  ]

  unfoldable pub warn_legs :
      (Pos → Pos → Bool) → List String → Dict Pos → List (Leg Pos) → List Warning
  warn_legs far fixes at [] = []
  warn_legs far fixes at (leg ∷ legs) =
      let later = warn_legs far fixes at legs in
      if strip leg.fix == ""
      then later
      else warn_place far fixes at leg ++ (warn_altitude (no_leg legs) leg ++ later)

  unfoldable pub last_fix : List (Leg Pos) → String
  last_fix [] = ""
  last_fix (leg ∷ []) = leg.fix
  last_fix (leg ∷ next ∷ legs) = last_fix (next ∷ legs)

  unfoldable pub warn_task : Plan Pos → List Warning
  warn_task plan =
      if strip plan.task == "" || no_leg plan.legs
      then []
      else map repeats_destination
          (keep (λ w. is_in w (words plan.task)) (words (last_fix plan.legs)))

  -- check
  unfoldable pub check :
      (Pos → Pos → Bool)
      → Plan Pos
      → List String
      → List (String × String)
      → String
      → Dict Pos
      → List Refusal × List Warning
  check far plan fixes taken updating at = (
    refusals plan fixes taken updating,
    warn_label (strip plan.label) (others (or_else updating (key_of plan)) taken)
        ++ (warn_legs far fixes at plan.legs ++ warn_task plan),
  )
