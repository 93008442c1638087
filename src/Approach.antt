-- ===== src/Approach.antt =====
-- src/marshall/core/approach.py: the holding levels of an approach, in feet. A property of the source is
-- a function of the profile; the step between two levels is not 0, of which `range` makes an error.
pub mod Stack
mod Tests
use marshall.Prelude.{
  ℕ, zero, suc, ◌+◌, ◌-◌, ◌*◌, ◌/◌, String, Bool, ◌||◌, Option, none, some, List, [], ◌∷◌, ◌==◌,
  leb, if◌then◌else◌,
}

pub record ApproachProfile : Type 0 where
  pub kind : String
  pub vectored : Bool
  pub ceiling_ft : ℕ
  pub cloud_thickness_ft : ℕ
  pub hold_base_ft : ℕ
  pub vmc_margin_ft : ℕ
  pub hold_step_ft : ℕ
  pub hold_top_ft : ℕ

-- -(-int(value) // int(step)) * int(step)
unfoldable pub round_up : ℕ → ℕ → ℕ
round_up value step = ((value + (step - 1)) / step) * step

abbrev pub max : ℕ → ℕ → ℕ
max a b = if leb a b then b else a

abbrev pub tops_ft : ApproachProfile → ℕ
tops_ft p = p.ceiling_ft + p.cloud_thickness_ft

abbrev pub is_vectored : ApproachProfile → Bool
is_vectored p = p.vectored || p.kind == "asr"

-- `base` of stack_ft
unfoldable pub base_of : ApproachProfile → ℕ
base_of p =
    if is_vectored p
    then max p.hold_base_ft (round_up (tops_ft p + p.vmc_margin_ft) p.hold_step_ft)
    else p.hold_base_ft

-- range(base, top + 1, step), on fuel
unfoldable pub levels_from : ℕ → ℕ → ℕ → ℕ → List ℕ
levels_from zero base step top = []
levels_from (suc fuel) base step top =
    let rest = levels_from fuel (base + step) step top in if leb base top then base ∷ rest else []

-- ApproachProfile.stack_ft
unfoldable pub stack_ft : ApproachProfile → List ℕ
stack_ft p = levels_from (suc p.hold_top_ft) (base_of p) p.hold_step_ft p.hold_top_ft

-- ApproachProfile.top_ft, and nothing for the IndexError of an empty stack
unfoldable pub last_of : List ℕ → Option ℕ
last_of [] = none
last_of (x ∷ []) = some x
last_of (x ∷ y ∷ ys) = last_of (y ∷ ys)

unfoldable pub top_ft : ApproachProfile → Option ℕ
top_ft p = last_of (stack_ft p)
