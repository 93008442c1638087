-- ===== src/Approach/Tests.antt =====
-- The stacks of a beacon letdown and of a radar approach.
use marshall.Prelude.{
  ℕ, ◌+◌, ◌≤◌, ◌≡◌, refl, true, false, none, [], ◌∷◌, All, Pairwise, any, eqb, arith,
}
use marshall.Approach.{ApproachProfile, round_up, base_of, levels_from, stack_ft, last_of, top_ft}
use marshall.Approach.Stack.{above, stack_ft-levels}

abbrev beacon : ApproachProfile
beacon = record {
  kind = "ndb";
  vectored = false;
  ceiling_ft = 1500;
  cloud_thickness_ft = 3200;
  hold_base_ft = 4000;
  vmc_margin_ft = 1000;
  hold_step_ft = 1000;
  hold_top_ft = 7000;
}

abbrev radar : ApproachProfile
radar = record beacon { kind = "asr" }

abbrev overcast : ApproachProfile
overcast = record radar { ceiling_ft = 6000 }

stack_ft-beacon : stack_ft beacon ≡ 4000 ∷ 5000 ∷ 6000 ∷ 7000 ∷ []
unfolding stack_ft base_of levels_from
stack_ft-beacon = refl

stack_ft-radar : stack_ft radar ≡ 6000 ∷ 7000 ∷ []
unfolding stack_ft base_of round_up levels_from
stack_ft-radar = refl

-- Under a high overcast the stack is empty, and `top_ft` is an IndexError.
top_ft-overcast : top_ft overcast ≡ none
unfolding top_ft last_of stack_ft base_of round_up levels_from
top_ft-overcast = refl

stack_ft-levels_example :
    All (λ k. (base_of beacon ≤ k) × (k ≤ 7000)) (stack_ft beacon)
    × Pairwise (λ j k. j + 1000 ≤ k) (stack_ft beacon)
    × ((i : ℕ)
        → above (base_of beacon) 1000 i ≤ 7000
        → any (eqb (above (base_of beacon) 1000 i)) (stack_ft beacon) ≡ true)
stack_ft-levels_example = stack_ft-levels beacon (omega arith)
