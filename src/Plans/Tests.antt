-- ===== src/Plans/Tests.antt =====
-- Codes and levels, as they are given out.
use marshall.Prelude.{◌≡◌, refl, some, none, [], ◌∷◌}
use marshall.Plans.{
  digits_of, is_reserved, probe, spread, squawk_for, decimal_digits, spell, spell_alt, top_of_route,
}
use marshall.Plans.Squawk.{IsDiscrete, IsOctal, squawk_for-IsDiscrete}
use marshall.Plans.Spoken.{listen, listen-spell_alt}

squawk_for-test : squawk_for 1 ≡ digits_of 6 4 2 0
unfolding squawk_for probe is_reserved
squawk_for-test = refl

-- 7777 and 0000 are both passed over.
probe-wraps : probe 4096 4095 ≡ digits_of 0 0 0 1
unfolding probe is_reserved
probe-wraps = refl

squawk_for-IsDiscrete_example : IsDiscrete (spread 1) (squawk_for 1) × IsOctal (squawk_for 1)
squawk_for-IsDiscrete_example = squawk_for-IsDiscrete 1

spell_alt-test : spell_alt 10500 ≡ "one" ∷ "zero" ∷ "thousand" ∷ "five" ∷ "hundred" ∷ []
unfolding spell_alt spell decimal_digits
spell_alt-test = refl

-- The tens of feet are not said.
spell_alt-tens : spell_alt 10550 ≡ spell_alt 10500
unfolding spell_alt spell decimal_digits
spell_alt-tens = refl

listen-spell_alt_example : listen 0 (spell_alt 10500) ≡ 10500
listen-spell_alt_example = listen-spell_alt 10500 refl

top_of_route-test : top_of_route (some 3000 ∷ none ∷ some 12000 ∷ some 0 ∷ []) ≡ 12000
unfolding top_of_route
top_of_route-test = refl
