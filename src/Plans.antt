-- ===== src/Plans.antt =====
-- What a clearance is made of: `squawk_for`, `_spell`, `_spell_alt` and `top_of_route` of
-- src/marshall/atc/plans.py. A code of four characters is its four digits.
pub mod Squawk
pub mod Spoken
mod Tests
use marshall.Prelude.{
  ℕ, zero, suc, ◌+◌, ◌*◌, ◌/◌, ◌%◌, String, Bool, true, false, not, ◌&&◌, ◌||◌, Option, none, some,
  List, [], ◌∷◌, ◌++◌, map, any, eqb, leb, if◌then◌else◌,
}

pub record Code : Type 0 where
  pub first : ℕ
  pub second : ℕ
  pub third : ℕ
  pub fourth : ℕ

abbrev pub digits_of : ℕ → ℕ → ℕ → ℕ → Code
digits_of a b c d = record { first = a; second = b; third = c; fourth = d }

abbrev pub same_code : Code → Code → Bool
same_code x y =
    eqb x.first y.first && (eqb x.second y.second && (eqb x.third y.third && eqb x.fourth y.fourth))

abbrev pub reserved_squawks : List Code
reserved_squawks =
    digits_of 7 5 0 0
    ∷ digits_of 7 6 0 0
    ∷ digits_of 7 7 0 0
    ∷ digits_of 7 0 0 0
    ∷ digits_of 1 2 0 0
    ∷ digits_of 0 0 0 0
    ∷ digits_of 7 7 7 7
    ∷ []

unfoldable pub is_reserved : Code → Bool
is_reserved code = any (same_code code) reserved_squawks

abbrev pub octal : ℕ → Code
octal n = digits_of (n / 512 % 8) (n / 64 % 8) (n / 8 % 8) (n % 8)

-- for _ in range(tries)
unfoldable pub probe : ℕ → ℕ → Code
probe zero n = digits_of 4 2 7 1
probe (suc tries) n =
    let next = probe tries ((n + 1) % 4096) in if is_reserved (octal n) then next else octal n

abbrev pub spread : ℕ → ℕ
spread seed = (seed * 2654435761 + 1013904223) % 4096

-- squawk_for, of abs(int(seed))
unfoldable pub squawk_for : ℕ → Code
squawk_for seed = probe 4096 (spread seed)

-- The decimal digits of a number, of at most as many digits as the fuel
unfoldable pub decimal_digits : ℕ → ℕ → List ℕ
decimal_digits zero n = []
decimal_digits (suc fuel) n =
    let more = decimal_digits fuel (n / 10) in if leb n 9 then n ∷ [] else more ++ (n % 10 ∷ [])

abbrev word_in : List String → ℕ → String
word_in [] n = ""
word_in (w ∷ ws) zero = w
word_in (w ∷ ws) (suc n) = word_in ws n

abbrev pub digit_words : List String
digit_words =
    "zero" ∷ "one" ∷ "two" ∷ "three" ∷ "four" ∷ "five" ∷ "six" ∷ "seven" ∷ "eight" ∷ "niner" ∷ []

abbrev pub digit_word : ℕ → String
digit_word = word_in digit_words

-- _spell, of the digits, as the words between the spaces
unfoldable pub spell : List ℕ → List String
spell [] = []
spell (d ∷ ds) = digit_word d ∷ spell ds

abbrev pub spell_number : ℕ → List String
spell_number n = spell (decimal_digits (suc n) n)

-- _spell_alt
unfoldable pub spell_alt : ℕ → List String
spell_alt ft =
    if eqb ft 0
    then []
    else if eqb (ft % 1000) 0
    then spell_number (ft / 1000) ++ ("thousand" ∷ [])
    else spell_number (ft / 1000)
      ++ ("thousand" ∷ (spell_number (ft % 1000 / 100) ++ ("hundred" ∷ [])))

-- max(..., default=0), of the legs' altitudes, where an absent one counts as nought
unfoldable pub top_of_route : List (Option ℕ) → ℕ
top_of_route [] = 0
top_of_route (none ∷ legs) = top_of_route legs
top_of_route (some ft ∷ legs) = let rest = top_of_route legs in if leb rest ft then ft else rest
