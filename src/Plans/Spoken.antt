-- ===== src/Plans/Spoken.antt =====
-- Levels said and heard: `_spell` and `_spell_alt` of src/marshall/atc/plans.py.
use marshall.Prelude.{
  ℕ, zero, suc, ◌+◌, ◌*◌, ◌/◌, ◌%◌, ◌≤◌, ◌<◌, ◌≡◌, refl, ap, ◌∙◌, inl, inr, String, List, [], ◌∷◌,
  ◌++◌, ◌==◌, eqb, leb, arith, All, Bool-cases, if◌then◌else◌,
}
use marshall.Plans.{decimal_digits, digit_word, digit_words, spell, spell_number, spell_alt}

abbrev index_in : List String → String → ℕ
index_in [] w = 0
index_in (v ∷ vs) w = let rest = index_in vs w in if w == v then 0 else suc rest

-- The level that a listener writes down, who knows the words of digits, thousand and hundred.
unfoldable pub listen : ℕ → List String → ℕ
listen n [] = n
listen n (w ∷ ws) =
    let thousand = n * 1000 + listen 0 ws in
    let digit = listen (n * 10 + index_in digit_words w) ws in
    if w == "thousand" then thousand else if w == "hundred" then n * 100 else digit

listen-digit :
    (n d : ℕ) (ws : List String) → d ≤ 9 → listen n (digit_word d ∷ ws) ≡ listen (n * 10 + d) ws
unfolding listen
listen-digit n zero ws h = refl
listen-digit n (suc zero) ws h = refl
listen-digit n (suc (suc zero)) ws h = refl
listen-digit n (suc (suc (suc zero))) ws h = refl
listen-digit n (suc (suc (suc (suc zero)))) ws h = refl
listen-digit n (suc (suc (suc (suc (suc zero))))) ws h = refl
listen-digit n (suc (suc (suc (suc (suc (suc zero)))))) ws h = refl
listen-digit n (suc (suc (suc (suc (suc (suc (suc zero))))))) ws h = refl
listen-digit n (suc (suc (suc (suc (suc (suc (suc (suc zero)))))))) ws h = refl
listen-digit n (suc (suc (suc (suc (suc (suc (suc (suc (suc zero))))))))) ws h = refl
listen-digit n (suc (suc (suc (suc (suc (suc (suc (suc (suc (suc d)))))))))) ws h =
    absurd (omega arith)

-- The number that digits make, after one that is there.
unfoldable number : ℕ → List ℕ → ℕ
number n [] = n
number n (d ∷ ds) = number (n * 10 + d) ds

listen-spell :
    (n : ℕ) (ds : List ℕ) (ws : List String)
    → All (λ d. d ≤ 9) ds
    → listen n (spell ds ++ ws) ≡ listen (number n ds) ws
unfolding spell number
listen-spell n [] ws h = refl
listen-spell n (d ∷ ds) ws h =
    listen-digit n d (spell ds ++ ws) h.0 ∙ listen-spell (n * 10 + d) ds ws h.1

number-++ : (n : ℕ) (ds : List ℕ) (d : ℕ) → number n (ds ++ (d ∷ [])) ≡ number n ds * 10 + d
unfolding number
number-++ n [] d = refl
number-++ n (c ∷ ds) d = number-++ (n * 10 + c) ds d

All-++ : (ds : List ℕ) (d : ℕ) → All (λ c. c ≤ 9) ds → d ≤ 9 → All (λ c. c ≤ 9) (ds ++ (d ∷ []))
All-++ [] d h g = (g, tt)
All-++ (c ∷ ds) d h g = (h.0, All-++ ds d h.1 g)

decimal_digits-number :
    (fuel n : ℕ)
    → n < fuel
    → (number 0 (decimal_digits fuel n) ≡ n) × All (λ d. d ≤ 9) (decimal_digits fuel n)
unfolding decimal_digits number
decimal_digits-number zero n h = absurd (omega arith)
decimal_digits-number (suc fuel) n h = elim (Bool-cases (leb n 9)) [
  | inl c ↦ rw (c, decimal_digits) (omega arith, (ground arith, tt))
  | inr c ↦
      let (v, low) = decimal_digits-number fuel (n / 10) (ground arith) in
      rw (c, decimal_digits)
        (
          number-++ 0 (decimal_digits fuel (n / 10)) (n % 10)
              ∙ (ap (λ m. m * 10 + n % 10) v ∙ omega arith),
          All-++ (decimal_digits fuel (n / 10)) (n % 10) low (omega arith),
        )
]

listen-spell_number : (n : ℕ) (ws : List String) → listen 0 (spell_number n ++ ws) ≡ listen n ws
listen-spell_number n ws =
    let (v, low) = decimal_digits-number (suc n) n (omega arith) in
    listen-spell 0 (decimal_digits (suc n) n) ws low ∙ ap (λ m. listen m ws) v

-- A level of whole hundreds of feet is heard as it was meant.
pub listen-spell_alt : (ft : ℕ) → ft % 100 ≡ 0 → listen 0 (spell_alt ft) ≡ ft
unfolding spell_alt listen
listen-spell_alt ft h = elim (Bool-cases (eqb ft 0)) [
  | inl c ↦ rw (c, spell_alt) (ground arith)
  | inr c ↦ elim (Bool-cases (eqb (ft % 1000) 0)) [
    | inl d ↦
        rw (c, d, spell_alt) (listen-spell_number (ft / 1000) ("thousand" ∷ []) ∙ ground arith)
    | inr d ↦
        rw (c, d, spell_alt)
          (listen-spell_number (ft / 1000)
              ("thousand" ∷ (spell_number (ft % 1000 / 100) ++ ("hundred" ∷ [])))
            ∙ (ap (λ m. ft / 1000 * 1000 + m)
                  (listen-spell_number (ft % 1000 / 100) ("hundred" ∷ []))
                ∙ omega arith))
  ]
]
