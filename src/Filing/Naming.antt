-- ===== src/Filing/Naming.antt =====
-- The keys that plans get: `key_for` and `next_key` of src/marshall/atc/filing.py.
use marshall.Prelude.{
  ℕ, zero, suc, ◌+◌, ◌≤◌, ◌<◌, ◌≡◌, refl, ◌⊎◌, inl, inr, String, Bool, true, false, ◌&&◌, Option,
  some, List, ◌==◌, eqb, eqb→eq, is_in, lower, str_len, arith, Bool-cases,
}
use marshall.Filing.Keys.{
  is_key_char, is_dash, in_key, all_chars, name_ok, str_take, dashed, left_dashes, right_dashes,
  key_for, numbered, count_on, next_key,
}

-- A number from the range whose candidate nobody has.
abbrev IsFound : ℕ → ℕ → String → List String → Option String → Type 0
IsFound n count base taken found =
    (k : ℕ) × (found ≡ some (numbered base k))
    × (n ≤ k)
    × (k < n + count)
    × (is_in (numbered base k) taken ≡ false)

count_on-IsFound :
    (count n : ℕ) (base : String) (taken : List String) (m : ℕ)
    → n ≤ m
    → m < n + count
    → is_in (numbered base m) taken ≡ false
    → IsFound n count base taken (count_on count n base taken)
unfolding count_on
count_on-IsFound zero n base taken m lo hi g = absurd (omega arith)
count_on-IsFound (suc count) n base taken m lo hi g =
    elim (Bool-cases (is_in (numbered base n) taken)) [
      | inr c ↦ (n, rw (c, count_on) refl, omega arith, omega arith, c)
      | inl c ↦ elim (Bool-cases (eqb n m)) [
        | inl d ↦ absurd (cc (eqb→eq n m d, c, g))
        | inr d ↦
            let (k, e, l, h, f) =
              count_on-IsFound count (suc n) base taken m (ground arith) (omega arith) g in
            (k, rw (c, count_on) e, omega arith, omega arith, f)
      ]
    ]

-- As long as a name is not empty and nobody has one of its 998 numbered candidates, the search ends with a
-- key that nobody has: the first sixty characters of the name, or those with a number from 2 to 999.
pub next_key-IsFree :
    (name : String) (taken : List String) (m : ℕ)
    → (str_take 60 name == "") ≡ false
    → 2 ≤ m
    → m < 1000
    → is_in (numbered (str_take 60 name) m) taken ≡ false
    → (is_in (next_key name taken) taken ≡ false)
      × ((next_key name taken ≡ str_take 60 name)
          ⊎ ((k : ℕ) × (next_key name taken ≡ numbered (str_take 60 name) k)
              × (2 ≤ k)
              × (k < 1000)))
unfolding next_key
next_key-IsFree name taken m n lo hi g = elim (Bool-cases (is_in (str_take 60 name) taken)) [
  | inr c ↦ (rw (n, c, next_key) c, inl (rw (n, c, next_key) refl))
  | inl c ↦
      let (k, e, l, h, f) = count_on-IsFound 998 2 (str_take 60 name) taken m lo (omega arith) g in
      (rw (n, c, e, next_key) f, inr (k, rw (n, c, e, next_key) refl, l, omega arith))
]

dashed-in_key : (in_run : Bool) (s : String) → all_chars in_key (dashed in_run s) ≡ true
unfolding dashed all_chars
dashed-in_key in_run String.[] = refl
dashed-in_key in_run (String.◌∷◌ c s) = elim (Bool-cases (is_key_char c)) [
  | inl e ↦ rw (e, dashed) (rw (e, all_chars) (dashed-in_key false s))
  | inr e ↦ elim (Bool-cases in_run) [
    | inl d ↦ rw (e, d, dashed) (dashed-in_key true s)
    | inr d ↦ rw (e, d, dashed) (dashed-in_key true s)
  ]
]

-- It is empty, or begins with a letter or digit.
unfoldable IsLed : String → Type 0
IsLed String.[] = Unit
IsLed (String.◌∷◌ c s) = is_key_char c ≡ true

left_dashes-IsLed :
    (s : String)
    → all_chars in_key s ≡ true
    → IsLed (left_dashes s) × (all_chars in_key (left_dashes s) ≡ true)
unfolding left_dashes all_chars IsLed
left_dashes-IsLed String.[] h = (tt, refl)
left_dashes-IsLed (String.◌∷◌ c s) h = elim (Bool-cases (is_dash c)) [
  | inl e ↦ rw (e, left_dashes) (left_dashes-IsLed s (ground arith))
  | inr e ↦ rw (e, left_dashes) (led e h, h)
]
  where
    led : is_dash c ≡ false → (in_key c && all_chars in_key s) ≡ true → is_key_char c ≡ true
    led e g = ground arith

right_dashes-in_key :
    (s : String) → all_chars in_key s ≡ true → all_chars in_key (right_dashes s) ≡ true
unfolding right_dashes all_chars
right_dashes-in_key String.[] h = refl
right_dashes-in_key (String.◌∷◌ c s) h = elim (Bool-cases (right_dashes s == "" && is_dash c)) [
  | inl e ↦ rw (e, right_dashes) refl
  | inr e ↦ rw (e, right_dashes) (joined (right_dashes-in_key s (ground arith)) h)
]
  where
    joined :
        all_chars in_key (right_dashes s) ≡ true
        → (in_key c && all_chars in_key s) ≡ true
        → (in_key c && all_chars in_key (right_dashes s)) ≡ true
    joined i g = ground arith

right_dashes-IsLed : (s : String) → IsLed s → IsLed (right_dashes s)
unfolding right_dashes IsLed
right_dashes-IsLed String.[] h = tt
right_dashes-IsLed (String.◌∷◌ c s) h = rw (no_dash, right_dashes) h
  where
    no_dash : (right_dashes s == "" && is_dash c) ≡ false
    no_dash = ground arith

str_take-in_key :
    (n : ℕ) (s : String) → all_chars in_key s ≡ true → all_chars in_key (str_take n s) ≡ true
unfolding str_take all_chars
str_take-in_key zero s h = refl
str_take-in_key (suc n) String.[] h = refl
str_take-in_key (suc n) (String.◌∷◌ c s) h = ground (arith, str_take-in_key n s)

str_take-bounds : (n : ℕ) (s : String) → str_len (str_take n s) ≤ n
unfolding str_take str_len
str_take-bounds zero s = omega arith
str_take-bounds (suc n) String.[] = omega arith
str_take-bounds (suc n) (String.◌∷◌ c s) = ground (arith, str_take-bounds n s)

str_take-IsLed : (n : ℕ) (s : String) → IsLed s → IsLed (str_take n s)
unfolding str_take IsLed
str_take-IsLed zero s h = tt
str_take-IsLed (suc n) String.[] h = tt
str_take-IsLed (suc n) (String.◌∷◌ c s) h = h

led-name_ok :
    (s : String)
    → IsLed s
    → all_chars in_key s ≡ true
    → str_len s ≤ 63
    → 3 ≤ str_len s
    → name_ok s ≡ true
unfolding name_ok all_chars str_len IsLed
led-name_ok String.[] l a hi lo = absurd (omega arith)
led-name_ok (String.◌∷◌ c s) l a hi lo = ground arith

-- Whatever the label, the key that is derived from it has the form of a key if it is not too short.
pub key_for-name_ok :
    (label : String) → 3 ≤ str_len (key_for label) → name_ok (key_for label) ≡ true
unfolding key_for
key_for-name_ok label long =
    let left = left_dashes-IsLed (dashed false (lower label)) (dashed-in_key false (lower label)) in
    let s = right_dashes (left_dashes (dashed false (lower label))) in
    led-name_ok (str_take 63 s) (str_take-IsLed 63 s (right_dashes-IsLed _ left.0))
      (str_take-in_key 63 s (right_dashes-in_key _ left.1)) (str_take-bounds 63 s) long
