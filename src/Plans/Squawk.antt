-- ===== src/Plans/Squawk.antt =====
-- Codes that may be given out: `squawk_for` of src/marshall/atc/plans.py.
use marshall.Prelude.{
  ℕ, suc, ◌+◌, ◌*◌, ◌%◌, ◌≤◌, ◌<◌, ◌≡◌, refl, sym, ap, subst, inl, inr, Bool, true, false, not,
  ◌||◌, List, [], ◌∷◌, map, any, all, eqb, eqb→eq, arith, Bool-cases,
}
use marshall.Plans.{
  Code, same_code, reserved_squawks, is_reserved, octal, probe, spread, squawk_for,
}

abbrev value : Code → ℕ
value c = ((c.first * 8 + c.second) * 8 + c.third) * 8 + c.fourth

octal-value : (n : ℕ) (c : Code) → n < 4096 → same_code (octal n) c ≡ true → n ≡ value c
octal-value n c h s = ground arith

octal-any :
    (n : ℕ) (cs : List Code)
    → n < 4096
    → any (same_code (octal n)) cs ≡ true
    → any (eqb n) (map value cs) ≡ true
octal-any n [] h s = absurd (cc)
octal-any n (c ∷ cs) h s = elim (Bool-cases (same_code (octal n) c)) [
  | inl e ↦ let v = octal-value n c h e in ground arith
  | inr e ↦ let later = octal-any n cs h (rw e at s) in ground arith
]

-- One of the next two numbers is not reserved.
abbrev is_passed : ℕ → Bool
is_passed n =
    not (is_reserved (octal ((n + 1) % 4096)))
    || not (is_reserved (octal (((n + 1) % 4096 + 1) % 4096)))

all-any :
    (test : ℕ → Bool) (ns : List ℕ) (n : ℕ)
    → all test ns ≡ true
    → any (eqb n) ns ≡ true
    → test n ≡ true
all-any test [] n a h = absurd (cc)
all-any test (m ∷ ns) n a h = elim (Bool-cases (eqb n m)) [
  | inl e ↦ rw (eqb→eq n m e) (ground arith)
  | inr e ↦ all-any test ns n (ground arith) (rw e at h)
]

all-passed : all is_passed (map value reserved_squawks) ≡ true
unfolding is_reserved
all-passed = refl

reserved-passed : (n : ℕ) → n < 4096 → is_reserved (octal n) ≡ true → is_passed n ≡ true
unfolding is_reserved
reserved-passed n h r =
    all-any is_passed (map value reserved_squawks) n all-passed (octal-any n reserved_squawks h r)

-- It is the code of one of three numbers, and nobody else's.
abbrev pub IsDiscrete : ℕ → Code → Type 0
IsDiscrete n code =
    ((k : ℕ) × (k ≤ 2) × (code ≡ octal ((n + k) % 4096))) × (is_reserved code ≡ false)

probe-IsDiscrete : (tries n : ℕ) → n < 4096 → IsDiscrete n (probe (suc (suc (suc tries))) n)
unfolding probe
probe-IsDiscrete tries n h = elim (Bool-cases (is_reserved (octal n))) [
  | inr a ↦ rw (a, probe) ((0, omega arith, ap octal (omega arith)), a)
  | inl a ↦ elim (Bool-cases (is_reserved (octal ((n + 1) % 4096)))) [
    | inr b ↦ rw (a, b, probe) ((1, omega arith, refl), b)
    | inl b ↦ elim (Bool-cases (is_reserved (octal (((n + 1) % 4096 + 1) % 4096)))) [
      | inr c ↦ rw (a, b, c, probe) ((2, omega arith, ap octal (omega arith)), c)
      | inl c ↦ absurd (cc (reserved-passed n h a, b, c))
    ]
  ]
]

abbrev pub IsOctal : Code → Type 0
IsOctal c = (c.first ≤ 7) × (c.second ≤ 7) × (c.third ≤ 7) × (c.fourth ≤ 7)

octal-IsOctal : (n : ℕ) → IsOctal (octal n)
octal-IsOctal n = (omega arith, omega arith, omega arith, omega arith)

-- Whatever the flight, the loop ends within three probes, with a code of four digits below eight that is not
-- reserved; the code after the loop is never the answer.
pub squawk_for-IsDiscrete :
    (seed : ℕ) → IsDiscrete (spread seed) (squawk_for seed) × IsOctal (squawk_for seed)
unfolding squawk_for
squawk_for-IsDiscrete seed =
    let ((k, few, e), free) = probe-IsDiscrete 4093 (spread seed) (omega arith) in
    (((k, few, e), free), subst IsOctal (sym e) (octal-IsOctal ((spread seed + k) % 4096)))
