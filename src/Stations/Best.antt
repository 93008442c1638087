-- ===== src/Stations/Best.antt =====
-- `role_at` of src/marshall/core/stations.py picks the best seat, by a rank.
use marshall.Prelude.{
  ℕ, ◌+◌, ◌≤◌, String, ◌≡◌, subst, Bool, true, false, ◌||◌, Option, none, some, List, [], ◌∷◌, ◌==◌,
  is_in, find_first, find_first-test, find_first-none, All, All-map, All-map₂, arith, eq_iff,
  Option-cases, if◌then◌else◌, inl, inr, Bool-cases,
}
use native.Mathlib.Nat.{le_trans}
use marshall.Stations.{Station, hit, passes, ◌or_else◌, or_else_assoc, or_else-none, role_at}

-- A seat of the aerodrome before one that belongs to no aerodrome.
abbrev by_field : String → Station → ℕ
by_field field s =
    if field == "" then 0 else if s.field == field then 0 else if s.field == "" then 1 else 9

-- How good an answer a seat is: 0 and 1 if the role is its own, 2 and 3 if it only also covers it;
-- 4 and more if it is no answer, as the seat of another aerodrome is not.
abbrev pub rank : String → String → Station → ℕ
rank role field s =
    if s.role == role
    then by_field field s
    else if is_in role s.also
    then 2 + by_field field s
    else 9

-- The answer is the best seat of the table, or there is none because no seat will do.
abbrev pub IsBest : List Station → String → String → Option Station → Type 0
IsBest stations role field none = All (λ t. 4 ≤ rank role field t) stations
IsBest stations role field (some s) =
    (rank role field s ≤ 3) × All (λ t. rank role field s ≤ rank role field t) stations

module _ (role field : String) where
  abbrev grade : Station → ℕ
  grade = rank role field

  primary_here : (s : Station) → passes role field true true s ≡ true → grade s ≤ 0
  unfolding hit
  primary_here s h = ground (arith, eq_iff s.field field, eq_iff field "")

  not_primary_here :
      (s : Station) → (field == "") ≡ false → passes role field true true s ≡ false → 1 ≤ grade s
  unfolding hit
  not_primary_here s f h = ground (arith, eq_iff s.field field, eq_iff field "")

  primary : (s : Station) → passes role field true false s ≡ true → grade s ≤ 1
  unfolding hit
  primary s h = ground (arith, eq_iff s.field field, eq_iff field "")

  primary_anywhere :
      (s : Station) → (field == "") ≡ true → passes role field true false s ≡ true → grade s ≤ 0
  unfolding hit
  primary_anywhere s f h = ground arith

  not_primary : (s : Station) → passes role field true false s ≡ false → 2 ≤ grade s
  unfolding hit
  not_primary s h = ground (arith, eq_iff s.field field, eq_iff field "")

  also_here : (s : Station) → passes role field false true s ≡ true → grade s ≤ 2
  unfolding hit
  also_here s h = ground (arith, eq_iff s.field field, eq_iff field "")

  not_also_here :
      (s : Station)
      → 2 ≤ grade s
      → (field == "") ≡ false
      → passes role field false true s ≡ false
      → 3 ≤ grade s
  unfolding hit
  not_also_here s g f h = ground (arith, eq_iff s.field field, eq_iff field "")

  also : (s : Station) → passes role field false false s ≡ true → grade s ≤ 3
  unfolding hit
  also s h = ground (arith, eq_iff s.field field, eq_iff field "")

  also_anywhere :
      (s : Station) → (field == "") ≡ true → passes role field false false s ≡ true → grade s ≤ 2
  unfolding hit
  also_anywhere s f h = ground arith

  not_also : (s : Station) → 2 ≤ grade s → passes role field false false s ≡ false → 4 ≤ grade s
  unfolding hit
  not_also s g h = ground (arith, eq_iff s.field field, eq_iff field "")

  -- Every seat of the table is of rank `n` or worse.
  abbrev Floor : ℕ → List Station → Type 0
  Floor n = All (λ t. n ≤ grade t)

  -- One pass: it finds a seat of rank `n` or better, or leaves a table of rank `m` or worse.
  scan :
      (test : Station → Bool) (n m : ℕ) (stations : List Station) (rest : Option Station)
      → n ≤ 3
      → ((s : Station) → test s ≡ true → grade s ≤ n)
      → ((s : Station) → n ≤ grade s → test s ≡ false → m ≤ grade s)
      → Floor n stations
      → (Floor m stations → IsBest stations role field rest)
      → IsBest stations role field (find_first test stations or_else rest)
  scan test n m stations rest low good bad floor next =
      elim (Option-cases (find_first test stations)) [
        | inl e ↦ rw e (
            next (
              All-map₂ _ _ _ stations (λ t f g. bad t g f) (find_first-none test stations e) floor))
        | inr (s, e) ↦
            let fine : grade s ≤ n = good s (find_first-test test stations s e) in
            rw e (le_trans fine low, All-map _ _ stations (λ t g. le_trans fine g) floor)
      ]

  zero-Floor : (stations : List Station) → Floor 0 stations
  zero-Floor [] = tt
  zero-Floor (t ∷ ts) = (omega arith, zero-Floor ts)

  none_left : (stations : List Station) → Floor 4 stations → IsBest stations role field none
  none_left stations floor = floor

  last_scan :
      (test : Station → Bool) (n : ℕ) (stations : List Station)
      → n ≤ 3
      → ((s : Station) → test s ≡ true → grade s ≤ n)
      → ((s : Station) → n ≤ grade s → test s ≡ false → 4 ≤ grade s)
      → Floor n stations
      → IsBest stations role field (find_first test stations)
  last_scan test n stations low good bad floor =
      subst (IsBest stations role field) (or_else-none (find_first test stations))
        (scan test n 4 stations none low good bad floor (none_left stations))

  at_some_field :
      (stations : List Station)
      → (field == "") ≡ false
      → IsBest stations role field (role_at stations role field)
  unfolding role_at
  at_some_field stations f =
      rw (f, or_else_assoc)
        (scan (passes role field true true) 0 1 stations _ (omega arith) primary_here
          (λ s _. not_primary_here s f) (zero-Floor stations)
          λ one.
            scan (passes role field true false) 1 2 stations _ (omega arith) primary
              (λ s _. not_primary s) one
              λ two.
                scan (passes role field false true) 2 3 stations _ (omega arith) also_here
                  (λ s g. not_also_here s g f) two
                  λ three.
                    last_scan (passes role field false false) 3 stations (omega arith) also
                      (λ s g. not_also s (omega arith)) three)

  at_no_field :
      (stations : List Station)
      → (field == "") ≡ true
      → IsBest stations role field (role_at stations role field)
  unfolding role_at
  at_no_field stations f = rw f (
      scan (passes role field true false) 0 2 stations _ (omega arith) (λ s. primary_anywhere s f)
        (λ s _. not_primary s) (zero-Floor stations)
        λ two.
          last_scan (passes role field false false) 2 stations (omega arith)
            (λ s. also_anywhere s f) (λ s. not_also s) two)

-- Whatever the table of stations, the seat that a role is found at is the best one there is: of
-- rank 3 or better, and no seat of the table ranks before it. Where none is found, every seat is of
-- rank 4 or worse: it does not work the role, or belongs to another aerodrome.
pub role_at-IsBest :
    (stations : List Station) (role field : String)
    → IsBest stations role field (role_at stations role field)
role_at-IsBest stations role field = elim (Bool-cases (field == "")) [
  | inl f ↦ at_no_field role field stations f
  | inr f ↦ at_some_field role field stations f
]

-- What the ranks that answer mean: the seat has the role, or also covers it, and it belongs to the
-- aerodrome or to none.
abbrev pub Works : String → String → Station → Type 0
Works role field s =
    (s.role == role || is_in role s.also ≡ true)
    × (field == "" || (s.field == field || s.field == "") ≡ true)

pub rank-Works : (role field : String) (s : Station) → rank role field s ≤ 3 → Works role field s
rank-Works role field s h = ground arith

pub role_at-Works :
    (stations : List Station) (role field : String) (s : Station)
    → role_at stations role field ≡ some s
    → Works role field s
role_at-Works stations role field s h =
    rank-Works role field s
      (subst (IsBest stations role field) h (role_at-IsBest stations role field)).0
