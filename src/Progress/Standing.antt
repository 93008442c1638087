-- ===== src/Progress/Standing.antt =====
-- What is told of an aircraft on its route hangs together: `where` of src/marshall/atc/progress.py.
use marshall.Prelude.{
  ℕ, zero, suc, ◌+◌, ◌≤◌, ◌<◌, ◌≡◌, refl, sym, ap, subst, ◌∙◌, ◌⊎◌, inl, inr, false, List, [], ◌∷◌,
  ◌==◌, All, length, take, drop, leb, ltb, strip, arith, Bool-cases, Option-cases,
}
use marshall.Filing.{Leg}
use marshall.Progress.{
  off_route_nm, Fix, Progress, is_done, Offset, Geometry, last_name, closest_from, closest,
  fixes_of, legs_between, names_of, distance_to_leg, range_to, heading_for, standing_at, leg_ahead,
  on_or_off,
}

module _ {A : Type 0} where
  drop-suc :
      (xs : List A) (i : ℕ) (a : A) (rest : List A) → drop i xs ≡ a ∷ rest → drop (suc i) xs ≡ rest
  drop-suc [] zero a rest h = absurd (cc)
  drop-suc [] (suc i) a rest h = absurd (cc)
  drop-suc (x ∷ xs) zero a rest h = cc
  drop-suc (x ∷ xs) (suc i) a rest h = drop-suc xs i a rest h

  drop-bounds : (xs : List A) (i : ℕ) (a : A) (rest : List A) → drop i xs ≡ a ∷ rest → i < length xs
  drop-bounds [] zero a rest h = absurd (cc)
  drop-bounds [] (suc i) a rest h = absurd (cc)
  drop-bounds (x ∷ xs) zero a rest h = ground arith
  drop-bounds (x ∷ xs) (suc i) a rest h = let less = drop-bounds xs i a rest h in omega arith

  drop-end : (xs : List A) (i : ℕ) → drop i xs ≡ [] → length xs ≤ i
  drop-end [] i h = omega arith
  drop-end (x ∷ xs) zero h = absurd (cc)
  drop-end (x ∷ xs) (suc i) h = let less = drop-end xs i h in omega arith

  take-end : (xs : List A) (i : ℕ) → length xs ≤ i → take i xs ≡ xs
  take-end [] zero h = refl
  take-end [] (suc i) h = refl
  take-end (x ∷ xs) zero h = absurd (omega arith)
  take-end (x ∷ xs) (suc i) h = ap (λ ys. x ∷ ys) (take-end xs i (omega arith))

  -- The item is that of the list at the index.
  abbrev pub IsAt : List A → ℕ × A → Type 0
  IsAt xs (i, a) = (rest : List A) × (drop i xs ≡ a ∷ rest)

  pub closest_from-IsAt :
      (key : A → ℕ) (xs : List A) (i : ℕ) (best : ℕ × A) (rest : List A)
      → drop i xs ≡ rest
      → IsAt xs best
      → IsAt xs (closest_from key i best rest)
  unfolding closest_from
  closest_from-IsAt key xs i best [] d h = h
  closest_from-IsAt key xs i (j, b) (a ∷ more) d h = elim (Bool-cases (ltb (key a) (key b))) [
    | inl c ↦
        rw (c, closest_from)
          (closest_from-IsAt key xs (suc i) (i, a) more (drop-suc xs i a more d) (more, d))
    | inr c ↦
        rw (c, closest_from)
          (closest_from-IsAt key xs (suc i) (j, b) more (drop-suc xs i a more d) h)
  ]

leg_ahead-bounds :
    (best : ℕ) (o : Offset) (count : ℕ) → best + 2 ≤ count → leg_ahead best o count ≤ count
unfolding leg_ahead
leg_ahead-bounds best o count h = ground arith

module _ {Pos : Type 0} where
  abbrev pub IsNamed : List (Fix Pos) → Type 0
  IsNamed fixes = All (λ (f : Fix Pos). (f.name == "") ≡ false) fixes

  pub fixes_of-IsNamed : (legs : List (Leg Pos)) → IsNamed (fixes_of legs)
  unfolding fixes_of
  fixes_of-IsNamed [] = tt
  fixes_of-IsNamed (leg ∷ legs) = elim (Option-cases leg.place) [
    | inl c ↦ rw (c, fixes_of) (fixes_of-IsNamed legs)
    | inr (p, c) ↦ elim (Bool-cases (strip leg.fix == "")) [
      | inl e ↦ rw (c, e, fixes_of) (fixes_of-IsNamed legs)
      | inr e ↦ rw (c, e, fixes_of) (e, fixes_of-IsNamed legs)
    ]
  ]

  drop-IsNamed :
      (fixes : List (Fix Pos)) (i : ℕ) (f : Fix Pos) (rest : List (Fix Pos))
      → IsNamed fixes
      → drop i fixes ≡ f ∷ rest
      → (f.name == "") ≡ false
  drop-IsNamed [] zero f rest n h = absurd (cc)
  drop-IsNamed [] (suc i) f rest n h = absurd (cc)
  drop-IsNamed (g ∷ fixes) zero f rest n h =
      let named : IsNamed (f ∷ rest) = subst (λ (fs : List (Fix Pos)). IsNamed fs) h n in named.0
  drop-IsNamed (g ∷ fixes) (suc i) f rest n h = drop-IsNamed fixes i f rest n.1 h

  -- The fixes behind him are those before his leg, in their order; the last of them is the one he comes
  -- from; the one he goes to is the next, and there is none exactly at the end of the route.
  abbrev pub IsStanding : List (Fix Pos) → Progress → Type 0
  IsStanding fixes p =
      (p.leg ≤ length fixes)
      × (p.reached ≡ names_of (take p.leg fixes))
      × (p.from_fix ≡ last_name p.reached)
      × (is_done p ≡ leb (length fixes) p.leg)
      × ((p.to_fix ≡ "")
          ⊎ ((next : Fix Pos) × (rest : List (Fix Pos)) × (drop p.leg fixes ≡ next ∷ rest)
              × (p.to_fix ≡ next.name)))

  legs_between-length :
      (g : Fix Pos) (fixes : List (Fix Pos)) → length (legs_between g fixes) ≡ length fixes
  unfolding legs_between
  legs_between-length g [] = refl
  legs_between-length g (h ∷ fixes) = ap suc (legs_between-length h fixes)

  names_of-end :
      (fixes : List (Fix Pos)) (i : ℕ) → length fixes ≤ i → names_of (take i fixes) ≡ names_of fixes
  names_of-end fixes i h = ap names_of (take-end fixes i h)

  module _ (geo : Geometry Pos) (pos : Pos) where
    heading_for-IsStanding :
        (leg : ℕ) (fixes : List (Fix Pos)) (next : Fix Pos)
        → IsNamed fixes
        → IsAt fixes (leg, next)
        → IsStanding fixes (heading_for geo pos leg fixes next)
    unfolding heading_for is_done
    heading_for-IsStanding leg fixes next n (rest, at) =
        let less = drop-bounds fixes leg next rest at in
        (
          omega arith,
          refl,
          refl,
          drop-IsNamed fixes leg next rest n at ∙ ground arith,
          inr (next, rest, at, refl),
        )

    standing_at-IsStanding :
        (leg : ℕ) (fixes : List (Fix Pos))
        → IsNamed fixes
        → leg ≤ length fixes
        → IsStanding fixes (standing_at geo pos leg fixes)
    unfolding standing_at is_done
    standing_at-IsStanding leg fixes n h = go (drop leg fixes) refl
      where
        go :
            (left : List (Fix Pos))
            → drop leg fixes ≡ left
            → IsStanding fixes (standing_at geo pos leg fixes)
        go [] e =
            let more = drop-end fixes leg e in
            rw (e, standing_at)
              (h, refl, ap last_name (sym (names_of-end fixes leg more)), ground arith, inl refl)
        go (next ∷ later) e =
            rw (e, standing_at) (heading_for-IsStanding leg fixes next n (later, e))

    pub on_or_off-IsStanding :
        (fixes : List (Fix Pos)) (first : Fix Pos) (rest : List (Fix Pos))
        (best : ℕ × (Fix Pos × Fix Pos))
        → IsNamed fixes
        → fixes ≡ first ∷ rest
        → best.0 + 2 ≤ length fixes
        → IsStanding fixes (on_or_off geo pos fixes first rest best)
    unfolding on_or_off
    on_or_off-IsStanding fixes first rest (best, (a, b)) n e h =
        elim (Bool-cases (ltb off_route_nm (distance_to_leg geo pos (a, b)))) [
          | inr c ↦
              rw (c, on_or_off)
                (standing_at-IsStanding
                  (leg_ahead best (geo.leg_offset pos a.place b.place) (length fixes)) fixes n
                  (leg_ahead-bounds best (geo.leg_offset pos a.place b.place) (length fixes) h))
          | inl c ↦
              rw (c, on_or_off)
                (heading_for-IsStanding near.0 fixes near.1 n (
                  closest_from-IsAt (range_to geo pos) fixes 1 (0, first) rest
                    (ap (λ (fs : List (Fix Pos)). drop 1 fs) e) (rest, e)))
        ]
      where
        near : ℕ × Fix Pos
        near = closest (range_to geo pos) first rest

    pub best-bounds :
        (f g : Fix Pos) (fixes : List (Fix Pos))
        → (closest (distance_to_leg geo pos) (f, g) (legs_between g fixes)).0 + 2
          ≤ length (f ∷ g ∷ fixes)
    best-bounds f g fixes =
        let legs : List (Fix Pos × Fix Pos) = (f, g) ∷ legs_between g fixes in
        let (rest, at) =
          closest_from-IsAt (distance_to_leg geo pos) legs 1 (0, (f, g)) (legs_between g fixes) refl
            (legs_between g fixes, refl) in
        let less = drop-bounds legs _ _ rest at in
        let same = legs_between-length g fixes in omega arith
