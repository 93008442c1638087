-- ===== src/Progress/Nearest.antt =====
-- Where an aircraft is on its route: `where` of src/marshall/atc/progress.py against the leg and the fix that
-- it is nearest to.
use marshall.Prelude.{
  ℕ, suc, ◌+◌, ◌≤◌, ◌<◌, ◌≡◌, refl, sym, ap, subst, true, false, some, List, [], ◌∷◌, inl, inr, All,
  All-map, length, drop, leb, ltb, arith, Bool-cases, if◌then◌else◌,
}
use marshall.Following.{Signed, ahead, behind}
use marshall.Filing.{Leg}
use marshall.Progress.{
  off_route_nm, Fix, Progress, Offset, Geometry, closest_from, closest, fixes_of, legs_between,
  distance_to_leg, range_to, heading_for, standing_at, leg_ahead, on_or_off, along_route,
  where_on_route,
}
use marshall.Progress.Standing.{
  IsAt, closest_from-IsAt, IsNamed, fixes_of-IsNamed, IsStanding, on_or_off-IsStanding, best-bounds,
}

module _ {A : Type 0} (key : A → ℕ) where
  abbrev IsLeast : A → List A → Type 0
  IsLeast a xs = All (λ x. key a ≤ key x) xs

  closest_from-IsLeast :
      (i : ℕ) (best : ℕ × A) (rest : List A)
      → (key (closest_from key i best rest).1 ≤ key best.1)
        × IsLeast (closest_from key i best rest).1 rest
  unfolding closest_from
  closest_from-IsLeast i best [] = (omega arith, tt)
  closest_from-IsLeast i (j, b) (a ∷ more) = elim (Bool-cases (ltb (key a) (key b))) [
    | inl c ↦
        let (low, all) = closest_from-IsLeast (suc i) (i, a) more in
        subst Least (sym (ap onwards (ap (λ t. if t then (i, a) else (j, b)) c)))
          (ground arith, (low, all))
    | inr c ↦
        let (low, all) = closest_from-IsLeast (suc i) (j, b) more in
        subst Least (sym (ap onwards (ap (λ t. if t then (i, a) else (j, b)) c)))
          (low, (ground arith, all))
  ]
    where
      onwards : ℕ × A → ℕ × A
      onwards best = closest_from key (suc i) best more

      Least : ℕ × A → Type 0
      Least r = (key r.1 ≤ key b) × IsLeast r.1 (a ∷ more)

-- The leg that he is on and the fix ahead. Short of the leg, the fix ahead is its first one; along it, its
-- second; past its end, the next after that. Two miles short of a fix that is not the last count as past it.
abbrev pub IsAhead : Signed → ℕ → ℕ → ℕ → ℕ → Type 0
IsAhead (behind n) leg_nm best count leg =
    (200 < leg_nm + n + 1 → leg ≡ best)
    × (leg_nm + n + 1 ≤ 200 → best + 3 ≤ count → leg ≡ best + 2)
    × (count ≤ best + 2 → leg ≡ best)
IsAhead (ahead n) leg_nm best count leg =
    (n + 200 < leg_nm → leg ≡ best + 1)
    × (leg_nm ≤ n + 200 → best + 3 ≤ count → leg ≡ best + 2)
    × (n < leg_nm → count ≤ best + 2 → leg ≡ best + 1)
    × (leg_nm ≤ n → leg ≡ best + 2)

leg_ahead-IsAhead :
    (s : Signed) (cross leg_nm best count : ℕ)
    → best + 2 ≤ count
    → IsAhead s leg_nm best count
        (leg_ahead best (record { along = s; cross = cross; leg_nm = leg_nm }) count)
unfolding leg_ahead
leg_ahead-IsAhead (behind n) cross leg_nm best count h =
    (λ a. ground arith, λ a b. ground arith, λ a. ground arith)
leg_ahead-IsAhead (ahead n) cross leg_nm best count h =
    (λ a. ground arith, λ a b. ground arith, λ a b. ground arith, λ a. ground arith)

module _ {Pos : Type 0} (geo : Geometry Pos) (pos : Pos) where
  -- The distance from a leg: to its near end where he is off it, and across where he is beside it.
  abbrev off_leg : Signed → ℕ → ℕ → ℕ → ℕ → ℕ
  off_leg (behind n) leg_nm cross to_start to_end = to_start
  off_leg (ahead n) leg_nm cross to_start to_end = if leb n leg_nm then cross else to_end

  abbrev pub segment_nm : Fix Pos × Fix Pos → ℕ
  segment_nm (a, b) =
      let o = geo.leg_offset pos a.place b.place in
      off_leg o.along o.leg_nm o.cross (geo.range_nm a.place pos) (geo.range_nm b.place pos)

  distance-segment : (l : Fix Pos × Fix Pos) → distance_to_leg geo pos l ≡ segment_nm l
  unfolding distance_to_leg
  distance-segment (a, b) = go (geo.leg_offset pos a.place b.place).along refl
    where
      o : Offset
      o = geo.leg_offset pos a.place b.place

      go : (s : Signed) → o.along ≡ s → distance_to_leg geo pos (a, b) ≡ segment_nm (a, b)
      go (behind n) e = rw e refl
      go (ahead n) e = rw e (ground arith)

  -- There is a leg that no other is nearer than. More than ten miles from it, the fix ahead is one that no
  -- other is nearer than; else it is the one ahead on that leg.
  abbrev pub IsNearest : List (Fix Pos) → List (Fix Pos × Fix Pos) → ℕ → Type 0
  IsNearest fixes legs leg =
      (best : ℕ) × (a : Fix Pos) × (b : Fix Pos) × IsAt legs (best, (a, b))
      × All (λ l. segment_nm (a, b) ≤ segment_nm l) legs
      × (off_route_nm < segment_nm (a, b)
          → (next : Fix Pos) × IsAt fixes (leg, next)
            × All (λ (f : Fix Pos). geo.range_nm next.place pos ≤ geo.range_nm f.place pos) fixes)
      × (segment_nm (a, b) ≤ off_route_nm
          → IsAhead (geo.leg_offset pos a.place b.place).along
              (geo.leg_offset pos a.place b.place).leg_nm best (length fixes) leg)

  -- The least by one distance is the least by the other.
  least-segment :
      (l : Fix Pos × Fix Pos) (legs : List (Fix Pos × Fix Pos))
      → All (λ m. distance_to_leg geo pos l ≤ distance_to_leg geo pos m) legs
      → All (λ m. segment_nm l ≤ segment_nm m) legs
  least-segment l legs h =
      All-map (λ m. distance_to_leg geo pos l ≤ distance_to_leg geo pos m)
        (λ m. segment_nm l ≤ segment_nm m) legs
        (λ m k. omega (arith, distance-segment l, distance-segment m)) h

  standing_at-leg : (leg : ℕ) (fixes : List (Fix Pos)) → (standing_at geo pos leg fixes).leg ≡ leg
  unfolding standing_at heading_for
  standing_at-leg leg fixes = go (drop leg fixes) refl
    where
      go :
          (left : List (Fix Pos))
          → drop leg fixes ≡ left
          → (standing_at geo pos leg fixes).leg ≡ leg
      go [] e = rw (e, standing_at) refl
      go (next ∷ later) e = rw (e, standing_at) refl

  -- Far from the leg the fix ahead is the nearest one, and near it the one ahead on the leg.
  on_or_off-far :
      (fixes : List (Fix Pos)) (first : Fix Pos) (rest : List (Fix Pos))
      (best : ℕ × (Fix Pos × Fix Pos))
      → ltb off_route_nm (distance_to_leg geo pos best.1) ≡ true
      → (on_or_off geo pos fixes first rest best).leg ≡ (closest (range_to geo pos) first rest).0
  unfolding on_or_off heading_for
  on_or_off-far fixes first rest (i, (a, b)) c = rw (c, on_or_off) refl

  on_or_off-near :
      (fixes : List (Fix Pos)) (first : Fix Pos) (rest : List (Fix Pos))
      (best : ℕ × (Fix Pos × Fix Pos))
      → ltb off_route_nm (distance_to_leg geo pos best.1) ≡ false
      → (on_or_off geo pos fixes first rest best).leg
        ≡ leg_ahead best.0 (geo.leg_offset pos best.1.0.place best.1.1.place) (length fixes)
  unfolding on_or_off
  on_or_off-near fixes first rest (i, (a, b)) c =
      rw (c, on_or_off)
        (standing_at-leg (leg_ahead i (geo.leg_offset pos a.place b.place) (length fixes)) fixes)

  on_or_off-IsNearest :
      (f g : Fix Pos) (fixes : List (Fix Pos))
      → IsNearest
          (f ∷ g ∷ fixes)
          (legs_between f (g ∷ fixes))
          (on_or_off geo pos
            (f ∷ g ∷ fixes)
            f
            (g ∷ fixes)
            (closest (distance_to_leg geo pos) (f, g) (legs_between g fixes))).leg
  unfolding legs_between range_to
  on_or_off-IsNearest f g fixes = (
    best.0,
    best.1.0,
    best.1.1,
    closest_from-IsAt (distance_to_leg geo pos) legs 1 (0, (f, g)) (legs_between g fixes) refl
        (legs_between g fixes, refl),
    least-segment best.1 legs
        (closest_from-IsLeast (distance_to_leg geo pos) 1 (0, (f, g)) (legs_between g fixes)),
    off,
    on,
  )
    where
      route : List (Fix Pos)
      route = f ∷ g ∷ fixes

      legs : List (Fix Pos × Fix Pos)
      legs = (f, g) ∷ legs_between g fixes

      best : ℕ × (Fix Pos × Fix Pos)
      best = closest (distance_to_leg geo pos) (f, g) (legs_between g fixes)

      near : ℕ × Fix Pos
      near = closest (range_to geo pos) f (g ∷ fixes)

      o : Offset
      o = geo.leg_offset pos best.1.0.place best.1.1.place

      leg : ℕ
      leg = (on_or_off geo pos route f (g ∷ fixes) best).leg

      off :
          off_route_nm < segment_nm best.1
          → (next : Fix Pos) × IsAt route (leg, next)
            × All (λ (h : Fix Pos). geo.range_nm next.place pos ≤ geo.range_nm h.place pos) route
      off far =
          let c : ltb off_route_nm (distance_to_leg geo pos best.1) ≡ true =
            ground (arith, distance-segment best.1) in
          let same = on_or_off-far route f (g ∷ fixes) best c in
          (
            near.1,
            subst (λ k. IsAt route (k, near.1)) (sym same)
                (closest_from-IsAt (range_to geo pos) route 1 (0, f) (g ∷ fixes) refl
                  (g ∷ fixes, refl)),
            closest_from-IsLeast (range_to geo pos) 1 (0, f) (g ∷ fixes),
          )

      on : segment_nm best.1 ≤ off_route_nm → IsAhead o.along o.leg_nm best.0 (length route) leg
      on close =
          let c : ltb off_route_nm (distance_to_leg geo pos best.1) ≡ false =
            ground (arith, distance-segment best.1) in
          subst (IsAhead o.along o.leg_nm best.0 (length route))
            (sym (on_or_off-near route f (g ∷ fixes) best c))
            (leg_ahead-IsAhead o.along o.cross o.leg_nm best.0 (length route)
              (best-bounds geo pos f g fixes))

-- Wherever an aircraft is, on a plan with two fixes or more that have a name and a place, there is an answer.
-- It rests on a leg that no other is nearer than: more than ten miles from it, the fix ahead is one that no
-- other is nearer than; else it is the first of the leg short of it, the second along it, and the one after
-- from two miles before the second, or from abeam of it at the end of the route. The fixes behind are those
-- before it, in their order, the one he comes from is the last of these, and the route is done exactly when
-- all are behind.
pub where_on_route-IsNearest :
    {Pos : Type 0} (geo : Geometry Pos) (legs : List (Leg Pos)) (pos : Pos) (f g : Fix Pos)
    (fixes : List (Fix Pos))
    → fixes_of legs ≡ f ∷ g ∷ fixes
    → (p : Progress) × (where_on_route geo legs (some pos) ≡ some p)
      × IsNearest geo pos (f ∷ g ∷ fixes) (legs_between f (g ∷ fixes)) p.leg
      × IsStanding (f ∷ g ∷ fixes) p
unfolding where_on_route along_route
where_on_route-IsNearest {Pos = Pos} geo legs pos f g fixes e =
    let named : IsNamed (f ∷ g ∷ fixes) =
      subst (λ (fs : List (Fix Pos)). IsNamed fs) e (fixes_of-IsNamed legs) in
    let best = closest (distance_to_leg geo pos) (f, g) (legs_between g fixes) in
    (
      on_or_off geo pos (f ∷ g ∷ fixes) f (g ∷ fixes) best,
      ap (along_route geo pos) e,
      on_or_off-IsNearest geo pos f g fixes,
      on_or_off-IsStanding geo pos (f ∷ g ∷ fixes) f (g ∷ fixes) best named refl
          (best-bounds geo pos f g fixes),
    )
