-- ===== src/Following/Latch.antt =====
-- The latch and the alert of src/marshall/core/following.py over a flight, poll after poll.
use marshall.Prelude.{
  ℕ, zero, suc, ◌+◌, ◌≤◌, ◌<◌, ◌≡◌, refl, sym, ap, subst, ◌∙◌, ◌⊎◌, eqb, eqb→eq, Bool, true, false,
  Option, some, List, [], ◌∷◌, length, All, arith, Bool-cases, Option-cases, inl, inr,
}
use mathlib.Core.Option.{some-injective}
use marshall.Following.{
  Leg, Along, Geometry, leg_at, at_least, size, guide, next_index, off_course, along_leg, origin,
}

leg_at-bound {ℓ} :
    {A : Type ℓ} (xs : List A) (i : ℕ) (x : A) → leg_at xs i ≡ some x → i + 1 ≤ length xs
leg_at-bound [] i x h = absurd (cc)
leg_at-bound (y ∷ xs) zero x h = omega arith
leg_at-bound (y ∷ xs) (suc i) x h = let rest = leg_at-bound xs i x h in omega arith

module _ {ℓ} {Place : Type ℓ} (geo : Geometry Place) (legs : List (Leg Place))
    (start : Option Place) where
  -- One poll, and a flight of them.
  abbrev pub poll : Place → ℕ → ℕ
  poll here index = next_index (guide geo legs here index start) index

  abbrev pub fly : List Place → ℕ → ℕ
  fly [] index = index
  fly (here ∷ rest) index = fly rest (poll here index)

  poll-bounds :
      (here : Place) (index : ℕ)
      → index ≤ length legs
      → (index ≤ poll here index) × (poll here index ≤ index + 1) × (poll here index ≤ length legs)
  unfolding guide next_index
  poll-bounds here index h = elim (Option-cases (leg_at legs index)) [
    | inl e ↦ rw (e, guide) (omega arith, omega arith, h)
    | inr (b, e) ↦
        let inside = leg_at-bound legs index b e in
        elim (Bool-cases ((along_leg geo (origin geo legs index start) b here index).passed)) [
          | inl p ↦ rw (e, guide, p, next_index) (omega arith, omega arith, inside)
          | inr p ↦ rw (e, guide, p, next_index) (omega arith, omega arith, h)
        ]
  ]

  fly-bounds :
      (places : List Place) (index : ℕ)
      → index ≤ length legs
      → (index ≤ fly places index)
        × (fly places index ≤ index + length places)
        × (fly places index ≤ length legs)
  fly-bounds [] index h = (omega arith, omega arith, h)
  fly-bounds (here ∷ rest) index h =
      let one = poll-bounds here index h in
      let more = fly-bounds rest (poll here index) one.2 in
      let low = one.0 in
      let step = one.1 in let far = more.0 in let few = more.1 in (omega arith, omega arith, more.2)

  -- Seen from there, the fix has been passed.
  abbrev pub IsPassed : ℕ → Place → Type 0
  IsPassed k here = (now : Along) × (guide geo legs here k start ≡ some now) × (now.passed ≡ true)

  -- At some place of the flight.
  abbrev pub AtSome : (Place → Type 0) → List Place → Type 0
  AtSome P [] = ⊥
  AtSome P (here ∷ rest) = P here ⊎ AtSome P rest

  -- The latch goes on by one when the fix has been passed, and else stays.
  poll-cases :
      (here : Place) (index : ℕ)
      → (IsPassed index here × (poll here index ≡ index + 1))
        ⊎ ((IsPassed index here → ⊥) × (poll here index ≡ index))
  unfolding next_index
  poll-cases here index = elim (Option-cases (guide geo legs here index start)) [
    | inl e ↦ inr ((λ p. absurd (cc (p.1, e))), rw (e, next_index) refl)
    | inr (now, e) ↦ elim (Bool-cases now.passed) [
      | inl p ↦ inl ((now, e, p), rw (e, p, next_index) refl)
      | inr p ↦ inr ((λ q. unpassed now e p q), rw (e, p, next_index) refl)
    ]
  ]
    where
      unpassed :
          (now : Along)
          → guide geo legs here index start ≡ some now
          → now.passed ≡ false
          → IsPassed index here
          → ⊥
      unpassed now e p (now', e', p') =
          let same : now ≡ now' = some-injective now now' (sym e ∙ e') in
          absurd (cc (ap (λ (a : Along). a.passed) same, p, p'))

  fly-later : (places : List Place) (index : ℕ) → index ≤ fly places index
  fly-later [] index = omega arith
  fly-later (here ∷ rest) index = elim (poll-cases here index) [
    | inl (p, e) ↦ let more = fly-later rest (poll here index) in omega (arith, e)
    | inr (p, e) ↦ let more = fly-later rest (poll here index) in omega (arith, e)
  ]

  left-behind :
      (places : List Place) (index k : ℕ)
      → index ≤ k
      → k < fly places index
      → AtSome (IsPassed k) places
  left-behind [] index k lo hi = absurd (omega arith)
  left-behind (here ∷ rest) index k lo hi = elim (poll-cases here index) [
    | inr (p, e) ↦ inr (left-behind rest (poll here index) k (omega (arith, e)) hi)
    | inl (p, e) ↦ elim (Bool-cases (eqb index k)) [
      | inl c ↦ inl (subst (λ j. IsPassed j here) (eqb→eq index k c) p)
      | inr c ↦ inr (left-behind rest (poll here index) k (ground (arith, e)) hi)
    ]
  ]

  stays :
      (places : List Place) (index : ℕ)
      → fly places index ≡ index
      → All (λ here. IsPassed index here → ⊥) places
  stays [] index h = tt
  stays (here ∷ rest) index h = elim (poll-cases here index) [
    | inl (p, e) ↦ let more = fly-later rest (poll here index) in absurd (omega (arith, e, h))
    | inr (p, e) ↦ (
      p,
      subst (λ j. All (λ here. IsPassed j here → ⊥) rest) e
          (stays rest (poll here index) (h ∙ sym e)),
    )
  ]

  -- Over a flight the latch never goes back, passes at most one fix a poll, and stays on the route. Every fix
  -- that it has gone past was seen as passed at some place of the flight, and where it has not moved, its
  -- own was seen as passed at none.
  pub fly-IsPassed :
      (places : List Place) (index : ℕ)
      → index ≤ length legs
      → ((index ≤ fly places index)
          × (fly places index ≤ index + length places)
          × (fly places index ≤ length legs))
        × ((k : ℕ) → index ≤ k → k < fly places index → AtSome (IsPassed k) places)
        × (fly places index ≡ index → All (λ here. IsPassed index here → ⊥) places)
  fly-IsPassed places index h =
      (fly-bounds places index h, left-behind places index, stays places index)

module _ (alert_nm clear_nm settle_nm : ℕ) where
  abbrev pub watch : List Along → Bool → Bool
  watch [] alerting = alerting
  watch (now ∷ rest) alerting =
      watch rest (off_course (some now) alerting alert_nm clear_nm settle_nm)

  -- Settled on a leg, and between the two bounds of the alert.
  abbrev pub Between : Along → Type 0
  Between now =
      (1 ≤ now.leg_nm)
      × (at_least now.along_nm settle_nm ≡ true)
      × (clear_nm < size now.xtk_nm)
      × (size now.xtk_nm < alert_nm)

  off_course-Between :
      (now : Along) (alerting : Bool)
      → Between now
      → off_course (some now) alerting alert_nm clear_nm settle_nm ≡ alerting
  unfolding off_course
  off_course-Between now true h = let long = h.0 in let wide = h.2 in rw (h.1) (ground arith)
  off_course-Between now false h = let long = h.0 in let near = h.3 in rw (h.1) (ground arith)

  -- The alert does not dither: over any readings between its two bounds, on a leg he has settled on, it
  -- stays as it was.
  pub watch-Between :
      (readings : List Along) (alerting : Bool)
      → All Between readings
      → watch readings alerting ≡ alerting
  watch-Between [] alerting h = refl
  watch-Between (now ∷ rest) alerting h =
      rw (off_course-Between now alerting h.0) (watch-Between rest alerting h.1)
