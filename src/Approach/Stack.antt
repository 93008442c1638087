-- ===== src/Approach/Stack.antt =====
-- The levels of the stack of src/marshall/core/approach.py: which they are, and that a vectored stack
-- stands in clear air.
use marshall.Prelude.{
  ℕ, zero, suc, ◌+◌, ◌-◌, ◌/◌, ◌≤◌, ◌<◌, ◌≡◌, Bool, true, ◌||◌, any, eqb, leb, leb→le, leb→lt, All,
  All-map, Pairwise, arith, Bool-cases, inl, inr,
}
use native.Mathlib.Nat.{mul_comm, mod-lt}
use native.Mathlib.Omega.{div_any}
use marshall.Approach.{
  ApproachProfile, round_up, tops_ft, is_vectored, base_of, levels_from, stack_ft,
}

-- A level i steps above another.
abbrev pub above : ℕ → ℕ → ℕ → ℕ
above base step zero = base
above base step (suc i) = above (base + step) step i

above_le : (base step i : ℕ) → base ≤ above base step i
above_le base step zero = omega arith
above_le base step (suc i) = let more = above_le (base + step) step i in omega arith

levels_from-All :
    (fuel base step top : ℕ) → All (λ k. (base ≤ k) × (k ≤ top)) (levels_from fuel base step top)
unfolding levels_from
levels_from-All zero base step top = tt
levels_from-All (suc fuel) base step top = elim (Bool-cases (leb base top)) [
  | inl e ↦ rw e (
    (omega arith, leb→le base top e),
    All-map (λ k. (base + step ≤ k) × (k ≤ top)) (λ k. (base ≤ k) × (k ≤ top))
        (levels_from fuel (base + step) step top) (λ k h. let low = h.0 in (omega arith, h.1))
        (levels_from-All fuel (base + step) step top),
  )
  | inr e ↦ rw e tt
]

levels_from-Pairwise :
    (fuel base step top : ℕ) → Pairwise (λ j k. j + step ≤ k) (levels_from fuel base step top)
unfolding levels_from
levels_from-Pairwise zero base step top = tt
levels_from-Pairwise (suc fuel) base step top = elim (Bool-cases (leb base top)) [
  | inl e ↦ rw e (
    All-map (λ k. (base + step ≤ k) × (k ≤ top)) (λ k. base + step ≤ k)
        (levels_from fuel (base + step) step top) (λ k h. h.0)
        (levels_from-All fuel (base + step) step top),
    levels_from-Pairwise fuel (base + step) step top,
  )
  | inr e ↦ rw e tt
]

-- The fuel reaches every level.
levels_from-above :
    (fuel base step top i : ℕ)
    → 1 ≤ step
    → top < base + fuel
    → above base step i ≤ top
    → any (eqb (above base step i)) (levels_from fuel base step top) ≡ true
unfolding levels_from
levels_from-above zero base step top i s f h =
    let low = above_le base step i in absurd (omega arith)
levels_from-above (suc fuel) base step top zero s f h = elim (Bool-cases (leb base top)) [
  | inl e ↦ rw e (ground arith)
  | inr e ↦ let high = leb→lt base top e in absurd (omega arith)
]
levels_from-above (suc fuel) base step top (suc i) s f h = elim (Bool-cases (leb base top)) [
  | inl e ↦
      let rest = levels_from-above fuel (base + step) step top i s (omega arith) h in
      rw e (or_right (eqb (above (base + step) step i) base) rest)
  | inr e ↦
      let low = above_le (base + step) step i in
      let high = leb→lt base top e in absurd (omega arith)
]
  where
    or_right : (a : Bool) {b : Bool} → b ≡ true → (a || b) ≡ true
    or_right a h = ground arith

round_up_le : (value step : ℕ) → 1 ≤ step → value ≤ round_up value step
unfolding round_up
round_up_le value step s =
    let whole = div_any (value + (step - 1)) step in
    let small = mod-lt (value + (step - 1)) s in
    let turned = mul_comm step ((value + (step - 1)) / step) in omega arith

base_of-clear :
    (p : ApproachProfile)
    → 1 ≤ p.hold_step_ft
    → is_vectored p ≡ true
    → tops_ft p + p.vmc_margin_ft ≤ base_of p
unfolding base_of
base_of-clear p s v =
    let up = round_up_le (tops_ft p + p.vmc_margin_ft) p.hold_step_ft s in
    elim (Bool-cases (leb p.hold_base_ft (round_up (tops_ft p + p.vmc_margin_ft) p.hold_step_ft))) [
      | inl e ↦ rw (v, e) up
      | inr e ↦
          rw (v, e)
            (let high =
                leb→lt p.hold_base_ft (round_up (tops_ft p + p.vmc_margin_ft) p.hold_step_ft) e in
              omega arith)
    ]

-- With a step of at least a foot, the levels of the stack are the base and what stands some steps above it, up to the top: each lies
-- between the two, a later one is a step above an earlier, and none of those is left out.
pub stack_ft-levels :
    (p : ApproachProfile)
    → 1 ≤ p.hold_step_ft
    → All (λ k. (base_of p ≤ k) × (k ≤ p.hold_top_ft)) (stack_ft p)
      × Pairwise (λ j k. j + p.hold_step_ft ≤ k) (stack_ft p)
      × ((i : ℕ)
          → above (base_of p) p.hold_step_ft i ≤ p.hold_top_ft
          → any (eqb (above (base_of p) p.hold_step_ft i)) (stack_ft p) ≡ true)
unfolding stack_ft
stack_ft-levels p s = (
  levels_from-All (suc p.hold_top_ft) (base_of p) p.hold_step_ft p.hold_top_ft,
  levels_from-Pairwise (suc p.hold_top_ft) (base_of p) p.hold_step_ft p.hold_top_ft,
  λ i h.
      levels_from-above (suc p.hold_top_ft) (base_of p) p.hold_step_ft p.hold_top_ft i s
        (omega arith) h,
)

-- With a step of at least a foot, on a vectored approach every level of the stack is above the tops of the clouds by the margin.
stack_ft-clear :
    (p : ApproachProfile)
    → 1 ≤ p.hold_step_ft
    → is_vectored p ≡ true
    → All (λ k. tops_ft p + p.vmc_margin_ft ≤ k) (stack_ft p)
stack_ft-clear p s v =
    let clear = base_of-clear p s v in
    All-map (λ k. (base_of p ≤ k) × (k ≤ p.hold_top_ft)) (λ k. tops_ft p + p.vmc_margin_ft ≤ k)
      (stack_ft p) (λ k h. let low = h.0 in omega arith) ((stack_ft-levels p s).0)
