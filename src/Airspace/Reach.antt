-- ===== src/Airspace/Reach.antt =====
-- How far the terminal area of src/marshall/core/airspace.py reaches.
use Prim.Native.Nat.{max}
use marshall.Prelude.{
  ℕ, ◌+◌, ◌≤◌, ◌<◌, String, ◌≡◌, Option, none, some, List, [], ◌∷◌, ◌==◌, lower, Memᴰ, arith, eqb,
  if◌then◌else◌, Bool-cases, Option-cases, subst, eq_refl, inl, inr,
}
use native.Mathlib.Nat.{le_trans}
use marshall.Airspace.{
  terminal_nm, manoeuvre_nm, Fix, Procedure, aerodrome_name, fixes, further, furthest,
  over_procedures, procedure_reach_nm, terminal_reach_nm,
}

module _ {ℓ} {Place : Type ℓ} (nm_between : Place → Place → ℕ) where
  abbrev step : Place → ℕ → Option (Fix Place) → ℕ
  step = further nm_between

  step-le : (here : Place) (far : ℕ) (f : Option (Fix Place)) → far ≤ step here far f
  step-le here far none = omega arith
  step-le here far (some f) = elim (Option-cases f.place) [
    | inl e ↦ rw e (omega arith)
    | inr (at, e) ↦ rw e (omega arith)
  ]

  step-reaches :
      (here : Place) (far : ℕ) (f : Fix Place) (at : Place)
      → f.place ≡ some at
      → nm_between here at ≤ step here far (some f)
  step-reaches here far f at e = rw e (omega arith)

  furthest-le :
      (here : Place) (far : ℕ) (fs : List (Option (Fix Place)))
      → far ≤ furthest nm_between here far fs
  unfolding furthest
  furthest-le here far [] = omega arith
  furthest-le here far (f ∷ fs) =
      le_trans (step-le here far f) (furthest-le here (step here far f) fs)

  furthest-reaches :
      (here : Place) (far : ℕ) (fs : List (Option (Fix Place))) (f : Fix Place) (at : Place)
      → f.place ≡ some at
      → Memᴰ (some f) fs
      → nm_between here at ≤ furthest nm_between here far fs
  unfolding furthest
  furthest-reaches here far [] f at e m = elim m [ ]
  furthest-reaches here far (g ∷ fs) f at e (Memᴰ.head same) =
      le_trans
        (subst (λ h. nm_between here at ≤ step here far h) same (step-reaches here far f at e))
        (furthest-le here (step here far g) fs)
  furthest-reaches here far (g ∷ fs) f at e (Memᴰ.tail m) =
      furthest-reaches here (step here far g) fs f at e m

  abbrev next : Place → String → ℕ → Procedure Place → ℕ
  next here name far p =
      if lower (aerodrome_name p) == lower name then furthest nm_between here far (fixes p) else far

  next-le :
      (here : Place) (name : String) (far : ℕ) (p : Procedure Place) → far ≤ next here name far p
  next-le here name far p = elim (Bool-cases (lower (aerodrome_name p) == lower name)) [
    | inl e ↦ rw e (furthest-le here far (fixes p))
    | inr e ↦ rw e (omega arith)
  ]

  over-le :
      (here : Place) (name : String) (far : ℕ) (ps : List (Procedure Place))
      → far ≤ over_procedures nm_between here name far ps
  unfolding over_procedures
  over-le here name far [] = omega arith
  over-le here name far (p ∷ ps) =
      le_trans (next-le here name far p) (over-le here name (next here name far p) ps)

  over-reaches :
      (here : Place) (name : String) (far : ℕ) (ps : List (Procedure Place)) (p : Procedure Place)
      (f : Fix Place) (at : Place)
      → lower (aerodrome_name p) ≡ lower name
      → Memᴰ (some f) (fixes p)
      → f.place ≡ some at
      → Memᴰ p ps
      → nm_between here at ≤ over_procedures nm_between here name far ps
  unfolding over_procedures
  over-reaches here name far [] p f at named m e k = elim k [ ]
  over-reaches here name far (q ∷ ps) p f at named m e (Memᴰ.head same) =
      le_trans
        (subst (λ r. nm_between here at ≤ next here name far r) same
          (rw (named, eq_refl (lower name)) (furthest-reaches here far (fixes p) f at e m)))
        (over-le here name (next here name far q) ps)
  over-reaches here name far (q ∷ ps) p f at named m e (Memᴰ.tail k) =
      over-reaches here name (next here name far q) ps p f at named m e k

  reach-covers :
      (n far : ℕ)
      → 0 < n
      → n ≤ far
      → n + manoeuvre_nm ≤ max terminal_nm (if eqb far 0 then 0 else far + manoeuvre_nm)
  reach-covers n far pos le = ground arith

  -- A terminal area reaches past every located fix, away from the field itself, of every procedure
  -- into its aerodrome, with room to manoeuvre, and is never smaller than the conventional one.
  pub terminal_reach_nm-covers :
      (field : Fix Place) (here : Place) (procedures : List (Procedure Place)) (p : Procedure Place)
      (f : Fix Place) (at : Place)
      → field.place ≡ some here
      → Memᴰ p procedures
      → lower (aerodrome_name p) ≡ lower field.name
      → Memᴰ (some f) (fixes p)
      → f.place ≡ some at
      → 0 < nm_between here at
      → (nm_between here at + manoeuvre_nm ≤ terminal_reach_nm nm_between (some field) procedures)
        × (terminal_nm ≤ terminal_reach_nm nm_between (some field) procedures)
  unfolding terminal_reach_nm procedure_reach_nm
  terminal_reach_nm-covers field here procedures p f at placed k named m e pos = (
    rw placed (
        reach-covers (nm_between here at) (over_procedures nm_between here field.name 0 procedures)
          pos (over-reaches here field.name 0 procedures p f at named m e k)),
    omega arith,
  )
