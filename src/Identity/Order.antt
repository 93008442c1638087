-- ===== src/Identity/Order.antt =====
-- Nobody is identified by where he stands in a list: the refusals of src/marshall/atc/identity.py.
use marshall.Prelude.{
  suc, String, ◌≡◌, refl, ap, ◌∙◌, Bool, not, ◌&&◌, ◌||◌, Option, none, some, List, [], ◌∷◌, ◌==◌,
  arith, length, ltb, str_len, keep, Bool-cases, Option-cases, inl, inr, has_part, if◌then◌else◌,
}
use mathlib.Core.List.Permᴰ
use mathlib.Core.List.{Permᴰ}
use marshall.Names.{squash, handle}
use marshall.Identity.{
  SimUnit, pick, exact, by_handle, hits, unit_for_radio, Registry, is_claimed, by_elimination,
  physical, resolve,
}

module _ {ℓ} {A : Type ℓ} where
  keep-Permᴰ :
      (test : A → Bool) {xs ys : List A} → Permᴰ xs ys → Permᴰ (keep test xs) (keep test ys)
  keep-Permᴰ test Permᴰ.nil = Permᴰ.nil
  keep-Permᴰ test (Permᴰ.cons {a} {b} e d) = rw (← e) (elim (Bool-cases (test a)) [
    | inl c ↦ rw c (Permᴰ.cons refl (keep-Permᴰ test d))
    | inr c ↦ rw c (keep-Permᴰ test d)
  ])
  keep-Permᴰ test (Permᴰ.swap {a} {b} {l = l} e f) =
      rw (← e, ← f)
        (elim (Bool-cases (test a)) [
          | inl c ↦ elim (Bool-cases (test b)) [
            | inl g ↦ rw (c, g) (Permᴰ.swap refl refl)
            | inr g ↦ rw (c, g) (Permᴰ.refl (a ∷ keep test l))
          ]
          | inr c ↦ rw c (Permᴰ.refl (keep test (b ∷ l)))
        ])
  keep-Permᴰ test (Permᴰ.trans d e) = Permᴰ.trans (keep-Permᴰ test d) (keep-Permᴰ test e)

  length-Permᴰ : {xs ys : List A} → Permᴰ xs ys → length xs ≡ length ys
  length-Permᴰ Permᴰ.nil = refl
  length-Permᴰ (Permᴰ.cons e d) = ap suc (length-Permᴰ d)
  length-Permᴰ (Permᴰ.swap e f) = refl
  length-Permᴰ (Permᴰ.trans d e) = length-Permᴰ d ∙ length-Permᴰ e

  pick-cons :
      (o : Option A) (a b : A) (xs ys : List A)
      → a ≡ b
      → length xs ≡ length ys
      → pick (a ∷ xs) o ≡ pick (b ∷ ys) o
  unfolding pick
  pick-cons o a b [] [] e h = ap some e
  pick-cons o a b [] (y ∷ ys) e h = absurd (omega arith)
  pick-cons o a b (x ∷ xs) [] e h = absurd (omega arith)
  pick-cons o a b (x ∷ xs) (y ∷ ys) e h = refl

  -- Whether there is none, one or a choice does not depend on the order, and the one is the same.
  pick-Permᴰ : (o : Option A) {xs ys : List A} → Permᴰ xs ys → pick xs o ≡ pick ys o
  unfolding pick
  pick-Permᴰ o Permᴰ.nil = refl
  pick-Permᴰ o (Permᴰ.cons {a} {b} {l₁} {l₂} e d) = pick-cons o a b l₁ l₂ e (length-Permᴰ d)
  pick-Permᴰ o (Permᴰ.swap e f) = refl
  pick-Permᴰ o (Permᴰ.trans d e) = pick-Permᴰ o d ∙ pick-Permᴰ o e

pub unit_for_radio-Permᴰ :
    (srs_name : String) {us vs : List SimUnit}
    → Permᴰ us vs
    → unit_for_radio srs_name us ≡ unit_for_radio srs_name vs
unfolding unit_for_radio exact by_handle hits
unit_for_radio-Permᴰ srs_name {us} {vs} d =
    rw
      (
        pick-Permᴰ none (keep-Permᴰ loosely d),
        pick-Permᴰ (pick (hits k vs) none) (keep-Permᴰ handled d),
      )
      (ap (λ o. if ltb (str_len k) 3 then none else o) (pick-Permᴰ _ (keep-Permᴰ exactly d)))
  where
    k : String
    k = squash srs_name

    loosely : SimUnit → Bool
    loosely u = has_part (squash u.name) k || has_part k (squash u.name)

    handled : SimUnit → Bool
    handled u = squash (handle u.name) == squash (handle srs_name)

    exactly : SimUnit → Bool
    exactly u = squash u.name == k

by_elimination-Permᴰ :
    (guid : String) (reg : Registry) {us vs : List SimUnit}
    → Permᴰ us vs
    → by_elimination guid us reg ≡ by_elimination guid vs reg
unfolding by_elimination
by_elimination-Permᴰ guid reg d =
    pick-Permᴰ none (keep-Permᴰ (λ u. u.manned && not (is_claimed guid reg u.name)) d)

physical-Permᴰ :
    (guid srs_name : String) (reg : Registry) {us vs : List SimUnit}
    → Permᴰ us vs
    → physical guid srs_name us reg ≡ physical guid srs_name vs reg
unfolding physical
physical-Permᴰ guid srs_name reg {us} {vs} d = elim (Option-cases (unit_for_radio srs_name vs)) [
  | inr (u, c) ↦ rw (unit_for_radio-Permᴰ srs_name d ∙ c, c, physical) refl
  | inl c ↦
      rw (unit_for_radio-Permᴰ srs_name d ∙ c, c, by_elimination-Permᴰ guid reg d, physical) refl
]

-- In whatever order the scope lists the units, a call resolves to the same identity and leaves the same
-- registry.
pub resolve-Permᴰ :
    (guid srs_name spoken : String) (us vs : List SimUnit) (plans roster : List String)
    (reg : Registry)
    → Permᴰ us vs
    → resolve guid srs_name spoken us plans roster reg
      ≡ resolve guid srs_name spoken vs plans roster reg
unfolding resolve
resolve-Permᴰ guid srs_name spoken us vs plans roster reg d =
    rw (physical-Permᴰ guid srs_name reg d, resolve) refl
