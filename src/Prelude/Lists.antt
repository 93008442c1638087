-- ===== src/Prelude/Lists.antt =====
-- Lists measured by native numbers, Boolean search and predicates by recursion.
use Prim.Native.Nat.{ℕ, zero, suc}
use mathlib.Core.Path.{◌≡◌, subst}
use mathlib.Core.Logic.{inl, inr}
use mathlib.Core.Bool.{Bool, true, false, ◌&&◌, ◌||◌}
use mathlib.Core.Option.{Option, none, some, some-injective}
use mathlib.Core.List.{List, [], ◌∷◌}
use native.Mathlib.Omega.{arith}
use marshall.Prelude.Tests.{Bool-cases, if◌then◌else◌}

module _ {ℓ} {A : Type ℓ} where
  abbrev pub length : List A → ℕ
  length [] = 0
  length (x ∷ xs) = suc (length xs)

  -- xs[:n] and xs[n:]
  abbrev pub take : ℕ → List A → List A
  take zero xs = []
  take (suc n) [] = []
  take (suc n) (x ∷ xs) = x ∷ take n xs

  abbrev pub drop : ℕ → List A → List A
  drop zero xs = xs
  drop (suc n) [] = []
  drop (suc n) (x ∷ xs) = drop n xs

  -- next((x for x in xs if test(x)), None)
  abbrev pub find_first : (A → Bool) → List A → Option A
  find_first test [] = none
  find_first test (x ∷ xs) = if test x then some x else find_first test xs

  -- any(test(x) for x in xs)
  abbrev pub any : (A → Bool) → List A → Bool
  any test [] = false
  any test (x ∷ xs) = test x || any test xs

  -- all(test(x) for x in xs)
  abbrev pub all : (A → Bool) → List A → Bool
  all test [] = true
  all test (x ∷ xs) = test x && all test xs

  -- [x for x in xs if test(x)]
  abbrev pub keep : (A → Bool) → List A → List A
  keep test [] = []
  keep test (x ∷ xs) = let rest = keep test xs in if test x then x ∷ rest else rest

module _ {ℓ κ} {A : Type ℓ} where
  -- A predicate that holds of every item, as a tuple that the tactics read.
  abbrev pub All : (A → Type κ) → List A → Type κ
  All P [] = Unit
  All P (x ∷ xs) = P x × All P xs

module _ {ℓ} {A : Type ℓ} where
  pub find_first-test :
      (test : A → Bool) (xs : List A) (x : A) → find_first test xs ≡ some x → test x ≡ true
  find_first-test test [] x h = ground arith
  find_first-test test (y ∷ xs) x h = ground (arith, find_first-test test xs x)

  pub find_first-none :
      (test : A → Bool) (xs : List A) → find_first test xs ≡ none → All (λ x. test x ≡ false) xs
  find_first-none test [] h = tt
  find_first-none test (y ∷ xs) h = elim (Bool-cases (test y)) [
    | inl e ↦ absurd (cc (rw e at h))
    | inr e ↦ (e, find_first-none test xs (rw e at h))
  ]

  pub find_first-all :
      (test good : A → Bool) (xs : List A) (x : A)
      → all good xs ≡ true
      → find_first test xs ≡ some x
      → good x ≡ true
  find_first-all test good [] x g h = ground arith
  find_first-all test good (y ∷ xs) x g h = ground (arith, find_first-all test good xs x)

module _ {ℓ κ} {A : Type ℓ} where
  pub find_first-All :
      (P : A → Type κ) (test : A → Bool) (xs : List A) (x : A)
      → All P xs
      → find_first test xs ≡ some x
      → P x
  find_first-All P test [] x ps h = absurd (cc)
  find_first-All P test (y ∷ xs) x ps h = elim (Bool-cases (test y)) [
    | inl e ↦ subst P (some-injective y x (rw e at h)) ps.0
    | inr e ↦ find_first-All P test xs x ps.1 (rw e at h)
  ]

  pub All-map {κ'} :
      (P : A → Type κ) (Q : A → Type κ') (xs : List A) → ((x : A) → P x → Q x) → All P xs → All Q xs
  All-map P Q [] f ps = tt
  All-map P Q (x ∷ xs) f ps = (f x ps.0, All-map P Q xs f ps.1)

  pub All-map₂ {κ' κ''} :
      (P : A → Type κ) (Q : A → Type κ') (R : A → Type κ'') (xs : List A)
      → ((x : A) → P x → Q x → R x)
      → All P xs
      → All Q xs
      → All R xs
  All-map₂ P Q R [] f ps qs = tt
  All-map₂ P Q R (x ∷ xs) f ps qs = (f x ps.0 qs.0, All-map₂ P Q R xs f ps.1 qs.1)

module _ {ℓ κ} {A : Type ℓ} where
  -- Each item is related to every later one.
  abbrev pub Pairwise : (A → A → Type κ) → List A → Type (ℓ ⊔ κ)
  Pairwise R [] = Unit
  Pairwise R (x ∷ xs) = All (R x) xs × Pairwise R xs
