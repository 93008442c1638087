-- ===== src/Controller/Sorting.antt =====
-- The order of the stack and of the go-arounds, as src/marshall/atc/controller.py sorts them.
use marshall.Prelude.{
  ℕ, ◌≤◌, ◌≡◌, refl, sym, subst, Bool, true, false, ◌&&◌, ◌||◌, none, some, List, [], ◌∷◌, any,
  keep, ltb, leb, leb→le, leb→lt, eqb, str_leb, All, Pairwise, All-map, arith, Bool-cases,
  Option-cases, inl, inr,
}
use mathlib.Core.Option.{some-injective}
use marshall.Controller.{Aircraft, level_of, before, insert, sorted, fewest, first}

module _ (test : Aircraft → Bool) where
  pub keep-none : (xs : List Aircraft) → keep test xs ≡ [] → any test xs ≡ false
  keep-none [] h = refl
  keep-none (a ∷ xs) h = elim (Bool-cases (test a)) [
    | inl e ↦ absurd (cc (rw e at h))
    | inr e ↦ rw e (keep-none xs (rw e at h))
  ]

  pub keep-test : (xs : List Aircraft) → All (λ b. test b ≡ true) (keep test xs)
  keep-test [] = tt
  keep-test (a ∷ xs) = elim (Bool-cases (test a)) [
    | inl e ↦ rw e (e, keep-test xs)
    | inr e ↦ rw e (keep-test xs)
  ]

  -- What holds of those that are kept holds of all that pass.
  pub unkeep-All :
      (P : Aircraft → Type 0) (xs : List Aircraft)
      → All P (keep test xs)
      → All (λ b. test b ≡ true → P b) xs
  unkeep-All P [] h = tt
  unkeep-All P (a ∷ xs) h = elim (Bool-cases (test a)) [
    | inl e ↦
        let both : P a × All P (keep test xs) = rw e at h in (λ t. both.0, unkeep-All P xs both.1)
    | inr e ↦ (λ t. absurd (cc), unkeep-All P xs (rw e at h))
  ]

pub fewest-none : (xs : List Aircraft) → fewest xs ≡ none → xs ≡ []
unfolding fewest
fewest-none [] h = refl
fewest-none (a ∷ xs) h = elim (Option-cases (fewest xs)) [
  | inl c ↦ absurd (cc (rw (c, fewest) at h))
  | inr (m, c) ↦ elim (Bool-cases (leb a.approaches m.approaches)) [
    | inl l ↦ absurd (cc (rw (c, l, fewest) at h))
    | inr l ↦ absurd (cc (rw (c, l, fewest) at h))
  ]
]

abbrev pub Fewer : Aircraft → Aircraft → Type 0
Fewer a b = a.approaches ≤ b.approaches

pub fewest-least : (xs : List Aircraft) (a : Aircraft) → fewest xs ≡ some a → All (Fewer a) xs
unfolding fewest
fewest-least [] a h = absurd (cc)
fewest-least (b ∷ xs) a h = elim (Option-cases (fewest xs)) [
  | inl c ↦
      subst (λ x. All (Fewer x) (b ∷ xs)) (some-injective b a (rw (c, fewest) at h))
        (subst (λ ys. All (Fewer b) (b ∷ ys)) (sym (fewest-none xs c)) (ground arith, tt))
  | inr (m, c) ↦ elim (Bool-cases (leb b.approaches m.approaches)) [
    | inl l ↦
        subst (λ x. All (Fewer x) (b ∷ xs)) (some-injective b a (rw (c, l, fewest) at h))
          (
            ground arith,
            All-map (Fewer m) (Fewer b) xs
                (λ x n. ground (arith, leb→le b.approaches m.approaches l)) (fewest-least xs m c),
          )
    | inr l ↦
        subst (λ x. All (Fewer x) (b ∷ xs)) (some-injective m a (rw (c, l, fewest) at h))
          (ground (arith, leb→lt b.approaches m.approaches l), fewest-least xs m c)
  ]
]

abbrev pub Lower : Aircraft → Aircraft → Type 0
Lower a b = level_of a ≤ level_of b

before-lower : (a b : Aircraft) → before a b ≡ true → level_of a ≤ level_of b
unfolding before
before-lower a b h = by_levels (level_of a) (level_of b) (str_leb a.callsign b.callsign) h
  where
    by_levels : (m n : ℕ) (s : Bool) → (ltb m n || (eqb m n && s)) ≡ true → m ≤ n
    by_levels m n s h = ground arith

not_before-lower : (a b : Aircraft) → before a b ≡ false → level_of b ≤ level_of a
unfolding before
not_before-lower a b h = by_levels (level_of a) (level_of b) (str_leb a.callsign b.callsign) h
  where
    by_levels : (m n : ℕ) (s : Bool) → (ltb m n || (eqb m n && s)) ≡ false → n ≤ m
    by_levels m n s h = ground arith

Lower-below :
    (a b : Aircraft) (xs : List Aircraft)
    → level_of a ≤ level_of b
    → All (Lower b) xs
    → All (Lower a) xs
Lower-below a b xs h k = All-map (Lower b) (Lower a) xs (λ x n. ground arith) k

insert-All :
    (P : Aircraft → Type 0) (a : Aircraft) (xs : List Aircraft)
    → P a
    → All P xs
    → All P (insert a xs)
unfolding insert
insert-All P a [] p h = (p, tt)
insert-All P a (b ∷ xs) p h = elim (Bool-cases (before a b)) [
  | inl e ↦ rw e (p, h)
  | inr e ↦ rw e (h.0, insert-All P a xs p h.1)
]

uninsert-All :
    (P : Aircraft → Type 0) (a : Aircraft) (xs : List Aircraft)
    → All P (insert a xs)
    → P a × All P xs
unfolding insert
uninsert-All P a [] h = h
uninsert-All P a (b ∷ xs) h = elim (Bool-cases (before a b)) [
  | inl e ↦ rw e at h
  | inr e ↦
      let both : P b × All P (insert a xs) = rw e at h in
      let rest = uninsert-All P a xs both.1 in (rest.0, (both.0, rest.1))
]

pub unsorted-All : (P : Aircraft → Type 0) (xs : List Aircraft) → All P (sorted xs) → All P xs
unfolding sorted
unsorted-All P [] h = tt
unsorted-All P (a ∷ xs) h =
    let both = uninsert-All P a (sorted xs) h in (both.0, unsorted-All P xs both.1)

pub sorted-All : (P : Aircraft → Type 0) (xs : List Aircraft) → All P xs → All P (sorted xs)
unfolding sorted
sorted-All P [] h = tt
sorted-All P (a ∷ xs) h = insert-All P a (sorted xs) h.0 (sorted-All P xs h.1)

insert-Pairwise :
    (a : Aircraft) (xs : List Aircraft) → Pairwise Lower xs → Pairwise Lower (insert a xs)
unfolding insert
insert-Pairwise a [] h = (tt, tt)
insert-Pairwise a (b ∷ xs) h = elim (Bool-cases (before a b)) [
  | inl e ↦ rw e ((before-lower a b e, Lower-below a b xs (before-lower a b e) h.0), h)
  | inr e ↦ rw e (insert-All (Lower b) a xs (not_before-lower a b e) h.0, insert-Pairwise a xs h.1)
]

-- The stack stands in the order of its levels.
pub sorted-Pairwise : (xs : List Aircraft) → Pairwise Lower (sorted xs)
unfolding sorted
sorted-Pairwise [] = tt
sorted-Pairwise (a ∷ xs) = insert-Pairwise a (sorted xs) (sorted-Pairwise xs)

pub first-least :
    (xs : List Aircraft) (a : Aircraft) → Pairwise Lower xs → first xs ≡ some a → All (Lower a) xs
first-least [] a h e = absurd (cc)
first-least (b ∷ xs) a h e =
    subst (λ x. All (Lower x) (b ∷ xs)) (some-injective b a e) (ground arith, h.0)

pub first-All :
    (P : Aircraft → Type 0) (xs : List Aircraft) (a : Aircraft) → All P xs → first xs ≡ some a → P a
first-All P [] a h e = absurd (cc)
first-All P (b ∷ xs) a h e = subst P (some-injective b a e) h.0

pub first-none : (xs : List Aircraft) → first xs ≡ none → xs ≡ []
first-none [] h = refl
first-none (a ∷ xs) h = absurd (cc)

pub sorted-nil : (xs : List Aircraft) → sorted xs ≡ [] → xs ≡ []
unfolding sorted insert
sorted-nil [] h = refl
sorted-nil (a ∷ xs) h =
    absurd ((uninsert-All (λ b. ⊥) a (sorted xs) (subst (All (λ b. ⊥)) (sym h) tt)).0)

pub fewest-All :
    (P : Aircraft → Type 0) (xs : List Aircraft) (a : Aircraft)
    → All P xs
    → fewest xs ≡ some a
    → P a
unfolding fewest
fewest-All P [] a h e = absurd (cc)
fewest-All P (b ∷ xs) a h e = elim (Option-cases (fewest xs)) [
  | inl c ↦ subst P (some-injective b a (rw (c, fewest) at e)) h.0
  | inr (m, c) ↦ elim (Bool-cases (leb b.approaches m.approaches)) [
    | inl l ↦ subst P (some-injective b a (rw (c, l, fewest) at e)) h.0
    | inr l ↦ subst P (some-injective m a (rw (c, l, fewest) at e)) (fewest-All P xs m h.1 c)
  ]
]

pub keep-All :
    (P Q : Aircraft → Type 0) (test : Aircraft → Bool) (xs : List Aircraft)
    → ((a : Aircraft) → P a → test a ≡ true → Q a)
    → All P xs
    → All Q (keep test xs)
keep-All P Q test [] f h = tt
keep-All P Q test (a ∷ xs) f h = elim (Bool-cases (test a)) [
  | inl e ↦ rw e (f a h.0 e, keep-All P Q test xs f h.1)
  | inr e ↦ rw e (keep-All P Q test xs f h.1)
]
