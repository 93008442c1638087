-- ===== src/Controller/Order.antt =====
-- Who is next for the approach, by `_next_up` of src/marshall/atc/controller.py.
use marshall.Prelude.{
  ℕ, ◌≤◌, ◌≡◌, refl, Bool, true, false, Option, none, some, List, [], ◌∷◌, ◌⊎◌, any, keep, All,
  All-map, Memᴰ, Option-cases, inl, inr,
}
use marshall.Prelude.Dict
use marshall.Controller.{
  Aircraft, Engine, level_of, sorted, holds_here, holders, going_around, fewest, first, next_up,
}
use marshall.Controller.Sorting.{
  keep-none, keep-test, keep-All, unkeep-All, fewest-none, fewest-least, fewest-All, unsorted-All,
  sorted-All, sorted-Pairwise, first-least, first-All, first-none, sorted-nil, Fewer, Lower,
}

-- Every aircraft that passes a test comes after this one, by a measure.
abbrev IsLeast : (Aircraft → Bool) → (Aircraft → ℕ) → List Aircraft → Aircraft → Type 0
IsLeast test size xs a = (test a ≡ true) × All (λ b. test b ≡ true → size a ≤ size b) xs

-- The next is a go-around of the board with the fewest approaches; without one, a holder of the board at
-- the lowest level held; and nobody only where there is neither.
abbrev pub IsNext : Engine → Option Aircraft → Option Aircraft → Type 0
IsNext e ref none =
    (any (going_around e ref) (Dict.values e.aircraft) ≡ false)
    × (any (holds_here e ref) (Dict.values e.aircraft) ≡ false)
IsNext e ref (some a) =
    Memᴰ a (Dict.values e.aircraft)
    × (IsLeast (going_around e ref) (λ b. b.approaches) (Dict.values e.aircraft) a
        ⊎ ((any (going_around e ref) (Dict.values e.aircraft) ≡ false)
            × IsLeast (holds_here e ref) level_of (Dict.values e.aircraft) a))

own-Memᴰ : (xs : List Aircraft) → All (λ b. Memᴰ b xs) xs
own-Memᴰ [] = tt
own-Memᴰ (a ∷ xs) = (
  Memᴰ.head refl,
  All-map (λ b. Memᴰ b xs) (λ b. Memᴰ b (a ∷ xs)) xs (λ b m. Memᴰ.tail m) (own-Memᴰ xs),
)

kept-Memᴰ : (test : Aircraft → Bool) (xs : List Aircraft) → All (λ b. Memᴰ b xs) (keep test xs)
kept-Memᴰ test xs = keep-All (λ b. Memᴰ b xs) (λ b. Memᴰ b xs) test xs (λ b m t. m) (own-Memᴰ xs)

-- On every board, the next in line is one of its go-arounds, with the fewest approaches; without any, one of
-- its holders, at the lowest level held; and nobody exactly when there is neither.
pub next_up-IsNext : (e : Engine) (ref : Option Aircraft) → IsNext e ref (next_up e ref)
unfolding next_up holders
next_up-IsNext e ref = elim (Option-cases (fewest around)) [
  | inr (m, c) ↦
      rw (c, next_up)
        (
          fewest-All (λ b. Memᴰ b board) around m (kept-Memᴰ (going_around e ref) board) c,
          inl (
            fewest-All (λ b. going_around e ref b ≡ true) around m
                (keep-test (going_around e ref) board) c,
            unkeep-All (going_around e ref) (Fewer m) board (fewest-least around m c),
          ),
        )
  | inl c ↦
      let quiet = keep-none (going_around e ref) board (fewest-none around c) in
      elim (Option-cases (first (sorted waiting))) [
        | inl g ↦
            rw (c, g, next_up)
              (
                quiet,
                keep-none (holds_here e ref) board
                    (sorted-nil waiting (first-none (sorted waiting) g)),
              )
        | inr (a, g) ↦
            rw (c, g, next_up)
              (
                first-All (λ b. Memᴰ b board) (sorted waiting) a
                    (sorted-All (λ b. Memᴰ b board) waiting (kept-Memᴰ (holds_here e ref) board)) g,
                inr (
                  quiet,
                  (
                    first-All (λ b. holds_here e ref b ≡ true) (sorted waiting) a
                        (sorted-All (λ b. holds_here e ref b ≡ true) waiting
                          (keep-test (holds_here e ref) board))
                        g,
                    unkeep-All (holds_here e ref) (Lower a) board (
                        unsorted-All (Lower a) waiting
                          (first-least (sorted waiting) a (sorted-Pairwise waiting) g)),
                  ),
                ),
              )
      ]
]
  where
    board : List Aircraft
    board = Dict.values e.aircraft

    around : List Aircraft
    around = keep (going_around e ref) board

    waiting : List Aircraft
    waiting = keep (holds_here e ref) board
