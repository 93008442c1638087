-- ===== src/Controller/Levels.antt =====
-- The level that `_free_slot` of src/marshall/atc/controller.py finds is nobody's.
use marshall.Prelude.{
  ℕ, ◌≡◌, refl, sym, ap, ◌∙◌, Bool, true, false, not, ◌&&◌, ◌||◌, Option, none, some, List, [], ◌∷◌,
  ◌++◌, find_first, find_first-test, find_first-none, any, keep, eqb, All, All-map, arith,
  Bool-cases, Option-cases, inl, inr,
}
use marshall.Prelude.Dict
use marshall.Controller.{
  Phase, unknown, enroute, holding, cleared, missed, landed, is_holding, is_landed, Aircraft,
  Engine, same_stack, level_of, is_assigned, before, insert, sorted, holds_here, holders, level_in,
  levels_of, up_there, spoken_for, stack_of, free_slot,
}

-- An aircraft that is up there at a level of somebody's stack, whatever it is doing.
abbrev pub occupies : Engine → Option Aircraft → ℕ → Aircraft → Bool
occupies e ref ft a =
    not (is_landed a.phase) && (is_assigned a && (same_stack e ref a && eqb ft (level_of a)))

-- A slot is a level of the stack that no aircraft is at; there is none when each has somebody.
abbrev pub IsSlot : Engine → Option Aircraft → Option ℕ → Type 0
IsSlot e ref none =
    All (λ ft. any (occupies e ref ft) (Dict.values e.aircraft) ≡ true) (stack_of e ref)
IsSlot e ref (some ft) =
    (level_in ft (stack_of e ref) ≡ true)
    × (any (occupies e ref ft) (Dict.values e.aircraft) ≡ false)

level_in-append :
    (ft : ℕ) (xs ys : List ℕ) → level_in ft (xs ++ ys) ≡ (level_in ft xs || level_in ft ys)
level_in-append ft [] ys = refl
level_in-append ft (x ∷ xs) ys = ground (arith, level_in-append ft xs ys)

insert-levels :
    (ft : ℕ) (a : Aircraft) (xs : List Aircraft)
    → level_in ft (levels_of (insert a xs)) ≡ level_in ft (level_of a ∷ levels_of xs)
unfolding insert
insert-levels ft a [] = refl
insert-levels ft a (b ∷ xs) = elim (Bool-cases (before a b)) [
  | inl e ↦ rw e refl
  | inr e ↦
      rw (e, insert-levels ft a xs)
        (swapped (eqb ft (level_of b)) (eqb ft (level_of a)) (level_in ft (levels_of xs)))
]
  where
    swapped : (p q r : Bool) → (p || (q || r)) ≡ (q || (p || r))
    swapped p q r = ground arith

sorted-levels :
    (ft : ℕ) (xs : List Aircraft) → level_in ft (levels_of (sorted xs)) ≡ level_in ft (levels_of xs)
unfolding sorted
sorted-levels ft [] = refl
sorted-levels ft (a ∷ xs) =
    insert-levels ft a (sorted xs) ∙ ap (λ b. eqb ft (level_of a) || b) (sorted-levels ft xs)

keep-levels :
    (ft : ℕ) (test : Aircraft → Bool) (xs : List Aircraft)
    → level_in ft (levels_of (keep test xs)) ≡ any (λ a. test a && eqb ft (level_of a)) xs
keep-levels ft test [] = refl
keep-levels ft test (a ∷ xs) = elim (Bool-cases (test a)) [
  | inl e ↦ rw (e, keep-levels ft test xs) refl
  | inr e ↦ rw (e, keep-levels ft test xs) refl
]

phase_split :
    (p : Phase) (set here at : Bool)
    → (((is_holding p && (set && here)) && at)
        || ((set && (not (is_holding p || is_landed p) && here)) && at))
      ≡ (not (is_landed p) && (set && (here && at)))
unfolding is_holding is_landed
phase_split unknown set here at = ground arith
phase_split enroute set here at = ground arith
phase_split holding set here at = ground arith
phase_split cleared set here at = ground arith
phase_split missed set here at = ground arith
phase_split landed set here at = ground arith

any-or :
    (p q r : Aircraft → Bool) (xs : List Aircraft)
    → ((a : Aircraft) → (p a || q a) ≡ r a)
    → (any p xs || any q xs) ≡ any r xs
any-or p q r [] h = refl
any-or p q r (a ∷ xs) h = ground (arith, h a, any-or p q r xs h)

-- The levels that `_free_slot` takes for taken are those of the aircraft that are up there.
taken_lem :
    (e : Engine) (ref : Option Aircraft) (ft : ℕ)
    → level_in ft (levels_of (holders e ref) ++ spoken_for e ref)
      ≡ any (occupies e ref ft) (Dict.values e.aircraft)
unfolding holders spoken_for holds_here up_there
taken_lem e ref ft =
    let board = Dict.values e.aircraft in
    rw
      (
        level_in-append ft (levels_of (sorted (keep (holds_here e ref) board)))
            (levels_of (keep (up_there e ref) board)),
        sorted-levels ft (keep (holds_here e ref) board),
        keep-levels ft (holds_here e ref) board,
        keep-levels ft (up_there e ref) board,
      )
      (any-or (λ a. holds_here e ref a && eqb ft (level_of a))
        (λ a. up_there e ref a && eqb ft (level_of a)) (occupies e ref ft) board
        (λ a. phase_split a.phase (is_assigned a) (same_stack e ref a) (eqb ft (level_of a))))

eqb_refl : (n : ℕ) → eqb n n ≡ true
eqb_refl n = ground arith

find_first-in :
    (test : ℕ → Bool) (xs : List ℕ) (x : ℕ) → find_first test xs ≡ some x → level_in x xs ≡ true
find_first-in test [] x h = absurd (cc)
find_first-in test (y ∷ xs) x h = ground (arith, find_first-in test xs x, eqb_refl x)

not-false : (b : Bool) → not b ≡ false → b ≡ true
not-false b h = ground arith

not-true : (b : Bool) → not b ≡ true → b ≡ false
not-true b h = ground arith

-- The slot is a level of the stack that no aircraft is at, holding, cleared, going around or under
-- vectors; when there is no slot, every level of the stack has somebody.
pub free_slot-IsSlot : (e : Engine) (ref : Option Aircraft) → IsSlot e ref (free_slot e ref)
unfolding free_slot
free_slot-IsSlot e ref = elim (Option-cases (find_first open_level (stack_of e ref))) [
  | inl h ↦
      rw (h, free_slot)
        (All-map (λ ft. open_level ft ≡ false)
          (λ ft. any (occupies e ref ft) (Dict.values e.aircraft) ≡ true) (stack_of e ref)
          (λ ft n. sym (taken_lem e ref ft) ∙ not-false (level_in ft taken) n)
          (find_first-none open_level (stack_of e ref) h))
  | inr (ft, h) ↦
      rw (h, free_slot)
        (
          find_first-in open_level (stack_of e ref) ft h,
          sym (taken_lem e ref ft)
              ∙ not-true (level_in ft taken) (find_first-test open_level (stack_of e ref) ft h),
        )
]
  where
    taken : List ℕ
    taken = levels_of (holders e ref) ++ spoken_for e ref

    open_level : ℕ → Bool
    open_level ft = not (level_in ft taken)
