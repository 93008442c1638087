-- ===== src/Controller/Letdown.antt =====
-- Whoever has a letdown of src/marshall/atc/controller.py keeps it while others are cleared.
use marshall.Prelude.{
  ℕ, String, ◌≡◌, refl, subst, ◌∙◌, true, false, ◌&&◌, ◌||◌, Option, none, some, List, [], ◌∷◌,
  ◌==◌, eq_iff, keep, eqb, All, arith, Bool-cases, Option-cases, inl, inr,
}
use mathlib.Core.Option.{some-injective}
use marshall.Prelude.Dict
use marshall.Prelude.Dict.{Dict}
use marshall.Controller.{
  Approach, Aircraft, Engine, write, procedure_of, key, in_letdown, set_letdown, same_stack,
  level_of, sorted, holds_here, holders, going_around, fewest, next_up, the_approach_takes_over,
  levels_of,
}
use marshall.Controller.Sorting.{sorted-All, keep-All, fewest-All, first-All}
use marshall.Controller.Sequence.{
  distinct, free_levels, moved, step_level, step_levels, step_down, on_approach,
}

-- An aircraft's aerodrome has a name, by its own procedure or by the bridge's.
abbrev pub field_of : Option Approach → Aircraft → String
field_of bridge a = elim (procedure_of a bridge) [ none ↦ "" | some p ↦ p.aerodrome ]

abbrev pub IsNamed : Option Approach → Aircraft → Type 0
IsNamed bridge a = (field_of bridge a == "") ≡ false

abbrev pub AllNamed : Option Approach → Dict Aircraft → Type 0
AllNamed bridge d = All (IsNamed bridge) (Dict.values d)

abbrev pub HasFields : Engine → Type 0
HasFields e = AllNamed e.profile e.aircraft

put-IsNamed :
    (bridge : Option Approach) (d : Dict Aircraft) (k : String) (a : Aircraft)
    → AllNamed bridge d
    → IsNamed bridge a
    → AllNamed bridge (Dict.put d k a)
unfolding Dict.put Dict.values
put-IsNamed bridge [] k a h n = (n, tt)
put-IsNamed bridge ((j, b) ∷ d) k a h n = elim (Bool-cases (k == j)) [
  | inl e ↦ rw e (n, h.1)
  | inr e ↦ rw e (h.0, put-IsNamed bridge d k a h.1 n)
]

pub get-IsNamed :
    (bridge : Option Approach) (d : Dict Aircraft) (k : String) (a : Aircraft)
    → AllNamed bridge d
    → Dict.get d k ≡ some a
    → IsNamed bridge a
unfolding Dict.get Dict.values
get-IsNamed bridge [] k a h e = absurd (cc)
get-IsNamed bridge ((j, b) ∷ d) k a h e = elim (Bool-cases (k == j)) [
  | inl c ↦ subst (IsNamed bridge) (some-injective b a (rw c at e)) h.0
  | inr c ↦ get-IsNamed bridge d k a h.1 (rw c at e)
]

moved-IsNamed :
    (e : Engine) (ref : Option Aircraft) (from want : ℕ) (bridge : Option Approach)
    (d : Dict Aircraft)
    → AllNamed bridge d
    → AllNamed bridge (moved e ref from want d)
unfolding moved Dict.values procedure_of
moved-IsNamed e ref from want bridge [] h = tt
moved-IsNamed e ref from want bridge ((k, a) ∷ d) h =
    elim (Bool-cases (holds_here e ref a && eqb (level_of a) from)) [
      | inl c ↦ rw c (h.0, moved-IsNamed e ref from want bridge d h.1)
      | inr c ↦ rw c (h.0, moved-IsNamed e ref from want bridge d h.1)
    ]

-- What a step leaves in place: whoever has a letdown has it, and every aircraft a named aerodrome.
abbrev pub Keeps : Engine → Engine → Type 0
Keeps e e' =
    (e'.profile ≡ e.profile)
    × HasFields e'
    × ((k who : String) → Dict.get e.letdown_by k ≡ some who → Dict.get e'.letdown_by k ≡ some who)

pub Keeps-next : (e e' e'' : Engine) → Keeps e e' → Keeps e' e'' → Keeps e e''
Keeps-next e e' e'' a b = (b.0 ∙ a.0, b.1, λ k who h. b.2 k who (a.2 k who h))

pub Keeps-same : (e : Engine) → HasFields e → Keeps e e
Keeps-same e h = (refl, h, λ k who g. g)

step_level-Keeps :
    (ref : Option Aircraft) (from want : ℕ) (e : Engine)
    → HasFields e
    → Keeps e (step_level ref from want e)
unfolding step_level
step_level-Keeps ref from want e h = elim (Bool-cases (eqb from want)) [
  | inl c ↦ rw (c, step_level) (Keeps-same e h)
  | inr c ↦
      rw (c, step_level) (refl, moved-IsNamed e ref from want e.profile e.aircraft h, λ k who g. g)
]

step_levels-Keeps :
    (ref : Option Aircraft) (ls free : List ℕ) (e : Engine)
    → HasFields e
    → Keeps e (step_levels ref ls free e)
unfolding step_levels
step_levels-Keeps ref [] free e h = Keeps-same e h
step_levels-Keeps ref (l ∷ ls) [] e h = Keeps-same e h
step_levels-Keeps ref (l ∷ ls) (want ∷ free) e h =
    let one = step_level-Keeps ref l want e h in
    Keeps-next e (step_level ref l want e) (step_levels ref ls free (step_level ref l want e)) one
      (step_levels-Keeps ref ls free (step_level ref l want e) one.1)

pub step_down-Keeps : (ref : Option Aircraft) (e : Engine) → HasFields e → Keeps e (step_down ref e)
unfolding step_down
step_down-Keeps ref e h =
    step_levels-Keeps ref (distinct (levels_of (holders e ref))) (free_levels e ref) e h

-- Whoever is next recovers to the same aerodrome, where all have names.
pub named-same :
    (mine his : String)
    → (mine == "") ≡ false
    → (his == "") ≡ false
    → (mine == "" || (his == "" || mine == his)) ≡ true
    → his ≡ mine
named-same mine his h k s = ground (arith, eq_iff mine his)

pub next_up-All :
    (e : Engine) (ref : Option Aircraft) (P Q : Aircraft → Type 0) (a : Aircraft)
    → ((b : Aircraft) → P b → same_stack e ref b ≡ true → Q b)
    → All P (Dict.values e.aircraft)
    → next_up e ref ≡ some a
    → Q a
unfolding next_up holders holds_here going_around
next_up-All e ref P Q a f h n =
    elim (Option-cases (fewest (keep (going_around e ref) (Dict.values e.aircraft)))) [
      | inl c ↦
          first-All Q (sorted (keep (holds_here e ref) (Dict.values e.aircraft))) a
            (sorted-All Q (keep (holds_here e ref) (Dict.values e.aircraft)) (
              keep-All P Q (holds_here e ref) (Dict.values e.aircraft)
                (λ b p t. f b p (ground arith)) h))
            (rw (c, next_up) at n)
      | inr (m, c) ↦
          fewest-All Q (keep (going_around e ref) (Dict.values e.aircraft)) a
            (keep-All P Q (going_around e ref) (Dict.values e.aircraft)
              (λ b p t. f b p (ground arith)) h)
            (c ∙ (rw (c, next_up) at n))
    ]

pub on_approach-field :
    (bridge : Option Approach) (t : ℕ) (a : Aircraft)
    → field_of bridge (on_approach t a) ≡ field_of bridge a
unfolding the_approach_takes_over procedure_of
on_approach-field bridge t a = elim (Bool-cases a.following) [
  | inl e ↦ rw (e, the_approach_takes_over) refl
  | inr e ↦ rw (e, the_approach_takes_over) refl
]

pub write-Keeps :
    (a : Aircraft) (e : Engine) → IsNamed e.profile a → HasFields e → Keeps e (write a e)
unfolding write
write-Keeps a e n h = (refl, put-IsNamed e.profile e.aircraft a.callsign a h n, λ k who g. g)

-- A letdown that nobody has is given to somebody, and the others stand as they were.
pub give-Keeps :
    (a : Option Aircraft) (him : String) (e : Engine)
    → HasFields e
    → in_letdown e a ≡ none
    → Keeps e (set_letdown a (some him) e)
unfolding set_letdown in_letdown
give-Keeps a him e h out = (
  refl,
  h,
  λ k who g. elim (Bool-cases (key e a == k)) [
    | inl c ↦ absurd (clash k who g ((eq_iff (key e a) k).0 c))
    | inr c ↦ Dict.get-put e.letdown_by (key e a) k him ∙ rw c g
  ],
)
  where
    clash : (k who : String) → Dict.get e.letdown_by k ≡ some who → key e a ≡ k → ⊥
    clash k who g c = cc (subst (λ j. Dict.get e.letdown_by j ≡ none) c out)
