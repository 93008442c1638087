-- ===== src/Controller/Passing.antt =====
-- No clearance of src/marshall/atc/controller.py makes a letdown older, or touches a runway.
use marshall.Prelude.{
  ℕ, ◌≤◌, String, ◌≡◌, refl, ◌∙◌, Option, none, some, List, [], ◌∷◌, ◌==◌, is_in, eqb, arith,
  Bool-cases, Option-cases, inl, inr, if◌then◌else◌,
}
use marshall.Prelude.Dict
use marshall.Prelude.Dict.{Dict}
use marshall.Controller.{
  is_holding, Aircraft, cleared_approach, Engine, write, say, anomaly, key, in_letdown, set_letdown,
  levels_of, holders, next_up,
}
use marshall.Controller.Sequence.{
  distinct, free_levels, step_level, step_levels, step_down, on_approach, continue_him, number_two,
  clear_next, try_clear_one, try_each, try_clear,
}
use marshall.Controller.Clock.{runway_hold_sec, clearance_timeout_sec, held_for}

-- Whoever is recorded has not been for longer than the limit.
abbrev pub IsRecent : ℕ → ℕ → Dict String → Dict ℕ → String → Type 0
IsRecent limit t by since k = (who : String) → Dict.get by k ≡ some who → held_for t since k ≤ limit

abbrev pub HasRecentLetdown : Engine → String → Type 0
HasRecentLetdown e k = IsRecent clearance_timeout_sec e.t e.letdown_by e.letdown_since_by k

abbrev pub HasRecentRunway : Engine → String → Type 0
HasRecentRunway e k = IsRecent runway_hold_sec e.t e.runway_by e.runway_since_by k

-- A step that takes no time, leaves the runways and makes no letdown too old.
abbrev pub Goes : Engine → Engine → Type 0
Goes e e' =
    (e'.t ≡ e.t)
    × (e'.runway_by ≡ e.runway_by)
    × (e'.runway_since_by ≡ e.runway_since_by)
    × ((k : String) → HasRecentLetdown e k → HasRecentLetdown e' k)

pub Goes-same : (e : Engine) → Goes e e
Goes-same e = (refl, refl, refl, λ k h. h)

pub Goes-next : (e e' e'' : Engine) → Goes e e' → Goes e' e'' → Goes e e''
Goes-next e e' e'' a b = (b.0 ∙ a.0, b.1 ∙ a.1, b.2 ∙ a.2, λ k h. b.3 k (a.3 k h))

pub write-Goes : (a : Aircraft) (e : Engine) → Goes e (write a e)
unfolding write
write-Goes a e = Goes-same e

step_level-Goes :
    (ref : Option Aircraft) (from want : ℕ) (e : Engine) → Goes e (step_level ref from want e)
unfolding step_level
step_level-Goes ref from want e = elim (Bool-cases (eqb from want)) [
  | inl c ↦ rw (c, step_level) (Goes-same e)
  | inr c ↦ rw (c, step_level) (Goes-same e)
]

step_levels-Goes :
    (ref : Option Aircraft) (ls free : List ℕ) (e : Engine) → Goes e (step_levels ref ls free e)
unfolding step_levels
step_levels-Goes ref [] free e = Goes-same e
step_levels-Goes ref (l ∷ ls) [] e = Goes-same e
step_levels-Goes ref (l ∷ ls) (want ∷ free) e =
    Goes-next e (step_level ref l want e) (step_levels ref ls free (step_level ref l want e))
      (step_level-Goes ref l want e) (step_levels-Goes ref ls free (step_level ref l want e))

step_down-Goes : (ref : Option Aircraft) (e : Engine) → Goes e (step_down ref e)
unfolding step_down
step_down-Goes ref e =
    step_levels-Goes ref (distinct (levels_of (holders e ref))) (free_levels e ref) e

-- A letdown that is given now has been had for no time.
give-Goes : (a : Option Aircraft) (him : String) (e : Engine) → Goes e (set_letdown a (some him) e)
unfolding set_letdown held_for
give-Goes a him e = (
  refl,
  refl,
  refl,
  λ k h who g. elim (Bool-cases (key e a == k)) [
    | inl c ↦ rw (Dict.get-put e.letdown_since_by (key e a) k e.t, c) (omega arith)
    | inr c ↦
        rw (Dict.get-put e.letdown_since_by (key e a) k e.t, c)
          (h who (rw (Dict.get-put e.letdown_by (key e a) k him, c) at g))
  ],
)

-- A letdown that is taken back is nobody's.
pub drop-IsRecent :
    (limit t : ℕ) (by : Dict String) (since : Dict ℕ) (j k : String)
    → IsRecent limit t by since k
    → IsRecent limit t (Dict.remove by j) (Dict.remove since j) k
unfolding held_for
drop-IsRecent limit t by since j k h who g = elim (Bool-cases (j == k)) [
  | inl c ↦ absurd (cc (rw (Dict.get-remove by j k, c) at g))
  | inr c ↦ rw (Dict.get-remove since j k, c) (h who (rw (Dict.get-remove by j k, c) at g))
]

clear_next-Goes : (a : Aircraft) (e : Engine) → Goes e (clear_next a e)
unfolding clear_next say
clear_next-Goes a e = elim (Bool-cases (is_holding a.phase)) [
  | inl c ↦
      rw (c, clear_next)
        (Goes-next e given (step_down (some his) given) giving (step_down-Goes (some his) given))
  | inr c ↦ rw (c, clear_next) giving
]
  where
    his : Aircraft
    his = on_approach e.t a

    given : Engine
    given =
        say (cleared_approach a.callsign) (set_letdown (some his) (some a.callsign) (write his e))

    giving : Goes e given
    giving =
        Goes-next e (write his e) (set_letdown (some his) (some a.callsign) (write his e))
          (write-Goes his e) (give-Goes (some his) a.callsign (write his e))

number_two-Goes : (by : String) (e : Engine) → Goes e (number_two by e)
unfolding number_two say
number_two-Goes by e = Goes-same e

continue_him-Goes : (by : String) (e : Engine) → Goes e (continue_him by e)
unfolding continue_him anomaly
continue_him-Goes by e = elim (Option-cases (Dict.get e.aircraft by)) [
  | inl c ↦ rw (c, continue_him) (Goes-same e)
  | inr (ac, c) ↦ elim (Bool-cases (is_holding ac.phase)) [
    | inr g ↦ rw (c, g, continue_him) (Goes-same e)
    | inl g ↦ rw (c, g, continue_him) (write-Goes (on_approach e.t ac) (anomaly by e))
  ]
]

try_clear_one-Goes :
    (by : Option String) (ref : Option Aircraft) (e : Engine) → Goes e (try_clear_one by ref e)
unfolding try_clear_one
try_clear_one-Goes by ref e = elim (Option-cases (in_letdown e ref)) [
  | inr (who, c) ↦ rw (c, try_clear_one) (asked who by)
  | inl c ↦ elim (Option-cases (next_up e ref)) [
    | inl g ↦ rw (c, g, try_clear_one) (Goes-same e)
    | inr (a, g) ↦ rw (c, g, try_clear_one) (clear_next-Goes a e)
  ]
]
  where
    asked :
        (who : String) (by : Option String)
        → Goes e
            (elim by [ none ↦ e | some b ↦ if b == who then continue_him b e else number_two b e ])
    asked who none = Goes-same e
    asked who (some b) = elim (Bool-cases (b == who)) [
      | inl g ↦ rw g (continue_him-Goes b e)
      | inr g ↦ rw g (number_two-Goes b e)
    ]

try_each-Goes : (bs : List Aircraft) (seen : List String) (e : Engine) → Goes e (try_each bs seen e)
unfolding try_each
try_each-Goes [] seen e = Goes-same e
try_each-Goes (a ∷ bs) seen e = elim (Bool-cases (is_in (key e (some a)) seen)) [
  | inl c ↦ rw (c, try_each) (try_each-Goes bs seen e)
  | inr c ↦
      rw (c, try_each)
        (Goes-next e (try_clear_one none (some a) e)
          (try_each bs (key e (some a) ∷ seen) (try_clear_one none (some a) e))
          (try_clear_one-Goes none (some a) e)
          (try_each-Goes bs (key e (some a) ∷ seen) (try_clear_one none (some a) e)))
]

-- Whoever asks, and for whichever aerodrome.
pub try_clear-Goes :
    (by : Option String) (ref : Option Aircraft) (e : Engine) → Goes e (try_clear by ref e)
unfolding try_clear
try_clear-Goes by (some ref) e = try_clear_one-Goes by (some ref) e
try_clear-Goes (some by) none e = try_clear_one-Goes (some by) (Dict.get e.aircraft by) e
try_clear-Goes none none e = over (Dict.values e.aircraft)
  where
    over :
        (bs : List Aircraft)
        → Goes e (elim bs [ [] ↦ try_clear_one none none e | a ∷ cs ↦ try_each (a ∷ cs) [] e ])
    over [] = try_clear_one-Goes none none e
    over (a ∷ cs) = try_each-Goes (a ∷ cs) [] e
