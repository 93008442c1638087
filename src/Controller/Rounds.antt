-- ===== src/Controller/Rounds.antt =====
-- The rounds of the loops of `tick`, in src/marshall/atc/controller.py.
use marshall.Prelude.{
  ℕ, String, ◌≡◌, refl, sym, subst, true, Option, none, some, [], ◌∷◌, ◌==◌, eq_iff, eq_refl, leb,
  leb→le, Bool-cases, Option-cases, inl, inr,
}
use marshall.Prelude.Dict
use marshall.Prelude.Dict.{Dict}
use marshall.Controller.{Aircraft, Engine, write, anomaly}
use marshall.Controller.Sequence.{try_clear}
use marshall.Controller.Runway.{free_runway}
use marshall.Controller.Clock.{
  runway_hold_sec, clearance_timeout_sec, held_for, for_items, off_the_runway, time_runway,
  take_back, give_on, time_letdown, unassigned,
}
use marshall.Controller.Passing.{
  IsRecent, HasRecentLetdown, HasRecentRunway, Goes, Goes-same, Goes-next, write-Goes,
  drop-IsRecent, try_clear-Goes,
}

-- A loop over the rows of a dictionary, each round of which settles its own key and unsettles none.
module _ (P : Engine → String → Type 0) (body : String → String → Engine → Engine)
    (settles : (k cs : String) (e : Engine) → P (body k cs e) k)
    (keeps : (k cs j : String) (e : Engine) → P e j → P (body k cs e) j) where
  pub for_items-settles :
      (rows : Dict String) (e : Engine)
      → ((k : String) → Dict.get rows k ≡ none → P e k)
      → (k : String) → P (for_items body rows e) k
  unfolding for_items Dict.get
  for_items-settles [] e h k = h k refl
  for_items-settles ((j, cs) ∷ rows) e h i =
      for_items-settles rows (body j cs e)
        (λ k out. elim (Bool-cases (k == j)) [
          | inl c ↦ subst (P (body j cs e)) (sym ((eq_iff k j).0 c)) (settles j cs e)
          | inr c ↦ keeps j cs k e (h k (rw c out))
        ])
        i

-- What every round leaves true, the loop does.
pub for_items-keeps :
    (Q : Engine → Type 0) (body : String → String → Engine → Engine)
    → ((k cs : String) (e : Engine) → Q e → Q (body k cs e))
    → (rows : Dict String) (e : Engine) → Q e
    → Q (for_items body rows e)
unfolding for_items
for_items-keeps Q body keeps [] e q = q
for_items-keeps Q body keeps ((k, cs) ∷ rows) e q =
    for_items-keeps Q body keeps rows (body k cs e) (keeps k cs e q)

gone-IsRecent :
    (limit t : ℕ) (by : Dict String) (since : Dict ℕ) (k : String)
    → IsRecent limit t (Dict.remove by k) since k
gone-IsRecent limit t by since k who g = absurd (cc (rw (Dict.get-remove by k k, eq_refl k) at g))

pub Goes-runway :
    (e e' : Engine) (k : String) → Goes e e' → HasRecentRunway e k → HasRecentRunway e' k
Goes-runway e e' k g h = rw (g.0, g.1, g.2) h

off_the_runway-Goes : (cs : String) (e : Engine) → Goes e (off_the_runway cs (anomaly cs e))
unfolding off_the_runway anomaly
off_the_runway-Goes cs e = elim (Option-cases (Dict.get e.aircraft cs)) [
  | inl c ↦ rw (c, off_the_runway) (Goes-same e)
  | inr (ac, c) ↦
      rw (c, off_the_runway) (write-Goes (record ac { runway_vacated = true }) (anomaly cs e))
]

pub time_runway-settles : (k cs : String) (e : Engine) → HasRecentRunway (time_runway k cs e) k
unfolding time_runway free_runway
time_runway-settles k cs e =
    elim (Bool-cases (leb (held_for e.t e.runway_since_by k) runway_hold_sec)) [
      | inl c ↦
          rw (c, time_runway) λ who g. leb→le (held_for e.t e.runway_since_by k) runway_hold_sec c
      | inr c ↦
          let off = off_the_runway cs (anomaly cs e) in
          rw (c, time_runway)
            (gone-IsRecent runway_hold_sec off.t off.runway_by (Dict.remove off.runway_since_by k)
              k)
    ]

pub time_runway-keeps :
    (k cs j : String) (e : Engine) → HasRecentRunway e j → HasRecentRunway (time_runway k cs e) j
unfolding time_runway free_runway
time_runway-keeps k cs j e h =
    elim (Bool-cases (leb (held_for e.t e.runway_since_by k) runway_hold_sec)) [
      | inl c ↦ rw (c, time_runway) h
      | inr c ↦
          let off = off_the_runway cs (anomaly cs e) in
          rw (c, time_runway)
            (drop-IsRecent runway_hold_sec off.t off.runway_by off.runway_since_by k j
              (Goes-runway e off j (off_the_runway-Goes cs e) h))
    ]

pub time_runway-t : (k cs : String) (e : Engine) → (time_runway k cs e).t ≡ e.t
unfolding time_runway free_runway
time_runway-t k cs e = elim (Bool-cases (leb (held_for e.t e.runway_since_by k) runway_hold_sec)) [
  | inl c ↦ rw (c, time_runway) refl
  | inr c ↦ rw (c, time_runway) (off_the_runway-Goes cs e).0
]

take_back-Goes : (k : String) (e : Engine) → Goes e (take_back k e)
unfolding take_back
take_back-Goes k e = (
  refl,
  refl,
  refl,
  λ j h. drop-IsRecent clearance_timeout_sec e.t e.letdown_by e.letdown_since_by k j h,
)

take_back-settles : (k : String) (e : Engine) → HasRecentLetdown (take_back k e) k
unfolding take_back
take_back-settles k e =
    gone-IsRecent clearance_timeout_sec e.t e.letdown_by (Dict.remove e.letdown_since_by k) k

-- The letdown is given on: nothing is made older, and his is not left too old.
give_on-Goes :
    (k cs : String) (e : Engine) → Goes e (give_on k cs e) × HasRecentLetdown (give_on k cs e) k
unfolding give_on
give_on-Goes k cs e = elim (Option-cases (Dict.get e.aircraft cs)) [
  | inl c ↦ rw (c, give_on) (on none e (Goes-same e))
  | inr (ac, c) ↦
      rw (c, give_on)
        (on (some (unassigned ac)) (write (unassigned ac) e) (write-Goes (unassigned ac) e))
]
  where
    on :
        (ref : Option Aircraft) (b : Engine)
        → Goes e b
        → Goes e (try_clear none ref (take_back k b))
          × HasRecentLetdown (try_clear none ref (take_back k b)) k
    on ref b g =
        let back = take_back k b in
        let clears = try_clear-Goes none ref back in
        (
          Goes-next e back (try_clear none ref back) (Goes-next e b back g (take_back-Goes k b))
              clears,
          clears.3 k (take_back-settles k b),
        )

pub time_letdown-Goes : (k cs : String) (e : Engine) → Goes e (time_letdown k cs e)
unfolding time_letdown
time_letdown-Goes k cs e =
    elim (Bool-cases (leb (held_for e.t e.letdown_since_by k) clearance_timeout_sec)) [
      | inl c ↦ rw (c, time_letdown) (Goes-same e)
      | inr c ↦ rw (c, time_letdown) (give_on-Goes k cs e).0
    ]

pub time_letdown-settles : (k cs : String) (e : Engine) → HasRecentLetdown (time_letdown k cs e) k
unfolding time_letdown
time_letdown-settles k cs e =
    elim (Bool-cases (leb (held_for e.t e.letdown_since_by k) clearance_timeout_sec)) [
      | inl c ↦
          rw (c, time_letdown)
            λ who g. leb→le (held_for e.t e.letdown_since_by k) clearance_timeout_sec c
      | inr c ↦ rw (c, time_letdown) (give_on-Goes k cs e).1
    ]
