-- ===== src/Phases/Ladder.antt =====
-- The ladder of phases, as a graph, and runs of `derive` along it.
use marshall.Prelude.{
  String, ◌≡◌, Bool, true, not, ◌&&◌, ◌||◌, some, List, [], ◌∷◌, inl, inr, refl, ap, ◌==◌, is_in,
  lower, arith, eq_iff, Bool-cases, All,
}
use marshall.Phases.{Phase, phases, get, may_follow, Facts, derive}
use marshall.Phases.Table.{get-All, may_follow-all, get-name, may_follow-source}
use marshall.Phases.Deriving.{Fresh, derive-legal}

-- A way along the edges of the table.
infix 40 ◌⟶*◌
pub data ◌⟶*◌ : String → String → Type 0 where
  here : {p : String} → p ⟶* p
  edge : {p q r : String} → may_follow p q ≡ true → q ⟶* r → p ⟶* r

taxi_home : "landed" ⟶* "taxi_in"
unfolding may_follow get lower
taxi_home = edge {q = "taxi_in"} refl here

-- Where `landed` may follow, the way home is short.
lands : {p : String} → may_follow p "landed" ≡ true → p ⟶* "taxi_in"
lands h = edge h taxi_home

taxi_out : "taxi" ⟶* "taxi_in"
unfolding may_follow get lower
taxi_out = edge {q = "holding_short"} refl (edge {q = "departure"} refl (lands refl))

abbrev Ends : Phase → Type 0
Ends r = r.name ⟶* "taxi_in"

All-Ends : All Ends phases
unfolding may_follow get lower
All-Ends = assumption (
  edge {p = "unknown"} {q = "taxi"} refl taxi_out,
  edge {p = "filed"} {q = "taxi"} refl taxi_out,
  edge {p = "clearance"} {q = "taxi"} refl taxi_out,
  taxi_out,
  edge {p = "holding_short"} {q = "departure"} refl (lands refl),
  lands {p = "departure"} refl,
  lands {p = "enroute"} refl,
  lands {p = "tasked"} refl,
  lands {p = "on_station"} refl,
  lands {p = "rtb"} refl,
  lands {p = "arrival"} refl,
  lands {p = "holding"} refl,
  lands {p = "approach"} refl,
  lands {p = "missed"} refl,
  taxi_home,
  here {p = "taxi_in"},
  tt,
)

-- No phase of the table is a dead end: from each there is a way to `taxi_in`, the end of the ladder.
⟶*-taxi_in : (n : String) {r : Phase} → get n ≡ some r → r.name ⟶* "taxi_in"
⟶*-taxi_in n {r} found = get-All Ends n r All-Ends found

abbrev pub down : List String
down = "landed" ∷ "taxi_in" ∷ []

abbrev keeps_down : Phase → String → Bool
keeps_down r f = not (is_in r.name down) || is_in f down

down-edge :
    (p q : String)
    → is_in (lower p) down ≡ true
    → may_follow p q ≡ true
    → is_in (lower q) down ≡ true
down-edge p q d h =
    let (r, found) = may_follow-source p q h in
    ground (
      arith,
      may_follow-all keeps_down p q r (unfold get lower in refl) found h,
      ap (λ (w : String). is_in w down) (get-name p r found),
    )

-- There is no way back into the air: what follows `landed` or `taxi_in`, through any number of
-- edges, is one of these two.
⟶*-down : {p q : String} → is_in (lower p) down ≡ true → p ⟶* q → is_in (lower q) down ≡ true
⟶*-down d here = d
⟶*-down d (edge {p} {q} h way) = ⟶*-down (down-edge p q d h) way

-- What a caller that asks `derive` at each observation holds afterwards.
abbrev pub run : String → List Facts → String
run p [] = p
run p (f ∷ fs) = run (derive p f).phase fs

abbrev tracked : String → Bool
tracked p = not (p == "") && not (p == "unknown")

tracked-lower : (q : String) → tracked (lower q) ≡ true → tracked q ≡ true
unfolding lower
tracked-lower q h = elim (Bool-cases (q == "")) [
  | inl e ↦ absurd (cc (rw ((eq_iff q "").0 e) at h))
  | inr e ↦ elim (Bool-cases (q == "unknown")) [
    | inl e' ↦ absurd (cc (rw ((eq_iff q "unknown").0 e') at h))
    | inr e' ↦ rw (e, e')
  ]
]

tracked_edge : (p q : String) → may_follow p q ≡ true → tracked q ≡ true
tracked_edge p q h =
    let (r, found) = may_follow-source p q h in
    tracked-lower q (may_follow-all (λ _ f. tracked f) p q r (unfold get lower in refl) found h)

tracked-not-Fresh : (p : String) → tracked p ≡ true → ¬ Fresh p
tracked-not-Fresh p t fresh = ground (arith, eq_iff p "", eq_iff p "unknown")

-- However many observations come in, an aircraft that has a phase is moved only along edges of the
-- table: what `derive` leaves it with can be reached from where it was.
pub run-⟶* : (p : String) (fs : List Facts) → tracked p ≡ true → p ⟶* run p fs
run-⟶* p [] t = here
run-⟶* p (f ∷ fs) t = elim (derive-legal p f) [
  | inl same ↦ rw same (run-⟶* p fs t)
  | inr (inl fresh) ↦ absurd (tracked-not-Fresh p t fresh)
  | inr (inr h) ↦ edge h (run-⟶* (derive p f).phase fs (tracked_edge p _ h))
]
