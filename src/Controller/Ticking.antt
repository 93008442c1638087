-- ===== src/Controller/Ticking.antt =====
-- Nobody keeps a runway or a letdown by saying nothing: `tick` of src/marshall/atc/controller.py.
mod Tests
use marshall.Prelude.{
  ℕ, ◌+◌, ◌≤◌, ◌⊎◌, String, ◌≡◌, refl, ap, ◌∙◌, Bool, true, false, none, some, List, [], ◌∷◌, ◌==◌,
  leb, leb→le, eq_refl, Bool-cases, Option-cases, inl, inr, keep,
}
use marshall.Prelude.Dict
use marshall.Prelude.Dict.{Dict}
use marshall.Approach.{last_of}
use marshall.Controller.{
  Approach, Aircraft, Engine, write, pro, procedure_of, key, in_letdown, set_letdown,
}
use marshall.Controller.Sequence.{
  try_clear, give_up, outer_level, tried_again, banished, gone_around, do_missed, after_missed,
}
use marshall.Controller.Clock.{
  clearance_timeout_sec, station_passage, pass, pass_each, for_items, time_runway, time_letdown,
  is_overdue, quietest, prompt, time_limits, tick,
}
use marshall.Controller.Passing.{
  HasRecentLetdown, HasRecentRunway, Goes, Goes-same, Goes-next, write-Goes, drop-IsRecent,
  try_clear-Goes,
}
use marshall.Controller.Rounds.{
  for_items-settles, for_items-keeps, Goes-runway, time_runway-settles, time_runway-keeps,
  time_runway-t, time_letdown-Goes, time_letdown-settles,
}

give_up-Goes : (ac : Aircraft) (e : Engine) → Goes e (give_up ac e)
unfolding give_up set_letdown
give_up-Goes ac e = elim (Option-cases (in_letdown e (some ac))) [
  | inl c ↦ rw (c, give_up) (Goes-same e)
  | inr (who, c) ↦ elim (Bool-cases (who == ac.callsign)) [
    | inl g ↦
        rw (c, g, give_up)
          (
            refl,
            refl,
            refl,
            λ k h.
                drop-IsRecent clearance_timeout_sec e.t e.letdown_by e.letdown_since_by
                  (key e (some ac)) k h,
          )
    | inr g ↦ rw (c, g, give_up) (Goes-same e)
  ]
]

do_missed-Goes : (ac : Aircraft) (e : Engine) → Goes e (do_missed ac e).1
unfolding do_missed
do_missed-Goes ac e = elim (Bool-cases (leb 2 (1 + ac.approaches))) [
  | inr c ↦ rw (c, do_missed) (wrote (gone_around ac e))
  | inl c ↦ elim (Option-cases (outer_level ac e)) [
    | inl o ↦ rw (c, o, do_missed) (wrote (tried_again ac e.t))
    | inr (ft, o) ↦ rw (c, o, do_missed) (wrote (banished ac ft e))
  ]
]
  where
    wrote : (his : Aircraft) → Goes e (write his (give_up ac e))
    wrote his =
        Goes-next e (give_up ac e) (write his (give_up ac e)) (give_up-Goes ac e)
          (write-Goes his (give_up ac e))

-- He has missed twice, and his procedure has no level to hold at.
abbrev pub IsStranded : Engine → Aircraft → Type 0
IsStranded e ac =
    (2 ≤ ac.approaches)
    × ((p : Approach) × (pro e (some ac) ≡ some p) × (p.stack_ft ≡ []))
    × (Dict.get e.aircraft ac.callsign ≡ some ac)

last_of-nil : (fts : List ℕ) → last_of fts ≡ none → fts ≡ []
unfolding last_of
last_of-nil [] h = refl
last_of-nil (ft ∷ []) h = absurd (cc)
last_of-nil (ft ∷ next ∷ fts) h = absurd (cc (last_of-nil (next ∷ fts) h))

-- An aircraft whose outer level cannot be read has a procedure with an empty stack.
outer_level-none :
    (ac : Aircraft) (e : Engine)
    → outer_level ac e ≡ none
    → (p : Approach) × (pro e (some ac) ≡ some p) × (p.stack_ft ≡ [])
unfolding outer_level
outer_level-none ac e h = elim (Option-cases (pro e (some ac))) [
  | inl c ↦ absurd (cc (rw (c, outer_level) at h))
  | inr (p, c) ↦ elim (Option-cases (last_of p.stack_ft)) [
    | inl g ↦ (p, c, last_of-nil p.stack_ft g)
    | inr (ft, g) ↦ absurd (cc (rw (c, g, outer_level) at h))
  ]
]

give_up-profile : (ac : Aircraft) (e : Engine) → (give_up ac e).profile ≡ e.profile
unfolding give_up set_letdown
give_up-profile ac e = elim (Option-cases (in_letdown e (some ac))) [
  | inl c ↦ rw (c, give_up) refl
  | inr (who, c) ↦ elim (Bool-cases (who == ac.callsign)) [
    | inl g ↦ rw (c, g, give_up) refl
    | inr g ↦ rw (c, g, give_up) refl
  ]
]

do_missed-raises :
    (ac : Aircraft) (e : Engine)
    → (do_missed ac e).0 ≡ none
    → IsStranded (do_missed ac e).1 (tried_again ac e.t)
unfolding do_missed write pro procedure_of
do_missed-raises ac e h = elim (Bool-cases (leb 2 (1 + ac.approaches))) [
  | inr c ↦ absurd (cc (rw (c, do_missed) at h))
  | inl c ↦ elim (Option-cases (outer_level ac e)) [
    | inr (ft, o) ↦ absurd (cc (rw (c, o, do_missed) at h))
    | inl o ↦
        let (p, his, empty) = outer_level-none ac e o in
        rw (c, o, do_missed)
          (
            leb→le 2 (1 + ac.approaches) c,
            (p, ap (procedure_of ac) (give_up-profile ac e) ∙ his, empty),
            Dict.get-put (give_up ac e).aircraft ac.callsign ac.callsign (tried_again ac e.t)
                ∙ rw (eq_refl ac.callsign) refl,
          )
  ]
]

-- A round that ends goes on; one that raises leaves somebody stranded.
abbrev Passes : Engine → Bool × Engine → Type 0
Passes e (done, e') = Goes e e' × (done ≡ false → (ac : Aircraft) × IsStranded e' ac)

station_passage-Passes : (ac : Aircraft) (e : Engine) → Passes e (station_passage ac e)
unfolding station_passage after_missed
station_passage-Passes ac e = elim (Option-cases (do_missed ac e).0) [
  | inl c ↦
      rw (c, after_missed) (do_missed-Goes ac e, λ h. (tried_again ac e.t, do_missed-raises ac e c))
  | inr (b, c) ↦
      let missed = (do_missed ac e).1 in
      rw (c, after_missed)
        (
          Goes-next e missed (try_clear none none missed) (do_missed-Goes ac e)
              (try_clear-Goes none none missed),
          λ h. absurd (cc),
        )
]

pass-Passes : (cs : String) (e : Engine) → Passes e (pass cs e)
unfolding pass
pass-Passes cs e = elim (Option-cases (Dict.get e.aircraft cs)) [
  | inl c ↦ rw (c, pass) (Goes-same e, λ h. absurd (cc))
  | inr (ac, c) ↦ elim (Option-cases ac.map_t) [
    | inl g ↦ rw (c, g, pass) (Goes-same e, λ h. absurd (cc))
    | inr (due, g) ↦ elim (Bool-cases (leb due e.t)) [
      | inr d ↦ rw (c, g, d, pass) (Goes-same e, λ h. absurd (cc))
      | inl d ↦ rw (c, g, d, pass) (station_passage-Passes ac e)
    ]
  ]
]

pass_each-Passes : (css : List String) (e : Engine) → Passes e (pass_each css e)
unfolding pass_each
pass_each-Passes [] e = (Goes-same e, λ h. absurd (cc))
pass_each-Passes (cs ∷ css) e =
    let one = pass-Passes cs e in
    elim (Bool-cases (pass cs e).0) [
      | inr c ↦ rw (c, pass_each) (one.0, λ h. one.1 c)
      | inl c ↦
          let more = pass_each-Passes css (pass cs e).1 in
          rw (c, pass_each)
            (Goes-next e (pass cs e).1 (pass_each css (pass cs e).1).1 one.0 more.0, more.1)
    ]

prompt-Goes : (e : Engine) → Goes e (prompt e)
unfolding prompt
prompt-Goes e =
    elim (Option-cases (quietest e.t (keep (is_overdue e.t) (Dict.values e.aircraft)))) [
      | inl c ↦ rw (c, prompt) (Goes-same e)
      | inr (ac, c) ↦ rw (c, prompt) (write-Goes (record ac { last_report_t = e.t }) e)
    ]

-- The time limits once the missed approaches are called.
time_limits-IsRecent :
    (e1 : Engine)
    → ((k : String) → HasRecentLetdown (time_limits e1) k)
      × ((k : String) → HasRecentRunway (time_limits e1) k)
      × ((time_limits e1).t ≡ e1.t)
unfolding time_limits
time_limits-IsRecent e1 = (
  λ k. prompting.3 k (letdowns k),
  λ k. Goes-runway e2 (prompt e3) k late (runways k),
  late.0 ∙ e2_t,
)
  where
    e2 : Engine
    e2 = for_items time_runway e1.runway_by e1

    e3 : Engine
    e3 = for_items time_letdown e2.letdown_by e2

    e2_t : e2.t ≡ e1.t
    e2_t =
        for_items-keeps (λ b. b.t ≡ e1.t) time_runway (λ k cs b q. time_runway-t k cs b ∙ q)
          e1.runway_by e1 refl

    runways : (k : String) → HasRecentRunway e2 k
    runways =
        for_items-settles HasRecentRunway time_runway time_runway-settles time_runway-keeps
          e1.runway_by e1 (λ k out who g. absurd (cc))

    letdowns : (k : String) → HasRecentLetdown e3 k
    letdowns =
        for_items-settles HasRecentLetdown time_letdown time_letdown-settles
          (λ k cs j b h. (time_letdown-Goes k cs b).3 j h) e2.letdown_by e2
          (λ k out who g. absurd (cc))

    on : Goes e2 e3
    on =
        for_items-keeps (Goes e2) time_letdown
          (λ k cs b q. Goes-next e2 b (time_letdown k cs b) q (time_letdown-Goes k cs b))
          e2.letdown_by e2 (Goes-same e2)

    prompting : Goes e3 (prompt e3)
    prompting = prompt-Goes e3

    late : Goes e2 (prompt e3)
    late = Goes-next e2 e3 (prompt e3) on prompting

-- Where every procedure has an outer hold, as its type says: a tick of any length, on any board, puts the
-- clock on by its length, and ends in one of two ways. It returns, and then nobody is recorded as having a letdown for longer than twelve minutes nor a runway for
-- longer than five; or it raises, and then the board has an aircraft that has missed at least twice and
-- whose procedure has no level in its stack.
pub tick-IsRecent :
    (seconds : ℕ) (e : Engine)
    → let (done, e') = tick seconds e in
      (e'.t ≡ e.t + seconds)
      × (((done ≡ true)
            × ((k : String) → HasRecentLetdown e' k)
            × ((k : String) → HasRecentRunway e' k))
          ⊎ ((done ≡ false) × ((ac : Aircraft) × IsStranded e' ac)))
unfolding tick
tick-IsRecent seconds e = elim (Bool-cases (pass_each (Dict.values e0.letdown_by) e0).0) [
  | inr c ↦ rw (c, tick) (passed.0.0, inr (refl, passed.1 c))
  | inl c ↦
      let (letdowns, runways, same) = time_limits-IsRecent e1 in
      rw (c, tick) (same ∙ passed.0.0, inl (refl, letdowns, runways))
]
  where
    e0 : Engine
    e0 = record e { t = e.t + seconds }

    e1 : Engine
    e1 = (pass_each (Dict.values e0.letdown_by) e0).1

    passed : Passes e0 (pass_each (Dict.values e0.letdown_by) e0)
    passed = pass_each-Passes (Dict.values e0.letdown_by) e0
