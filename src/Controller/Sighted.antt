-- ===== src/Controller/Sighted.antt =====
-- Where radar has looked at the strip: `request_takeoff` of src/marshall/atc/controller.py.
use marshall.Prelude.{
  String, ◌≡◌, false, ◌&&◌, Option, none, some, List, [], ◌∷◌, ◌++◌, find_first, find_first-none,
  All, Bool-cases, Option-cases, inl, inr,
}
use marshall.Prelude.Dict
use marshall.Names
use marshall.Stations.{Station}
use marshall.Controller.{
  Aircraft, hold_short, cleared_takeoff, refuse, Engine, write, say, key, pro, procedure_of,
}
use marshall.Controller.Runway.{
  other_here, is_seen, seen_holder, adopt_seen, who_is_on_the_runway, owns, answer_takeoff,
  request_takeoff,
}
use marshall.Controller.Takeoff.{same-last, heard}

-- None of the labels that radar has on the strip is another aircraft of the aerodrome.
abbrev pub IsEmptyStrip : Engine → Aircraft → List String → Type 0
IsEmptyStrip e ac =
    All
      (λ label. All (λ o. (other_here e ac o && is_seen label o) ≡ false) (Dict.values e.aircraft))

seen_holder-IsEmptyStrip :
    (e : Engine) (ac : Aircraft) (labels : List String)
    → seen_holder e ac labels ≡ none
    → IsEmptyStrip e ac labels
unfolding seen_holder
seen_holder-IsEmptyStrip e ac [] h = tt
seen_holder-IsEmptyStrip e ac (label ∷ labels) h =
    elim (Option-cases
      (find_first (λ o. other_here e ac o && is_seen label o) (Dict.values e.aircraft))) [
        | inl c ↦ (
          find_first-none (λ o. other_here e ac o && is_seen label o) (Dict.values e.aircraft) c,
          seen_holder-IsEmptyStrip e ac labels (rw (c, seen_holder) at h),
        )
        | inr (o, c) ↦ absurd (cc (rw (c, seen_holder) at h))
      ]

-- Where radar has looked at the strip, whoever is cleared for take-off has it to himself: nobody that is
-- seen on it is another aircraft of his aerodrome.
pub takeoff-IsEmptyStrip :
    (me : Option Station) (ac : Aircraft) (e : Engine) (labels : List String)
    → Dict.get e.seen_on_runway (Names.squash (key e (some ac))) ≡ some labels
    → (request_takeoff me ac e).decided ≡ e.decided ++ cleared_takeoff ac.callsign ∷ []
    → IsEmptyStrip (heard ac e) (record ac { last_report_t = e.t }) labels
unfolding request_takeoff write key pro procedure_of who_is_on_the_runway answer_takeoff say
    adopt_seen
takeoff-IsEmptyStrip me ac e labels looked h = elim (Bool-cases (owns me "tower")) [
  | inr c ↦ absurd (
      cc (
        same-last e.decided (refuse ac.callsign "tower") (cleared_takeoff ac.callsign)
          (rw (c, request_takeoff) at h)))
  | inl c ↦ elim (Option-cases (seen_holder (heard ac e) here labels)) [
    | inl g ↦ seen_holder-IsEmptyStrip (heard ac e) here labels g
    | inr (there, g) ↦ absurd (
        cc (
          same-last e.decided (hold_short ac.callsign) (cleared_takeoff ac.callsign)
            (rw (looked, g, who_is_on_the_runway) at (rw (c, request_takeoff) at h))))
  ]
]
  where
    here : Aircraft
    here = record ac { last_report_t = e.t }
