-- ===== src/Controller/Cleared.antt =====
-- Nobody is cleared to land on an occupied runway: `report_landed` of src/marshall/atc/controller.py.
use marshall.Prelude.{
  String, ◌≡◌, refl, sym, ap, ◌∙◌, Option, none, some, ◌==◌, Bool-cases, Option-cases, inl, inr,
}
use marshall.Prelude.Dict
use marshall.Prelude.Dict.{Dict}
use marshall.Names
use marshall.Stations.{Station}
use marshall.Controller.{
  Aircraft, is_landed, continue_approach, Engine, write, say, anomaly, key, pro, procedure_of,
  set_letdown, in_letdown,
}
use marshall.Controller.Sequence.{give_up}
use marshall.Controller.Runway.{by_the_board, who_is_on_the_runway}
use marshall.Controller.Takeoff.{IsClear, IsAnothers, who_is_on_the_runway-IsClear}
use marshall.Controller.Passing.{try_clear-Goes}
use marshall.Controller.Landing.{
  must_be_told, ground_at, down, down_on_board, report_down, answer_landing, never_flew,
  works_elsewhere, report_landed, seat_field,
}
use marshall.Controller.Strip.{IsHis, by_the_board-IsHis}

-- A call that gives no runway leaves them as they are recorded.
give_up-runway : (ac : Aircraft) (e : Engine) → (give_up ac e).runway_by ≡ e.runway_by
unfolding give_up set_letdown
give_up-runway ac e = elim (Option-cases (in_letdown e (some ac))) [
  | inl c ↦ rw (c, give_up) refl
  | inr (who, c) ↦ elim (Bool-cases (who == ac.callsign)) [
    | inl g ↦ rw (c, g, give_up) refl
    | inr g ↦ rw (c, g, give_up) refl
  ]
]

down_on_board-runway : (ac : Aircraft) (e : Engine) → (down_on_board ac e).runway_by ≡ e.runway_by
unfolding write
down_on_board-runway ac e = give_up-runway (down ac e) (write (down ac e) e)

report_down-runway :
    (me found : Option Station) (ac : Aircraft) (e : Engine)
    → (report_down me found ac e).runway_by ≡ e.runway_by
unfolding report_down write say
report_down-runway me found ac e =
    elim (Bool-cases (must_be_told (down ac e) me (ground_at (seat_field me) found))) [
      | inl c ↦ rw (c, report_down) ((try_clear-Goes none none _).1 ∙ down_on_board-runway ac e)
      | inr c ↦ rw (c, report_down) ((try_clear-Goes none none _).1 ∙ down_on_board-runway ac e)
    ]

give_up-profile : (ac : Aircraft) (e : Engine) → (give_up ac e).profile ≡ e.profile
unfolding give_up set_letdown
give_up-profile ac e = elim (Option-cases (in_letdown e (some ac))) [
  | inl c ↦ rw (c, give_up) refl
  | inr (who, c) ↦ elim (Bool-cases (who == ac.callsign)) [
    | inl g ↦ rw (c, g, give_up) refl
    | inr g ↦ rw (c, g, give_up) refl
  ]
]

down_on_board-key :
    (ac : Aircraft) (e : Engine) → key (down_on_board ac e) (some (down ac e)) ≡ key e (some ac)
unfolding key pro procedure_of write
down_on_board-key ac e =
    ap (λ p. elim (procedure_of ac p) [ none ↦ "" | some q ↦ q.aerodrome ])
      (give_up-profile (down ac e) (write (down ac e) e))

-- Where nobody has looked at the strip, and it is not recorded as the caller's already: if after his
-- landing call the runway is his, so that he was cleared to land, then every other aircraft of his
-- aerodrome on the board was done with it.
pub report_landed-IsClear :
    (working : String) (me twr found : Option Station) (ac : Aircraft) (e : Engine)
    → Dict.get (down_on_board ac e).seen_on_runway (Names.squash (key e (some ac))) ≡ none
    → IsAnothers (down_on_board ac e) (down ac e)
    → ¬ IsHis e ac
    → Dict.get (report_landed working me twr found ac e).runway_by (key e (some ac))
      ≡ some ac.callsign
    → IsClear (down_on_board ac e) (down ac e)
unfolding report_landed answer_landing who_is_on_the_runway anomaly say
report_landed-IsClear working me twr found ac e blind other not_his h =
    elim (Bool-cases (is_landed ac.phase)) [
      | inl c ↦ absurd (unmoved _ (report_down-runway me found ac e) (rw (c, report_landed) at h))
      | inr c ↦ elim (Bool-cases (never_flew ac)) [
        | inl d ↦ absurd (unmoved _ refl (rw (c, d, report_landed) at h))
        | inr d ↦ elim (Bool-cases (works_elsewhere working twr)) [
          | inl f ↦ absurd (
              unmoved _ ((try_clear-Goes none none b).1 ∙ down_on_board-runway ac e)
                (rw (c, d, f, report_landed) at h))
          | inr f ↦ elim (Option-cases (by_the_board here b).1) [
            | inl g ↦
                who_is_on_the_runway-IsClear here b blind' other
                  (rw (blind', who_is_on_the_runway) g)
            | inr (who, g) ↦ absurd (
                by_the_board-IsHis here b who still g (
                  answered (by_the_board here b) who g
                    (rw (c, d, f, blind', who_is_on_the_runway, report_landed) at h)))
          ]
        ]
      ]
    ]
  where
    here : Aircraft
    here = down ac e

    b : Engine
    b = down_on_board ac e

    blind' : Dict.get b.seen_on_runway (Names.squash (key b (some here))) ≡ none
    blind' = rw (down_on_board-key ac e) blind

    unmoved :
        (d : Dict String) → d ≡ e.runway_by → Dict.get d (key e (some ac)) ≡ some ac.callsign → ⊥
    unmoved d r g = not_his (ap (λ x. Dict.get x (key e (some ac))) (sym r) ∙ g)

    still : ¬ IsHis b here
    still g = not_his (
        ap (λ x. Dict.get x (key e (some ac))) (sym (down_on_board-runway ac e))
        ∙ (ap (Dict.get b.runway_by) (sym (down_on_board-key ac e)) ∙ g))

    answered :
        (r : Engine × Option String) (who : String)
        → r.1 ≡ some who
        → Dict.get (answer_landing here r).runway_by (key e (some ac)) ≡ some ac.callsign
        → Dict.get r.0.runway_by (key b (some here)) ≡ some ac.callsign
    answered (r, none) who g k = cc
    answered (r, some w) who g k =
        let told = say (continue_approach ac.callsign) r in
        rw (down_on_board-key ac e)
          (ap (λ x. Dict.get x (key e (some ac))) (sym (try_clear-Goes none none told).1) ∙ k)
