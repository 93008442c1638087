-- ===== src/Controller/Takeoff.antt =====
-- Nobody is cleared onto an occupied runway: `request_takeoff` of src/marshall/atc/controller.py.
use marshall.Prelude.{
  String, ◌≡◌, refl, sym, ap, ◌∙◌, false, not, ◌&&◌, Option, none, some, List, [], ◌∷◌, ◌++◌, ◌==◌,
  find_first, find_first-none, All, Bool-cases, Option-cases, inl, inr,
}
use marshall.Prelude.Dict
use marshall.Names
use marshall.Stations.{Station}
use marshall.Controller.{
  Aircraft, Decision, hold_short, cleared_takeoff, refuse, Engine, write, say, key, pro,
  procedure_of,
}
use marshall.Controller.Runway.{
  done_with_it, other_here, take_runway, free_runway, adopt_other, by_the_board,
  who_is_on_the_runway, owns, answer_takeoff, request_takeoff,
}

-- No other aircraft of the aerodrome has still to be done with the runway.
abbrev pub IsClear : Engine → Aircraft → Type 0
IsClear e ac =
    All (λ o. (other_here e ac o && not (done_with_it o)) ≡ false) (Dict.values e.aircraft)

-- The runway is recorded for somebody else, or for nobody.
abbrev pub IsAnothers : Engine → Aircraft → Type 0
IsAnothers e ac =
    (who : String) (holder : Aircraft)
    → Dict.get e.runway_by (key e (some ac)) ≡ some who
    → Dict.get e.aircraft who ≡ some holder
    → (holder.callsign == ac.callsign) ≡ false

adopt_other-IsClear : (ac : Aircraft) (e : Engine) → (adopt_other ac e).1 ≡ none → IsClear e ac
unfolding adopt_other
adopt_other-IsClear ac e h =
    elim (Option-cases
      (find_first (λ o. other_here e ac o && not (done_with_it o)) (Dict.values e.aircraft))) [
        | inl c ↦
            find_first-none (λ o. other_here e ac o && not (done_with_it o))
              (Dict.values e.aircraft) c
        | inr (other, c) ↦ absurd (cc (rw (c, adopt_other) at h))
      ]

freed-IsClear :
    (k : String) (ac : Aircraft) (e : Engine) → IsClear (free_runway k e) ac → IsClear e ac
unfolding free_runway other_here key pro
freed-IsClear k ac e h = h

by_the_board-IsClear :
    (ac : Aircraft) (e : Engine) → IsAnothers e ac → (by_the_board ac e).1 ≡ none → IsClear e ac
unfolding by_the_board
by_the_board-IsClear ac e other h = elim (Option-cases (Dict.get e.runway_by (key e (some ac)))) [
  | inl c ↦ adopt_other-IsClear ac e (rw (c, by_the_board) at h)
  | inr (who, c) ↦ elim (Option-cases (Dict.get e.aircraft who)) [
    | inl g ↦ freeing (rw (c, g, by_the_board) at h)
    | inr (holder, g) ↦ elim (Bool-cases (done_with_it holder)) [
      | inl d ↦ freeing (rw (c, g, d, by_the_board) at h)
      | inr d ↦ absurd (cc (rw (c, g, d, other who holder c g, by_the_board) at h))
    ]
  ]
]
  where
    freeing : (adopt_other ac (free_runway (key e (some ac)) e)).1 ≡ none → IsClear e ac
    freeing n =
        freed-IsClear (key e (some ac)) ac e
          (adopt_other-IsClear ac (free_runway (key e (some ac)) e) n)

-- Where nobody has looked at the strip, the answer that it is free is right by the board.
pub who_is_on_the_runway-IsClear :
    (ac : Aircraft) (e : Engine)
    → Dict.get e.seen_on_runway (Names.squash (key e (some ac))) ≡ none
    → IsAnothers e ac
    → (who_is_on_the_runway ac e).1 ≡ none
    → IsClear e ac
unfolding who_is_on_the_runway
who_is_on_the_runway-IsClear ac e blind other h =
    by_the_board-IsClear ac e other (rw (blind, who_is_on_the_runway) at h)

last_of : Decision → List Decision → Decision
last_of d [] = d
last_of d (x ∷ xs) = last_of x xs

last_of-append : (d : Decision) (xs : List Decision) (x : Decision) → last_of d (xs ++ x ∷ []) ≡ x
unfolding last_of
last_of-append d [] x = refl
last_of-append d (y ∷ xs) x = last_of-append y xs x

pub same-last : (xs : List Decision) (x y : Decision) → xs ++ x ∷ [] ≡ xs ++ y ∷ [] → x ≡ y
same-last xs x y h = sym (last_of-append x xs x) ∙ (ap (last_of x) h ∙ last_of-append x xs y)

-- The board once the caller is on it.
abbrev pub heard : Aircraft → Engine → Engine
heard ac e = write (record ac { last_report_t = e.t }) e

by_the_board-decided : (ac : Aircraft) (e : Engine) → (by_the_board ac e).0.decided ≡ e.decided
unfolding by_the_board adopt_other free_runway take_runway other_here key pro
by_the_board-decided ac e = elim (Option-cases (Dict.get e.runway_by (key e (some ac)))) [
  | inl c ↦ rw (c, by_the_board) (adopting e)
  | inr (who, c) ↦ elim (Option-cases (Dict.get e.aircraft who)) [
    | inl g ↦ rw (c, g, by_the_board) (adopting (free_runway (key e (some ac)) e))
    | inr (holder, g) ↦ elim (Bool-cases (done_with_it holder)) [
      | inl d ↦ rw (c, g, d, by_the_board) (adopting (free_runway (key e (some ac)) e))
      | inr d ↦ elim (Bool-cases (holder.callsign == ac.callsign)) [
        | inl s ↦ rw (c, g, d, s, by_the_board) refl
        | inr s ↦ rw (c, g, d, s, by_the_board) refl
      ]
    ]
  ]
]
  where
    adopting : (b : Engine) → (adopt_other ac b).0.decided ≡ b.decided
    adopting b =
        elim (Option-cases
          (find_first (λ o. other_here b ac o && not (done_with_it o)) (Dict.values b.aircraft))) [
            | inl c ↦ rw (c, adopt_other) refl
            | inr (other, c) ↦ rw (c, adopt_other) refl
          ]

-- Where nobody has looked at the strip and it is not recorded as his already, whoever is cleared for
-- take-off has it to himself: every other aircraft of his aerodrome on the board is done with it.
pub takeoff-IsClear :
    (me : Option Station) (ac : Aircraft) (e : Engine)
    → Dict.get e.seen_on_runway (Names.squash (key e (some ac))) ≡ none
    → IsAnothers (heard ac e) (record ac { last_report_t = e.t })
    → (request_takeoff me ac e).decided ≡ e.decided ++ cleared_takeoff ac.callsign ∷ []
    → IsClear (heard ac e) (record ac { last_report_t = e.t })
unfolding request_takeoff write key pro procedure_of who_is_on_the_runway answer_takeoff say
takeoff-IsClear me ac e blind other h = elim (Bool-cases (owns me "tower")) [
  | inr c ↦ absurd (
      cc (
        same-last e.decided (refuse ac.callsign "tower") (cleared_takeoff ac.callsign)
          (rw (c, request_takeoff) at h)))
  | inl c ↦ elim (Option-cases asked.1) [
    | inl g ↦ who_is_on_the_runway-IsClear here e' blind other g
    | inr (who, g) ↦ absurd (occupied who g (rw (c, request_takeoff) at h))
  ]
]
  where
    here : Aircraft
    here = record ac { last_report_t = e.t }

    e' : Engine
    e' = heard ac e

    asked : Engine × Option String
    asked = who_is_on_the_runway here e'

    same_log : asked.0.decided ≡ e.decided
    same_log = rw (blind, who_is_on_the_runway) (by_the_board-decided here e')

    occupied :
        (who : String)
        → asked.1 ≡ some who
        → (answer_takeoff here asked).decided ≡ e.decided ++ cleared_takeoff ac.callsign ∷ []
        → ⊥
    occupied who g k = go asked g same_log k
      where
        go :
            (r : Engine × Option String)
            → r.1 ≡ some who
            → r.0.decided ≡ e.decided
            → (answer_takeoff here r).decided ≡ e.decided ++ cleared_takeoff ac.callsign ∷ []
            → ⊥
        go (b, none) g l k = cc
        go (b, some w) g l k = cc (
            same-last e.decided (hold_short ac.callsign) (cleared_takeoff ac.callsign)
              (ap (λ d. d ++ hold_short ac.callsign ∷ []) (sym l) ∙ k))
