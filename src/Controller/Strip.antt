-- ===== src/Controller/Strip.antt =====
-- `who_is_on_the_runway` of src/marshall/atc/controller.py makes no runway over to the one who asks.
use marshall.Prelude.{
  String, ◌≡◌, ◌≢◌, refl, ◌∙◌, true, false, not, ◌&&◌, some, ◌==◌, find_first, find_first-test,
  eq_iff, eq_refl, arith, Bool-cases, Option-cases, inl, inr,
}
use mathlib.Core.Option.{some-injective}
use marshall.Prelude.Dict
use marshall.Prelude.Dict.{Dict}
use marshall.Controller.{Aircraft, Engine, key, pro, procedure_of}
use marshall.Controller.Runway.{
  done_with_it, other_here, take_runway, free_runway, adopt_other, by_the_board,
}

-- The runway of his aerodrome is recorded as his.
abbrev pub IsHis : Engine → Aircraft → Type 0
IsHis e ac = Dict.get e.runway_by (key e (some ac)) ≡ some ac.callsign

other-key :
    (e : Engine) (ac o : Aircraft)
    → other_here e ac o ≡ true
    → (key e (some o) == key e (some ac)) ≡ true
unfolding other_here
other-key e ac o h = ground arith

other-callsign :
    (e : Engine) (ac o : Aircraft) → other_here e ac o ≡ true → (o.callsign == ac.callsign) ≡ false
unfolding other_here
other-callsign e ac o h = ground arith

-- Whoever is found on the runway, it is not made over to the caller.
adopt_other-IsHis :
    (k : String) (ac : Aircraft) (e : Engine) (who : String)
    → key e (some ac) ≡ k
    → (adopt_other ac e).1 ≡ some who
    → Dict.get (adopt_other ac e).0.runway_by k ≢ some ac.callsign
unfolding adopt_other take_runway
adopt_other-IsHis k ac e who c h g =
    elim (Option-cases
      (find_first (λ o. other_here e ac o && not (done_with_it o)) (Dict.values e.aircraft))) [
        | inl n ↦ absurd (cc (rw (n, adopt_other) at h))
        | inr (o, n) ↦ his o n (rw (n, adopt_other) at g)
      ]
  where
    his :
        (o : Aircraft)
        → find_first (λ o. other_here e ac o && not (done_with_it o)) (Dict.values e.aircraft)
          ≡ some o
        → Dict.get (Dict.put e.runway_by (key e (some o)) o.callsign) k ≡ some ac.callsign
        → ⊥
    his o n g =
        let t =
          find_first-test (λ o. other_here e ac o && not (done_with_it o)) (Dict.values e.aircraft)
            o n in
        let here : other_here e ac o ≡ true = ground arith in
        let same = (eq_iff (key e (some o)) (key e (some ac))).0 (other-key e ac o here) ∙ c in
        let him =
          some-injective o.callsign ac.callsign
            (rw (Dict.get-put e.runway_by (key e (some o)) k o.callsign, same, eq_refl k) at g) in
        cc (other-callsign e ac o here, (eq_iff o.callsign ac.callsign).1 him)

freed-IsHis :
    (k : String) (ac : Aircraft) (e : Engine) (who : String)
    → key e (some ac) ≡ k
    → (adopt_other ac (free_runway k e)).1 ≡ some who
    → Dict.get (adopt_other ac (free_runway k e)).0.runway_by k ≢ some ac.callsign
unfolding free_runway key pro procedure_of
freed-IsHis k ac e who c = adopt_other-IsHis k ac (free_runway k e) who c

pub by_the_board-IsHis :
    (ac : Aircraft) (e : Engine) (who : String)
    → ¬ IsHis e ac
    → (by_the_board ac e).1 ≡ some who
    → Dict.get (by_the_board ac e).0.runway_by (key e (some ac)) ≢ some ac.callsign
unfolding by_the_board
by_the_board-IsHis ac e who not_his h =
    elim (Option-cases (Dict.get e.runway_by (key e (some ac)))) [
      | inl c ↦ λ g.
          adopt_other-IsHis (key e (some ac)) ac e who refl (rw (c, by_the_board) at h)
            (rw (c, by_the_board) at g)
      | inr (w, c) ↦ elim (Option-cases (Dict.get e.aircraft w)) [
        | inl d ↦ λ g.
            freed-IsHis (key e (some ac)) ac e who refl (rw (c, d, by_the_board) at h)
              (rw (c, d, by_the_board) at g)
        | inr (holder, d) ↦ elim (Bool-cases (done_with_it holder)) [
          | inl f ↦ λ g.
              freed-IsHis (key e (some ac)) ac e who refl (rw (c, d, f, by_the_board) at h)
                (rw (c, d, f, by_the_board) at g)
          | inr f ↦ elim (Bool-cases (holder.callsign == ac.callsign)) [
            | inl s ↦ λ g. cc (rw (c, d, f, s, by_the_board) at h)
            | inr s ↦ λ g. not_his (rw (c, d, f, s, by_the_board) at g)
          ]
        ]
      ]
    ]
