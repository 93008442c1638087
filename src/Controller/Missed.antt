-- ===== src/Controller/Missed.antt =====
-- A pilot goes around: `report_missed` of src/marshall/atc/controller.py.
use marshall.Prelude.{
  ◌+◌, Bool, String, ◌≡◌, refl, sym, ap, subst, ◌∙◌, true, false, some, ◌==◌, eq_iff, leb,
  Bool-cases, Option-cases, inl, inr,
}
use mathlib.Core.Option.{some-injective}
use marshall.Prelude.Dict
use marshall.Controller.{Aircraft, Engine, write, procedure_of, key, in_letdown, set_letdown}
use marshall.Controller.Sequence.{
  after_missed, do_missed, give_up, outer_level, tried_again, banished, gone_around,
}
use marshall.Controller.Runway.{free_runway}
use marshall.Controller.Letdown.{IsNamed, HasFields, write-Keeps}
use marshall.Controller.Clearing.{try_clear-Keeps}

-- Controller.report_missed, once `get` has found the aircraft, and whether it ends without an exception
unfoldable pub report_missed : Aircraft → Engine → Bool × Engine
report_missed ac e = after_missed (do_missed ac (free_runway (key e (some ac)) e))

module _ (ac : Aircraft) (k who : String) (other : (who == ac.callsign) ≡ false) where
  abbrev pub Held : Engine → Engine → Type 0
  Held b e = (e.profile ≡ b.profile) × HasFields e × (Dict.get e.letdown_by k ≡ some who)

  pub give_up-Held : (e : Engine) → Held e e → Held e (give_up ac e)
  unfolding give_up in_letdown set_letdown
  give_up-Held e h = elim (Option-cases (in_letdown e (some ac))) [
    | inl c ↦ rw (c, give_up) h
    | inr (w, c) ↦ elim (Bool-cases (w == ac.callsign)) [
      | inr g ↦ rw (c, g, give_up) h
      | inl g ↦ rw (c, g, give_up) (refl, h.1, kept w c g)
    ]
  ]
    where
      mine :
          (w : String)
          → Dict.get e.letdown_by (key e (some ac)) ≡ some w
          → (w == ac.callsign) ≡ true
          → key e (some ac) ≡ k
          → (who == ac.callsign) ≡ true
      mine w c g d =
          subst (λ x. (x == ac.callsign) ≡ true)
            (some-injective w who (sym c ∙ (ap (Dict.get e.letdown_by) d ∙ h.2))) g

      kept :
          (w : String)
          → Dict.get e.letdown_by (key e (some ac)) ≡ some w
          → (w == ac.callsign) ≡ true
          → Dict.get (Dict.remove e.letdown_by (key e (some ac))) k ≡ some who
      kept w c g = elim (Bool-cases (key e (some ac) == k)) [
        | inr d ↦ Dict.get-remove e.letdown_by (key e (some ac)) k ∙ rw d (h.2)
        | inl d ↦ absurd (cc (mine w c g ((eq_iff (key e (some ac)) k).0 d), other))
      ]

  pub write-Held :
      (a : Aircraft) (b e : Engine) → IsNamed e.profile a → Held b e → Held b (write a e)
  unfolding write
  write-Held a b e n h = let wrote = write-Keeps a e n h.1 in (h.0, wrote.1, wrote.2 k who h.2)

  do_missed-Held : (e : Engine) → IsNamed e.profile ac → Held e e → Held e (do_missed ac e).1
  unfolding do_missed procedure_of
  do_missed-Held e n h =
      let up = give_up-Held e h in
      let named : IsNamed (give_up ac e).profile ac = subst (λ b. IsNamed b ac) (sym up.0) n in
      elim (Bool-cases (leb 2 (1 + ac.approaches))) [
        | inl c ↦ elim (Option-cases (outer_level ac e)) [
          | inl o ↦ rw (c, o, do_missed) (write-Held (tried_again ac e.t) e (give_up ac e) named up)
          | inr (ft, o) ↦
              rw (c, o, do_missed) (write-Held (banished ac ft e) e (give_up ac e) named up)
        ]
        | inr c ↦ rw (c, do_missed) (write-Held (gone_around ac e) e (give_up ac e) named up)
      ]

-- Where every aircraft's aerodrome has a name, the reporter's included, a missed approach and the
-- clearances that it sets off take no letdown from anybody but the one who goes around.
report_missed-letdown :
    (ac : Aircraft) (e : Engine) (k who : String)
    → HasFields e
    → IsNamed e.profile ac
    → (who == ac.callsign) ≡ false
    → Dict.get e.letdown_by k ≡ some who
    → Dict.get (report_missed ac e).1.letdown_by k ≡ some who
unfolding report_missed free_runway after_missed
report_missed-letdown ac e k who h n other g =
    let freed = free_runway (key e (some ac)) e in
    let around = do_missed-Held ac k who other freed n (refl, h, g) in
    elim (Option-cases (do_missed ac freed).0) [
      | inl c ↦ rw (c, after_missed) around.2
      | inr (b, c) ↦
          rw (c, after_missed) ((try_clear-Keeps (do_missed ac freed).1 around.1).2 k who around.2)
    ]
