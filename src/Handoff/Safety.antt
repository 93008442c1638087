-- ===== src/Handoff/Safety.antt =====
-- What the handoff of src/marshall/atc/handoff.py never does, and what it always does.
use marshall.Prelude.{
  ℕ, String, ◌≡◌, ◌≢◌, refl, sym, ap, subst, ◌∙◌, Bool, true, false, not, ◌&&◌, Option, none, some,
  List, [], ◌∷◌, ◌==◌, is_in, Memᴰ, all, arith, Bool-cases, Option-cases, inl, inr, ◌⊎◌,
  if◌then◌else◌,
}
use marshall.Phases
use marshall.Stations.{Station, role_at}
use marshall.Stations.Best.{Works, role_at-Works}
use marshall.Airspace.{Fix, Procedure}
use marshall.Handoff.{
  Rule, rules, State, Profile, Verdict, hand_to, keep, same_name, answers, airborne, ground_seats,
  aims, at, fires, seat_for, by_rules, phase_owner, by_phase, due,
}

not-true : (b : Bool) → not b ≡ true → b ≡ false
not-true b h = ground arith

abbrev in_the_air : String → Bool
in_the_air r = not (is_in r ground_seats)

guarded :
    (seated air : Bool) (w : String)
    → is_in w ground_seats ≡ seated
    → air ≡ true
    → in_the_air (if seated && air then "" else w) ≡ true
guarded true true w e h = refl
guarded true false w e h = absurd (cc)
guarded false air w e h = ap not e

module _ {ℓ} {Place : Type ℓ} (nm_between : Place → Place → ℕ) (seats : List Station)
    (fields : List (Fix Place)) (procedures : List (Procedure Place))
    (profile : Option (Profile Place)) (me : Station) (st : State) where
  abbrev pub loop : Bool → List Rule → Option Verdict
  loop = by_rules nm_between seats fields procedures me profile st

  abbrev pub fired : Rule → Bool
  fired = fires nm_between seats fields procedures me profile st

  abbrev pub seat : String → Option Station
  seat = seat_for nm_between seats fields procedures me profile

  abbrev pub here : String
  here = at fields me profile

  pub loop-skip :
      (g : Bool) (r : Rule) (rs : List Rule)
      → answers me r.frm ≡ false
      → loop g (r ∷ rs) ≡ loop g rs
  unfolding by_rules
  loop-skip g r rs h = rw h

  pub loop-decline :
      (g : Bool) (r : Rule) (rs : List Rule)
      → answers me r.frm ≡ true
      → fired r ≡ false
      → loop g (r ∷ rs) ≡ loop true rs
  unfolding by_rules
  loop-decline g r rs h k = rw (h, k)

  loop-unstaffed :
      (g : Bool) (r : Rule) (rs : List Rule)
      → answers me r.frm ≡ true
      → fired r ≡ true
      → seat r.to ≡ none
      → loop g (r ∷ rs) ≡ loop g rs
  unfolding by_rules
  loop-unstaffed g r rs h k e = rw (h, k, e)

  pub loop-fire :
      (g : Bool) (r : Rule) (rs : List Rule) (s : Station)
      → answers me r.frm ≡ true
      → fired r ≡ true
      → seat r.to ≡ some s
      → loop g (r ∷ rs) ≡ some (hand_to s r.to (same_name s me))
  unfolding by_rules
  loop-fire g r rs s h k e = rw (h, k, e)

  -- How one rule leaves the loop.
  abbrev Turn : Bool → Rule → List Rule → Type 0
  Turn g r rs =
      (loop g (r ∷ rs) ≡ loop g rs)
      ⊎ (loop g (r ∷ rs) ≡ loop true rs)
      ⊎ ((s : Station) × (seat r.to ≡ some s)
          × (loop g (r ∷ rs) ≡ some (hand_to s r.to (same_name s me))))

  turn : (g : Bool) (r : Rule) (rs : List Rule) → Turn g r rs
  turn g r rs = elim (Bool-cases (answers me r.frm)) [
    | inr h ↦ inl (loop-skip g r rs h)
    | inl h ↦ elim (Bool-cases (fired r)) [
      | inr k ↦ inr (inl (loop-decline g r rs h k))
      | inl k ↦ elim (Option-cases (seat r.to)) [
        | inl e ↦ inl (loop-unstaffed g r rs h k e)
        | inr (s, e) ↦ inr (inr (s, e, loop-fire g r rs s h k e))
      ]
    ]
  ]

  -- A verdict that hands him over names a seat of the table, for a role with `good`, and says
  -- whether the name changes.
  abbrev Handed : (String → Bool) → Option Verdict → Type 0
  Handed good none = Unit
  Handed good (some keep) = Unit
  Handed good (some (hand_to s r same)) =
      (seat r ≡ some s) × (same ≡ same_name s me) × (good r ≡ true)

  loop-Handed :
      (good : String → Bool) (g : Bool) (rs : List Rule)
      → all (λ r. good r.to) rs ≡ true
      → Handed good (loop g rs)
  unfolding by_rules
  loop-Handed good true [] h = tt
  loop-Handed good false [] h = tt
  loop-Handed good g (r ∷ rs) h = elim (turn g r rs) [
    | inl e ↦ subst (Handed good) (sym e) (loop-Handed good g rs (ground arith))
    | inr (inl e) ↦ subst (Handed good) (sym e) (loop-Handed good true rs (ground arith))
    | inr (inr (s, found, e)) ↦ subst (Handed good) (sym e) (found, refl, ground arith)
  ]

  abbrev pub owned : Option Verdict
  owned = by_phase nm_between seats fields procedures me profile st

  -- The test of `by_phase`.
  abbrev pub outright : Bool
  outright =
      not (st.phase == "")
      && (not (phase_owner st == "")
          && (aims (Phases.get st.phase) == "none" && not (answers me (phase_owner st))))

  pub owned-none : outright ≡ false → owned ≡ none
  unfolding by_phase
  owned-none h = rw h

  owned-Handed : (good : String → Bool) → good (phase_owner st) ≡ true → Handed good owned
  unfolding by_phase
  owned-Handed good h = elim (Bool-cases outright) [
    | inr e ↦ rw e tt
    | inl e ↦ elim (Option-cases (seat (phase_owner st))) [
      | inl f ↦ rw (e, f) tt
      | inr (s, f) ↦ rw (e, f) (f, refl, h)
    ]
  ]

  abbrev pub verdict : Option Verdict
  verdict = due nm_between seats fields procedures profile (some me) st

  due-owned : (v : Verdict) → (me.role == "") ≡ false → owned ≡ some v → verdict ≡ some v
  unfolding due
  due-owned v h e = rw (h, e)

  pub due-loop : (me.role == "") ≡ false → owned ≡ none → verdict ≡ loop false rules
  unfolding due
  due-loop h e = rw (h, e)

  due-silent : (me.role == "") ≡ true → verdict ≡ none
  unfolding due
  due-silent h = rw h

  due-Handed :
      (good : String → Bool)
      → good (phase_owner st) ≡ true
      → all (λ r. good r.to) rules ≡ true
      → Handed good verdict
  due-Handed good h k = elim (Bool-cases (me.role == "")) [
    | inl e ↦ subst (Handed good) (sym (due-silent e)) tt
    | inr e ↦ elim (Option-cases owned) [
      | inl f ↦ subst (Handed good) (sym (due-loop e f)) (loop-Handed good false rules k)
      | inr (v, f) ↦
          subst (Handed good) (sym (due-owned v e f)) (subst (Handed good) f (owned-Handed good h))
    ]
  ]

  -- Whoever he is handed to works the role that the verdict names, as his own or as one that he also
  -- covers, at the aerodrome or at none; and the verdict says truly whether the name is the same.
  due-Works :
      (s : Station) (r : String) (same : Bool)
      → due nm_between seats fields procedures profile (some me) st ≡ some (hand_to s r same)
      → Works r (at fields me profile) s × (same ≡ same_name s me)
  due-Works s r same e =
      let (found, named, _) = subst (Handed (λ _. true)) e (due-Handed (λ _. true) refl refl) in
      (role_at-Works seats r here s found, named)

  phase_owner-in_the_air : airborne st ≡ true → in_the_air (phase_owner st) ≡ true
  unfolding phase_owner
  phase_owner-in_the_air h = guarded _ (airborne st) (Phases.owner_of st.phase) refl h

  -- An aircraft in the air, seen by radar, is never handed to a seat of the ground, whatever its
  -- phase, its seat and the tables say.
  pub due-airborne :
      (s : Station) (r : String) (same : Bool)
      → airborne st ≡ true
      → due nm_between seats fields procedures profile (some me) st ≡ some (hand_to s r same)
      → is_in r ground_seats ≡ false
  due-airborne s r same h e =
      let (_, _, air) =
        subst (Handed in_the_air) e (due-Handed in_the_air (phase_owner-in_the_air h) refl) in
      not-true _ air

  abbrev Quiet : Rule → Type 0
  Quiet r = (fired r ≡ true) × (seat r.to ≡ none)

  loop-governed : (rs : List Rule) → loop true rs ≢ none
  unfolding by_rules
  loop-governed [] e = cc
  loop-governed (r ∷ rs) e = elim (turn true r rs) [
    | inl same ↦ loop-governed rs (sym same ∙ e)
    | inr (inl same) ↦ loop-governed rs (sym same ∙ e)
    | inr (inr (s, found, same)) ↦ cc
  ]

  -- A rule before which nothing has ended the loop.
  loop-head :
      (r : Rule) (rs : List Rule) → answers me r.frm ≡ true → loop false (r ∷ rs) ≡ none → Quiet r
  loop-head r rs a e = elim (Bool-cases (fired r)) [
    | inr k ↦ absurd (loop-governed rs (sym (loop-decline false r rs a k) ∙ e))
    | inl k ↦ elim (Option-cases (seat r.to)) [
      | inl f ↦ (k, f)
      | inr (s, f) ↦ absurd (cc (loop-fire false r rs s a k f))
    ]
  ]

  loop-tail : (r : Rule) (rs : List Rule) → loop false (r ∷ rs) ≡ none → loop false rs ≡ none
  loop-tail r rs e = elim (turn false r rs) [
    | inl same ↦ sym same ∙ e
    | inr (inl same) ↦ absurd (loop-governed rs (sym same ∙ e))
    | inr (inr (s, found, same)) ↦ absurd (cc)
  ]

  loop-Quiet :
      (rs : List Rule) (r : Rule)
      → loop false rs ≡ none
      → Memᴰ r rs
      → answers me r.frm ≡ true
      → Quiet r
  loop-Quiet [] r e m a = elim m [ ]
  loop-Quiet (q ∷ rs) r e (Memᴰ.head same) a =
      subst Quiet (sym same)
        (loop-head q rs (subst (λ (x : Rule). answers me x.frm ≡ true) same a) e)
  loop-Quiet (q ∷ rs) r e (Memᴰ.tail m) a = loop-Quiet rs r (loop-tail q rs e) m a

  -- Silence: where `due` says nothing of a seat with a role, every rule of that seat holds, and names
  -- a position that the aerodrome does not staff.
  due-none :
      (r : Rule)
      → (me.role == "") ≡ false
      → due nm_between seats fields procedures profile (some me) st ≡ none
      → Memᴰ r rules
      → answers me r.frm ≡ true
      → (fires nm_between seats fields procedures me profile st r ≡ true)
        × (role_at seats r.to (at fields me profile) ≡ none)
  due-none r h e m a = elim (Option-cases owned) [
    | inl f ↦ loop-Quiet rules r (sym (due-loop h f) ∙ e) m a
    | inr (v, f) ↦ absurd (cc (due-owned v h f))
  ]
