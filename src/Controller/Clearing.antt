-- ===== src/Controller/Clearing.antt =====
-- One aircraft in a letdown, over all the clearances that `_try_clear` of src/marshall/atc/controller.py
-- gives.
use marshall.Prelude.{
  String, ◌≡◌, refl, sym, ap, subst, ◌∙◌, true, Option, none, some, List, [], ◌∷◌, ◌==◌, eq_refl,
  is_in, All, Bool-cases, Option-cases, inl, inr, if◌then◌else◌,
}
use marshall.Prelude.Dict
use marshall.Controller.{
  is_holding, Aircraft, cleared_approach, Engine, write, say, anomaly, pro, key, in_letdown,
  set_letdown, same_stack, next_up,
}
use marshall.Controller.Letdown.{
  IsNamed, field_of, HasFields, Keeps, Keeps-next, Keeps-same, step_down-Keeps, write-Keeps,
  give-Keeps, get-IsNamed, on_approach-field, named-same, next_up-All,
}
use marshall.Controller.Sequence.{
  step_down, on_approach, continue_him, number_two, clear_next, try_clear_one, try_each, try_clear,
}

field_of-key : (e : Engine) (a : Aircraft) → field_of e.profile a ≡ key e (some a)
unfolding key pro
field_of-key e a = refl

next_up-key :
    (e : Engine) (ref : Aircraft) (a : Aircraft)
    → HasFields e
    → IsNamed e.profile ref
    → next_up e (some ref) ≡ some a
    → (IsNamed e.profile a) × (key e (some a) ≡ key e (some ref))
unfolding same_stack key pro
next_up-key e ref a h n c =
    next_up-All e (some ref) (IsNamed e.profile)
      (λ b. IsNamed e.profile b × (key e (some b) ≡ key e (some ref))) a
      (λ b m s. (m, same_key b m s)) h c
  where
    same_key :
        (b : Aircraft)
        → IsNamed e.profile b
        → same_stack e (some ref) b ≡ true
        → key e (some b) ≡ key e (some ref)
    same_key b m s = named-same (field_of e.profile ref) (field_of e.profile b) n m s

clear_next-Keeps :
    (a : Aircraft) (e : Engine)
    → HasFields e
    → IsNamed e.profile a
    → in_letdown e (some a) ≡ none
    → Keeps e (clear_next a e)
unfolding clear_next in_letdown key pro write say
clear_next-Keeps a e h n out = elim (Bool-cases (is_holding a.phase)) [
  | inl c ↦
      rw (c, clear_next)
        (Keeps-next e given (step_down (some his) given) giving
          (step_down-Keeps (some his) given giving.1))
  | inr c ↦ rw (c, clear_next) giving
]
  where
    his : Aircraft
    his = on_approach e.t a

    written : Engine
    written = write his e

    given : Engine
    given = say (cleared_approach a.callsign) (set_letdown (some his) (some a.callsign) written)

    writing : Keeps e written
    writing = write-Keeps his e (rw (on_approach-field e.profile e.t a) n) h

    still_out : in_letdown written (some his) ≡ none
    still_out = ap (Dict.get e.letdown_by) (on_approach-field e.profile e.t a) ∙ out

    giving : Keeps e given
    giving =
        Keeps-next e written (set_letdown (some his) (some a.callsign) written) writing
          (give-Keeps (some his) a.callsign written writing.1 still_out)

number_two-Keeps : (by : String) (e : Engine) → HasFields e → Keeps e (number_two by e)
unfolding number_two say
number_two-Keeps by e h = Keeps-same e h

continue_him-Keeps : (by : String) (e : Engine) → HasFields e → Keeps e (continue_him by e)
unfolding continue_him anomaly
continue_him-Keeps by e h = elim (Option-cases (Dict.get e.aircraft by)) [
  | inl c ↦ rw (c, continue_him) (Keeps-same e h)
  | inr (ac, c) ↦ elim (Bool-cases (is_holding ac.phase)) [
    | inr g ↦ rw (c, g, continue_him) (Keeps-same e h)
    | inl g ↦ rw (c, g, continue_him) (back ac c)
  ]
]
  where
    back :
        (ac : Aircraft)
        → Dict.get e.aircraft by ≡ some ac
        → Keeps e (write (on_approach e.t ac) (anomaly by e))
    back ac c =
        write-Keeps (on_approach e.t ac) (anomaly by e)
          (rw (on_approach-field e.profile e.t ac) (get-IsNamed e.profile e.aircraft by ac h c)) h

-- A clearance at one aerodrome takes no letdown from anybody.
pub try_clear_one-Keeps :
    (by : Option String) (ref : Aircraft) (e : Engine)
    → HasFields e
    → IsNamed e.profile ref
    → Keeps e (try_clear_one by (some ref) e)
unfolding try_clear_one in_letdown
try_clear_one-Keeps by ref e h n = elim (Option-cases (in_letdown e (some ref))) [
  | inr (who, c) ↦ rw (c, try_clear_one) (asked who by)
  | inl c ↦ elim (Option-cases (next_up e (some ref))) [
    | inl g ↦ rw (c, g, try_clear_one) (Keeps-same e h)
    | inr (a, g) ↦
        let known = next_up-key e ref a h n g in
        rw (c, g, try_clear_one) (clear_next-Keeps a e h known.0 (moved_out a known.1 c))
  ]
]
  where
    moved_out :
        (a : Aircraft)
        → key e (some a) ≡ key e (some ref)
        → in_letdown e (some ref) ≡ none
        → in_letdown e (some a) ≡ none
    moved_out a k c = ap (Dict.get e.letdown_by) k ∙ c

    asked :
        (who : String) (by : Option String)
        → Keeps e
            (elim by [ none ↦ e | some b ↦ if b == who then continue_him b e else number_two b e ])
    asked who none = Keeps-same e h
    asked who (some b) = elim (Bool-cases (b == who)) [
      | inl g ↦ rw g (continue_him-Keeps b e h)
      | inr g ↦ rw g (number_two-Keeps b e h)
    ]

try_each-Keeps :
    (bs : List Aircraft) (seen : List String) (e : Engine)
    → All (IsNamed e.profile) bs
    → HasFields e
    → Keeps e (try_each bs seen e)
unfolding try_each
try_each-Keeps [] seen e n h = Keeps-same e h
try_each-Keeps (a ∷ bs) seen e n h = elim (Bool-cases (is_in (key e (some a)) seen)) [
  | inl c ↦ rw (c, try_each) (try_each-Keeps bs seen e n.1 h)
  | inr c ↦
      rw (c, try_each)
        (let one = try_clear_one-Keeps none a e h n.0 in
          Keeps-next e (try_clear_one none (some a) e)
            (try_each bs (key e (some a) ∷ seen) (try_clear_one none (some a) e)) one
            (try_each-Keeps bs (key e (some a) ∷ seen) (try_clear_one none (some a) e)
              (subst (λ p. All (IsNamed p) bs) (sym one.0) n.1) one.1))
]

abbrev holder_at : Engine → String → Option String
holder_at e k = Dict.get e.letdown_by k

clear_next-takes :
    (a : Aircraft) (e : Engine)
    → HasFields e
    → IsNamed e.profile a
    → holder_at (clear_next a e) (key e (some a)) ≡ some a.callsign
unfolding clear_next key pro write say set_letdown
clear_next-takes a e h n = elim (Bool-cases (is_holding a.phase)) [
  | inl c ↦
      rw (c, clear_next)
        ((step_down-Keeps (some his) given
            (write-Keeps his e (rw (on_approach-field e.profile e.t a) n) h).1).2
          (field_of e.profile a) a.callsign taken)
  | inr c ↦ rw (c, clear_next) taken
]
  where
    his : Aircraft
    his = on_approach e.t a

    given : Engine
    given =
        say (cleared_approach a.callsign) (set_letdown (some his) (some a.callsign) (write his e))

    taken : holder_at given (field_of e.profile a) ≡ some a.callsign
    taken =
        Dict.get-put e.letdown_by (field_of e.profile his) (field_of e.profile a) a.callsign
        ∙ rw (on_approach-field e.profile e.t a, eq_refl (field_of e.profile a)) refl

-- Where every aircraft's aerodrome has a name: when nobody has the letdown of an aerodrome and somebody
-- is next for it, trying to clear gives it to him.
pub try_clear_one-takes :
    (by : Option String) (ref a : Aircraft) (e : Engine)
    → HasFields e
    → IsNamed e.profile ref
    → in_letdown e (some ref) ≡ none
    → next_up e (some ref) ≡ some a
    → holder_at (try_clear_one by (some ref) e) (key e (some ref)) ≡ some a.callsign
unfolding try_clear_one
try_clear_one-takes by ref a e h n out g =
    let known = next_up-key e ref a h n g in
    rw (out, g, try_clear_one)
      (subst (λ k. holder_at (clear_next a e) k ≡ some a.callsign) known.1
        (clear_next-takes a e h known.0))

nobody_next : (e : Engine) → Dict.values e.aircraft ≡ [] → next_up e none ≡ none
nobody_next e c = elim (Option-cases (next_up e none)) [
  | inl g ↦ g
  | inr (a, g) ↦
      absurd
        (next_up-All e none (λ b. ⊥) (λ b. ⊥) a (λ b p s. p) (subst (All (λ b. ⊥)) (sym c) tt) g)
]

-- With nobody named, each aerodrome's letdown is tried in turn.
pub try_clear-Keeps : (e : Engine) → HasFields e → Keeps e (try_clear none none e)
unfolding try_clear try_clear_one
try_clear-Keeps e h = over (Dict.values e.aircraft) h refl
  where
    nobody : Dict.values e.aircraft ≡ [] → Keeps e (try_clear_one none none e)
    nobody c = elim (Option-cases (in_letdown e none)) [
      | inr (who, g) ↦ rw (g, try_clear_one) (Keeps-same e h)
      | inl g ↦ rw (g, nobody_next e c, try_clear_one) (Keeps-same e h)
    ]

    over :
        (bs : List Aircraft)
        → All (IsNamed e.profile) bs
        → Dict.values e.aircraft ≡ bs
        → Keeps e (elim bs [ [] ↦ try_clear_one none none e | a ∷ cs ↦ try_each (a ∷ cs) [] e ])
    over [] n c = nobody c
    over (a ∷ cs) n c = try_each-Keeps (a ∷ cs) [] e n h
