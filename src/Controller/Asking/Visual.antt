-- ===== src/Controller/Asking/Visual.antt =====
-- Who is sent around whom for a visual: `request_visual` of src/marshall/atc/controller.py.
use marshall.Prelude.{
  ℕ, String, ◌≡◌, refl, sym, subst, ◌∙◌, true, false, not, ◌||◌, none, some, List, ◌∷◌, ◌==◌, any,
  All, eq_iff, arith, Bool-cases, Option-cases, inl, inr, if◌then◌else◌,
}
use mathlib.Core.Option.{some-injective}
use marshall.Prelude.Dict
use marshall.Controller.{
  holding, Aircraft, hold, Engine, write, say, key, pro, procedure_of, in_letdown, set_letdown,
  stack_of, free_slot,
}
use marshall.Controller.Levels.{occupies, IsSlot, free_slot-IsSlot}
use marshall.Controller.Asking.{is_anothers, waiting_level, request_visual}

is_anothers-none :
    (mine : String) (who : String)
    → not (who == "" || who == mine) ≡ false
    → (who == "") ≡ false
    → (who == mine) ≡ true
is_anothers-none mine who h n = ground arith

-- A request for a visual takes no letdown from anybody else.
pub request_visual-letdown :
    (ac : Aircraft) (e e' : Engine) (k who : String)
    → (who == ac.callsign) ≡ false
    → (who == "") ≡ false
    → Dict.get e.letdown_by k ≡ some who
    → request_visual ac e ≡ some e'
    → Dict.get e'.letdown_by k ≡ some who
unfolding request_visual set_letdown write say is_anothers in_letdown
request_visual-letdown ac e e' k who other n g h = elim (Bool-cases (is_anothers ac e)) [
  | inl c ↦ elim (Option-cases (waiting_level (record ac { phase = holding }) e)) [
    | inl d ↦ absurd (cc (rw (c, d, request_visual) at h))
    | inr (ft, d) ↦
        subst (λ (b : Engine). Dict.get b.letdown_by k ≡ some who)
          (some-injective _ e' (rw (c, d, request_visual) at h)) g
  ]
  | inr c ↦
      subst (λ (b : Engine). Dict.get b.letdown_by k ≡ some who)
        (some-injective _ e' (rw (c, request_visual) at h))
        (Dict.get-put e.letdown_by (key e (some ac)) k ac.callsign ∙ kept c)
]
  where
    kept :
        is_anothers ac e ≡ false
        → (if key e (some ac) == k then some ac.callsign else Dict.get e.letdown_by k) ≡ some who
    kept c = elim (Bool-cases (key e (some ac) == k)) [
      | inr d ↦ rw d g
      | inl d ↦
          let his : Dict.get e.letdown_by (key e (some ac)) ≡ some who =
            subst (λ j. Dict.get e.letdown_by j ≡ some who) (sym ((eq_iff (key e (some ac)) k).0 d))
              g in
          absurd (cc (is_anothers-none ac.callsign who (rw (his, is_anothers) at c) n, other))
    ]

-- The board once he is to hold.
abbrev pub to_hold : Aircraft → Aircraft
to_hold ac = record ac { phase = holding }

-- Where somebody else has the letdown and the stack has no free level, a pilot with no level who asks for a
-- visual is told to hold at the bottom of the stack, where somebody is already.
pub request_visual-full :
    (ac : Aircraft) (e : Engine) (bottom : ℕ) (rest : List ℕ)
    → is_anothers ac e ≡ true
    → ac.assigned_ft ≡ none
    → stack_of (write (to_hold ac) e) (some (to_hold ac)) ≡ bottom ∷ rest
    → free_slot (write (to_hold ac) e) (some (to_hold ac)) ≡ none
    → (request_visual ac e
        ≡ some (
            say
              (hold ac.callsign bottom)
              (write (record (to_hold ac) { assigned_ft = some bottom }) e)))
      × (any
            (occupies (write (to_hold ac) e) (some (to_hold ac)) bottom)
            (Dict.values (write (to_hold ac) e).aircraft)
          ≡ true)
unfolding request_visual waiting_level stack_of pro procedure_of write
request_visual-full ac e bottom rest o a s f = (
  rw (o, request_visual, level) refl,
  (subst (All taken) s
      (subst (IsSlot b (some (to_hold ac))) f (free_slot-IsSlot b (some (to_hold ac))))).0,
)
  where
    b : Engine
    b = write (to_hold ac) e

    taken : ℕ → Type 0
    taken ft = any (occupies b (some (to_hold ac)) ft) (Dict.values b.aircraft) ≡ true

    same : stack_of e (some (to_hold ac)) ≡ bottom ∷ rest
    same = s

    level : waiting_level (to_hold ac) e ≡ some bottom
    level = rw (a, f, same, waiting_level) refl
