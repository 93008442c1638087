-- ===== src/Filing/Accepting.antt =====
-- Which plans can be filed: `check` of src/marshall/atc/filing.py against a description of them.
use marshall.Prelude.{
  ℕ, suc, ◌≡◌, ◌≢◌, refl, sym, ◌↔◌, ◌⊎◌, inl, inr, String, Bool, true, false, not, ◌&&◌, none, some,
  List, [], ◌∷◌, ◌++◌, ◌==◌, All, is_in, lower, strip, arith, eq_iff, Bool-cases, Option-cases,
}
use marshall.Prelude.Dict
use marshall.Filing.{
  Leg, Plan, Refusal, unusable_key, unsayable_label, no_legs, no_task, or_else, when, others,
  key_of, is_carried, refuse_altitude, refuse_leg, refuse_legs, refuse_label, no_leg, refusals,
}
use marshall.Filing.Keys.{name_ok, label_ok}

module _ {ℓ} {A : Type ℓ} where
  ++-nil : (xs ys : List A) → xs ++ ys ≡ [] → (xs ≡ []) × (ys ≡ [])
  ++-nil [] ys h = (refl, h)
  ++-nil (x ∷ xs) ys h = absurd (cc)

  nil-++ : (xs ys : List A) → xs ≡ [] → ys ≡ [] → xs ++ ys ≡ []
  nil-++ [] ys g h = h
  nil-++ (x ∷ xs) ys g h = absurd (cc)

  when-nil : (test : Bool) (x : A) → when test x ≡ [] → test ≡ false
  when-nil false x h = refl
  when-nil true x h = absurd (cc)

-- Only a plan under that key may have the label on the board.
abbrev pub IsOwn : String → String → String × String → Type 0
IsOwn own label (other, owner) = other ≡ lower label → owner ≡ own

others-IsOwn :
    (own label : String) (taken : List (String × String))
    → Dict.get (others own taken) (lower label) ≡ none
    → All (IsOwn own label) taken
unfolding others Dict.get
others-IsOwn own label [] h = tt
others-IsOwn own label ((k, v) ∷ taken) h = elim (Bool-cases (v == own)) [
  | inl c ↦ (λ e. (eq_iff v own).0 c, others-IsOwn own label taken (rw (c, others) at h))
  | inr c ↦ elim (Bool-cases (lower label == k)) [
    | inl d ↦ absurd (cc (rw (c, d, others) at h))
    | inr d ↦ (
      (λ e. absurd (cc ((eq_iff (lower label) k).1 (sym e), d))),
      others-IsOwn own label taken (rw (c, d, others) at h),
    )
  ]
]

IsOwn-others :
    (own label : String) (taken : List (String × String))
    → All (IsOwn own label) taken
    → Dict.get (others own taken) (lower label) ≡ none
unfolding others Dict.get
IsOwn-others own label [] h = refl
IsOwn-others own label ((k, v) ∷ taken) h = elim (Bool-cases (v == own)) [
  | inl c ↦ rw (c, others) (IsOwn-others own label taken h.1)
  | inr c ↦ elim (Bool-cases (lower label == k)) [
    | inl d ↦ absurd (cc ((eq_iff v own).1 (h.0 (sym ((eq_iff (lower label) k).0 d))), c))
    | inr d ↦ rw (c, d, others) (IsOwn-others own label taken h.1)
  ]
]

not-false : (b : Bool) → not b ≡ false → b ≡ true
not-false b h = ground arith

free :
    (label : String) (taken : List (String × String))
    → refuse_label label taken ≡ []
    → Dict.get taken (lower label) ≡ none
unfolding refuse_label
free label taken h = elim (Option-cases (Dict.get taken (lower label))) [
  | inl c ↦ c
  | inr (owner, c) ↦ absurd (cc (rw (c, refuse_label) at h))
]

clear :
    (label : String) (taken : List (String × String))
    → Dict.get taken (lower label) ≡ none
    → refuse_label label taken ≡ []
unfolding refuse_label
clear label taken h = rw (h, refuse_label) refl

module _ {Pos : Type 0} where
  -- A leg that a controller can work: a named place that the chart has or the plan gives, and a level.
  abbrev pub IsFlyable : List String → Leg Pos → Type 0
  IsFlyable fixes leg =
      ((strip leg.fix == "") ≡ false)
      × ((is_carried leg ≡ true) ⊎ (is_in (lower (strip leg.fix)) fixes ≡ true))
      × ((ft : ℕ) × (leg.alt_ft ≡ some ft))

  placed :
      (leg : Leg Pos) (fixes : List String)
      → (not (is_carried leg) && not (is_in (lower (strip leg.fix)) fixes)) ≡ false
      → (is_carried leg ≡ true) ⊎ (is_in (lower (strip leg.fix)) fixes ≡ true)
  placed leg fixes h = elim (Bool-cases (is_carried leg)) [
    | inl c ↦ inl c
    | inr c ↦ inr (ground arith)
  ]

  refuse_leg-IsFlyable :
      (fixes : List String) (i : ℕ) (leg : Leg Pos)
      → refuse_leg fixes i leg ≡ []
      → IsFlyable fixes leg
  unfolding refuse_leg refuse_altitude
  refuse_leg-IsFlyable fixes i leg h = elim (Bool-cases (strip leg.fix == "")) [
    | inl c ↦ absurd (cc (rw (c, refuse_leg) at h))
    | inr c ↦
        let both = ++-nil _ (refuse_altitude leg) (rw (c, refuse_leg) at h) in
        (c, placed leg fixes (when-nil _ _ both.0), level both.1)
  ]
    where
      level : refuse_altitude leg ≡ [] → (ft : ℕ) × (leg.alt_ft ≡ some ft)
      level g = elim (Option-cases leg.alt_ft) [
        | inl d ↦ absurd (cc (rw (d, refuse_altitude) at g))
        | inr d ↦ d
      ]

  IsFlyable-refuse_leg :
      (fixes : List String) (i : ℕ) (leg : Leg Pos)
      → IsFlyable fixes leg
      → refuse_leg fixes i leg ≡ []
  unfolding refuse_leg refuse_altitude is_carried
  IsFlyable-refuse_leg fixes i leg (n, p, (ft, l)) = rw (n, l, refuse_leg) (rw (found p) refl)
    where
      found :
          (is_carried leg ≡ true) ⊎ (is_in (lower (strip leg.fix)) fixes ≡ true)
          → (not (is_carried leg) && not (is_in (lower (strip leg.fix)) fixes)) ≡ false
      found (inl c) = rw c refl
      found (inr c) = ground arith

  refuse_legs-IsFlyable :
      (fixes : List String) (i : ℕ) (legs : List (Leg Pos))
      → refuse_legs fixes i legs ≡ []
      → All (IsFlyable fixes) legs
  unfolding refuse_legs
  refuse_legs-IsFlyable fixes i [] h = tt
  refuse_legs-IsFlyable fixes i (leg ∷ legs) h =
      let both = ++-nil (refuse_leg fixes i leg) (refuse_legs fixes (suc i) legs) h in
      (refuse_leg-IsFlyable fixes i leg both.0, refuse_legs-IsFlyable fixes (suc i) legs both.1)

  IsFlyable-refuse_legs :
      (fixes : List String) (i : ℕ) (legs : List (Leg Pos))
      → All (IsFlyable fixes) legs
      → refuse_legs fixes i legs ≡ []
  unfolding refuse_legs
  IsFlyable-refuse_legs fixes i [] h = refl
  IsFlyable-refuse_legs fixes i (leg ∷ legs) h =
      nil-++ _ _ (IsFlyable-refuse_leg fixes i leg h.0)
        (IsFlyable-refuse_legs fixes (suc i) legs h.1)

  abbrev pub IsFileable : Plan Pos → List String → List (String × String) → String → Type 0
  IsFileable plan fixes taken updating =
      (name_ok (key_of plan) ≡ true)
      × (label_ok (strip plan.label) ≡ true)
      × All (IsOwn (or_else updating (key_of plan)) (strip plan.label)) taken
      × (plan.legs ≢ [])
      × All (IsFlyable fixes) plan.legs
      × ((strip plan.task == "") ≡ false)

  some_leg : (legs : List (Leg Pos)) → (no_leg legs ≡ false) ↔ (legs ≢ [])
  unfolding no_leg
  some_leg [] = ((λ h. absurd (cc)), (λ h. absurd (h refl)))
  some_leg (leg ∷ legs) = ((λ h e. absurd (cc)), (λ h. refl))

  -- A plan is refused nothing exactly when its key and its label have the form for one, nobody has its label
  -- but a plan under the key that is updated or, where none is, under its own key, given or derived from the
  -- label, and it has a task and legs, each with a name, a place that the chart or the plan gives, and a
  -- level.
  pub refusals-IsFileable :
      (plan : Plan Pos) (fixes : List String) (taken : List (String × String)) (updating : String)
      → (refusals plan fixes taken updating ≡ []) ↔ IsFileable plan fixes taken updating
  unfolding refusals
  refusals-IsFileable plan fixes taken updating = (there, back)
    where
      own : String
      own = or_else updating (key_of plan)

      after_none : List Refusal
      after_none = refuse_legs fixes 1 plan.legs ++ when (strip plan.task == "") no_task

      after_label : List Refusal
      after_label = when (no_leg plan.legs) no_legs ++ after_none

      after_form : List Refusal
      after_form = refuse_label (strip plan.label) (others own taken) ++ after_label

      after_key : List Refusal
      after_key = when (not (label_ok (strip plan.label))) unsayable_label ++ after_form

      there : refusals plan fixes taken updating ≡ [] → IsFileable plan fixes taken updating
      there h =
          let a = ++-nil (when (not (name_ok (key_of plan))) unusable_key) after_key h in
          let b =
            ++-nil (when (not (label_ok (strip plan.label))) unsayable_label) after_form a.1 in
          let c = ++-nil (refuse_label (strip plan.label) (others own taken)) after_label b.1 in
          let d = ++-nil (when (no_leg plan.legs) no_legs) after_none c.1 in
          let e =
            ++-nil (refuse_legs fixes 1 plan.legs) (when (strip plan.task == "") no_task) d.1 in
          (
            not-false (name_ok (key_of plan))
                (when-nil (not (name_ok (key_of plan))) unusable_key a.0),
            not-false (label_ok (strip plan.label))
                (when-nil (not (label_ok (strip plan.label))) unsayable_label b.0),
            others-IsOwn own (strip plan.label) taken
                (free (strip plan.label) (others own taken) c.0),
            (some_leg plan.legs).0 (when-nil (no_leg plan.legs) no_legs d.0),
            refuse_legs-IsFlyable fixes 1 plan.legs e.0,
            when-nil (strip plan.task == "") no_task e.1,
          )

      back : IsFileable plan fixes taken updating → refusals plan fixes taken updating ≡ []
      back (n, l, o, s, f, t) =
          rw
            (
              n,
              l,
              t,
              clear (strip plan.label) (others own taken)
                  (IsOwn-others own (strip plan.label) taken o),
              (some_leg plan.legs).1 s,
              IsFlyable-refuse_legs fixes 1 plan.legs f,
            )
            refl
