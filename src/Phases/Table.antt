-- ===== src/Phases/Table.antt =====
-- Facts about the table of phases as it stands in src/marshall/atc/phases.py.
use marshall.Prelude.{
  ℕ, ◌+◌, String, ◌≡◌, refl, sym, ap, ◌∙◌, Bool, true, false, not, ◌&&◌, ◌||◌, Option, none, some,
  List, ◌==◌, is_in, is_in-all, all, All, find_first, find_first-all, find_first-All,
  find_first-test, Option-cases, Bool-cases, lower, lower_idem, arith, eq_iff, inl, inr, eqb,
  eqb→eq, if◌then◌else◌,
}
use marshall.Phases.{
  Phase, phases, flown, asr_guide, get, follows_of, may_follow, on_the_ground, not_yet,
  airborne_only, straddles, flies_geometry, guide,
}

abbrev pub is_some : Option Phase → Bool
is_some none = false
is_some (some _) = true

-- What holds of every row holds of the row that `get` finds.
get-all :
    (good : Phase → Bool) (n : String) (p : Phase)
    → all good phases ≡ true
    → get n ≡ some p
    → good p ≡ true
unfolding get
get-all good n p g h = find_first-all (λ p. p.name == lower n) good phases p g h

pub get-All : (P : Phase → Type 0) (n : String) (p : Phase) → All P phases → get n ≡ some p → P p
unfolding get
get-All P n p ps h = find_first-All P (λ p. p.name == lower n) phases p ps h

pub get-name : (n : String) (p : Phase) → get n ≡ some p → p.name ≡ lower n
unfolding get
get-name n p h = (eq_iff p.name (lower n)).0 (find_first-test (λ p. p.name == lower n) phases p h)

pub get-lower : (n : String) → get (lower n) ≡ get n
unfolding get
get-lower n = ap (λ w. find_first (λ p. p.name == w) phases) (lower_idem n)

may_follow-lower : (p q : String) → may_follow (lower p) q ≡ may_follow p q
unfolding may_follow
may_follow-lower p q = ap (λ r. is_in (lower q) (follows_of r)) (get-lower p)

-- What holds of every edge of the table holds of an edge that `may_follow` allows.
pub may_follow-all :
    (good : Phase → String → Bool) (p q : String) (r : Phase)
    → all (λ r. all (good r) r.follows) phases ≡ true
    → get p ≡ some r
    → may_follow p q ≡ true
    → good r (lower q) ≡ true
unfolding may_follow
may_follow-all good p q r g found h =
    is_in-all (good r) (lower q) r.follows (get-all (λ r. all (good r) r.follows) p r g found)
      (rw found at h)

pub may_follow-source : (p q : String) → may_follow p q ≡ true → (r : Phase) × (get p ≡ some r)
unfolding may_follow
may_follow-source p q h = elim (Option-cases (get p)) [
  | inl e ↦ absurd (cc (rw e at h))
  | inr found ↦ found
]

-- Every phase that the table lets follow another is itself a phase of the table.
pub may_follow-closed : (p q : String) → may_follow p q ≡ true → is_some (get q) ≡ true
unfolding get lower
may_follow-closed p q h =
    let (r, found) = may_follow-source p q h in
    ap is_some (sym (get-lower q)) ∙ may_follow-all (λ _ f. is_some (get f)) p q r refl found h

abbrev to_landed : String → Bool
to_landed w = may_follow w "landed"

-- `landed` may follow every phase that exists only in the air, and the one that straddles.
pub may_follow-landed :
    (p : String)
    → is_in (lower p) airborne_only || is_in (lower p) straddles ≡ true
    → may_follow p "landed" ≡ true
unfolding may_follow get lower
may_follow-landed p h = elim (Bool-cases (is_in (lower p) airborne_only)) [
  | inl air ↦
      sym (may_follow-lower p "landed") ∙ is_in-all to_landed (lower p) airborne_only refl air
  | inr e ↦
      sym (may_follow-lower p "landed") ∙ is_in-all to_landed (lower p) straddles refl (rw e at h)
]

abbrev one : Bool → ℕ
one true = 1
one false = 0

-- In how many of the four lists a phase stands.
abbrev pub memberships : String → ℕ
memberships w =
    one (is_in w on_the_ground)
    + one (is_in w not_yet)
    + one (is_in w airborne_only)
    + one (is_in w straddles)

abbrev once : Phase → Bool
once p = eqb (memberships p.name) 1

abbrev known : String → Bool
known w = is_some (get w) || w == ""

none_listed :
    (w : String)
    → is_in w on_the_ground ≡ false
    → is_in w not_yet ≡ false
    → is_in w airborne_only ≡ false
    → is_in w straddles ≡ false
    → memberships w ≡ 0
none_listed w a b c d = rw (a, b, c, d)

not_listed :
    (w : String) (ws : List String) → all known ws ≡ true → known w ≡ false → is_in w ws ≡ false
not_listed w ws g k = elim (Bool-cases (is_in w ws)) [
  | inl e ↦ absurd (cc (is_in-all known w ws g e))
  | inr e ↦ e
]

memberships-unknown : (w : String) → known w ≡ false → memberships w ≡ 0
unfolding get lower
memberships-unknown w k =
    none_listed w (not_listed w on_the_ground refl k) (not_listed w not_yet refl k)
      (not_listed w airborne_only refl k) (not_listed w straddles refl k)

-- A word, in small letters, is in exactly one of the four lists if it is a phase of the table or
-- empty, and otherwise in none.
pub memberships_lem :
    (n : String) → memberships (lower n) ≡ (if is_some (get n) || lower n == "" then 1 else 0)
memberships_lem n = elim (Option-cases (get n)) [
  | inr (p, found) ↦ rw found (rw (← get-name n p found) (eqb→eq _ _ (get-all once n p refl found)))
  | inl e ↦ elim (Bool-cases (lower n == "")) [
    | inl b ↦ rw (e, (eq_iff (lower n) "").0 b)
    | inr b ↦ memberships-unknown (lower n) (rw (get-lower, e, b)) ∙ rw (e, b)
  ]
]

abbrev guided : Phase → Bool
guided p = p.handler == "" || (p.handler == asr_guide && not (p.aims_at == "none"))

-- The phases that fly geometry are those in `flown`.
abbrev in_flown : Phase → Bool
in_flown p =
    eqb (one (not (p.aims_at == "none") && not (p.handler == ""))) (one (is_in p.name flown))

one_inj : (a b : Bool) → eqb (one a) (one b) ≡ true → a ≡ b
one_inj a b h = ground arith

absent_flown : (w : String) → is_some (get w) ≡ false → is_in w flown ≡ false
unfolding get lower
absent_flown w k = elim (Bool-cases (is_in w flown)) [
  | inl e ↦ absurd (cc (is_in-all (λ v. is_some (get v)) w flown refl e))
  | inr e ↦ e
]

-- A phase flies geometry exactly if it is one of `flown`, in any mix of capitals.
pub flies_geometry-flown : (n : String) → flies_geometry n ≡ is_in (lower n) flown
unfolding flies_geometry
flies_geometry-flown n = elim (Option-cases (get n)) [
  | inl e ↦ rw (e, flies_geometry, absent_flown (lower n) (rw (get-lower, e)))
  | inr (p, found) ↦
      rw (found, flies_geometry, ← get-name n p found)
        (one_inj _ _ (get-all in_flown n p refl found))
]

module _ {Pos Profile Guidance : Type 0} (fly : String → Pos → Profile → Guidance) where
  -- The dispatcher flies a phase, by `asr.guide`, exactly if the phase flies geometry.
  pub guide-flies_geometry :
      (n : String) (pos : Pos) (profile : Profile)
      → guide fly n pos profile
        ≡ (if flies_geometry n then some (fly asr_guide pos profile) else none)
  unfolding guide flies_geometry
  guide-flies_geometry n pos profile = elim (Option-cases (get n)) [
    | inl e ↦ rw (e, guide, flies_geometry)
    | inr (p, found) ↦
        rw (found, guide, flies_geometry)
          (ground
            (arith, get-all guided n p refl found, eq_iff p.handler "", eq_iff p.handler asr_guide))
  ]
