-- ===== src/Identity/Claims.antt =====
-- Nobody is given another's aeroplane for want of a better one: `resolve` of src/marshall/atc/identity.py.
use marshall.Prelude.{
  String, ◌≡◌, refl, sym, ap, subst, ◌∙◌, Bool, true, false, not, ◌&&◌, ◌⊎◌, Option, none, some,
  List, [], ◌∷◌, ◌==◌, keep, eq_iff, is_in, All, find_first, arith, Bool-cases, Option-cases, inl,
  inr,
}
use mathlib.Core.Option.{some-injective}
use marshall.Prelude.Dict
use marshall.Identity.{
  SimUnit, Identity, pick, unit_for_radio, matches, Registry, is_claimed, by_elimination, physical,
  by_claim, resolve, was_tracked, was_granted,
}

-- Another radio has the track.
abbrev pub IsTaken : String → Registry → String → Type 0
IsTaken guid reg name =
    (g : String) × (i : Identity) × (Dict.get reg g ≡ some i)
    × ((g == guid) ≡ false)
    × ((i.track == "") ≡ false)
    × (i.track ≡ name)

IsTaken-claimed :
    (guid : String) (reg : Registry) (name : String)
    → IsTaken guid reg name
    → is_claimed guid reg name ≡ true
unfolding is_claimed Dict.get
IsTaken-claimed guid [] name (g, i, h, o, n, e) = absurd (cc)
IsTaken-claimed guid ((j, k) ∷ reg) name (g, i, h, o, n, e) = elim (Bool-cases (g == j)) [
  | inl c ↦
      let same = (eq_iff g j).0 c in
      let his = some-injective k i (rw c at h) in
      let named : (k.track == name) ≡ true = (eq_iff k.track name).1 (ap (λ x. x.track) his ∙ e) in
      let other : (j == guid) ≡ false = subst (λ x. (x == guid) ≡ false) same o in
      let tracked : (k.track == "") ≡ false = subst (λ x. (x.track == "") ≡ false) (sym his) n in
      rw (named, other, tracked) refl
  | inr c ↦ let rest = IsTaken-claimed guid reg name (g, i, rw c at h, o, n, e) in ground arith
]

module _ {ℓ} {A : Type ℓ} where
  keep-test : (test : A → Bool) (xs : List A) → All (λ x. test x ≡ true) (keep test xs)
  keep-test test [] = tt
  keep-test test (x ∷ xs) = elim (Bool-cases (test x)) [
    | inl c ↦ rw c (c, keep-test test xs)
    | inr c ↦ rw c (keep-test test xs)
  ]

  pick-test :
      (test : A → Bool) (xs : List A) (u : A)
      → All (λ x. test x ≡ true) xs
      → pick xs none ≡ some u
      → test u ≡ true
  unfolding pick
  pick-test test [] u h e = absurd (cc)
  pick-test test (x ∷ []) u h e = subst (λ y. test y ≡ true) (some-injective x u e) h.0
  pick-test test (x ∷ y ∷ ys) u h e = absurd (cc)

-- Whoever must be it is manned, and nobody else's.
by_elimination-free :
    (guid : String) (us : List SimUnit) (reg : Registry) (u : SimUnit)
    → by_elimination guid us reg ≡ some u
    → (u.manned && not (is_claimed guid reg u.name)) ≡ true
unfolding by_elimination
by_elimination-free guid us reg u h =
    pick-test (λ v. v.manned && not (is_claimed guid reg v.name))
      (keep (λ v. v.manned && not (is_claimed guid reg v.name)) us) u
      (keep-test (λ v. v.manned && not (is_claimed guid reg v.name)) us) h

-- The radio's own name is evidence of the unit.
abbrev pub IsNamed : String → List SimUnit → String → Type 0
IsNamed srs_name us track = (u : SimUnit) × (unit_for_radio srs_name us ≡ some u) × (u.name ≡ track)

physical-IsNamed :
    (guid srs_name : String) (us : List SimUnit) (reg : Registry) (u : SimUnit)
    → physical guid srs_name us reg ≡ some u
    → IsTaken guid reg u.name
    → IsNamed srs_name us u.name
unfolding physical
physical-IsNamed guid srs_name us reg u h t = elim (Option-cases (unit_for_radio srs_name us)) [
  | inr (v, c) ↦ (v, c, ap (λ (x : SimUnit). x.name) (some-injective v u (rw (c, physical) at h)))
  | inl c ↦ elim (Bool-cases (was_tracked (Dict.get reg guid))) [
    | inl g ↦ absurd (cc (rw (c, g, physical) at h))
    | inr g ↦
        let free = by_elimination-free guid us reg u (rw (c, g, physical) at h) in
        let claimed = IsTaken-claimed guid reg u.name t in absurd (ground arith)
  ]
]

IsTaken-nothing : (guid : String) (reg : Registry) → IsTaken guid reg "" → ⊥
IsTaken-nothing guid reg (g, i, h, o, n, e) = cc ((eq_iff i.track "").1 e, n)

granted-same :
    (prior : Option Identity) (i : Identity) → was_granted prior ≡ some i → prior ≡ some i
granted-same none i h = absurd (cc)
granted-same (some k) i h = elim (Bool-cases (is_in k.authority ("radar" ∷ "plan" ∷ []))) [
  | inl c ↦ rw c at h
  | inr c ↦ absurd (cc (rw c at h))
]

by_claim-track :
    (guid srs_name spoken : String) (roster : List String) (reg : Registry)
    → IsTaken guid reg (by_claim guid srs_name spoken roster reg).1.track
    → Dict.get reg guid ≡ some (by_claim guid srs_name spoken roster reg).1
unfolding by_claim
by_claim-track guid srs_name spoken roster reg t =
    elim (Option-cases (find_first (λ name. not (spoken == "") && matches spoken name) roster)) [
      | inr (name, c) ↦ absurd (IsTaken-nothing guid reg (rw (c, by_claim) at t))
      | inl c ↦ elim (Option-cases (was_granted (Dict.get reg guid))) [
        | inl g ↦ absurd (IsTaken-nothing guid reg (rw (c, g, by_claim) at t))
        | inr (i, g) ↦ rw (c, g, by_claim) (granted-same (Dict.get reg guid) i g)
      ]
    ]

-- Whoever is resolved to a track that another radio has, is by the name of his radio, or was before: no
-- elimination, and nothing that is said, gives anybody the track of somebody else.
pub resolve-IsNamed :
    (guid srs_name spoken : String) (us : List SimUnit) (plans roster : List String)
    (reg : Registry)
    → IsTaken guid reg (resolve guid srs_name spoken us plans roster reg).1.track
    → IsNamed srs_name us (resolve guid srs_name spoken us plans roster reg).1.track
      ⊎ (Dict.get reg guid ≡ some (resolve guid srs_name spoken us plans roster reg).1)
unfolding resolve
resolve-IsNamed guid srs_name spoken us plans roster reg t =
    elim (Option-cases (physical guid srs_name us reg)) [
      | inl c ↦
          rw (c, resolve)
            (inr (by_claim-track guid srs_name spoken roster reg (rw (c, resolve) at t)))
      | inr (u, c) ↦
          rw (c, resolve) (inl (physical-IsNamed guid srs_name us reg u c (rw (c, resolve) at t)))
    ]
