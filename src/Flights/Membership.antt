-- ===== src/Flights/Membership.antt =====
-- Who is in a flight after a join, a departure and a break-up, in src/marshall/atc/flights.py.
use marshall.Prelude.{
  ℕ, ◌≤◌, String, ◌≡◌, refl, sym, ap, subst, ◌∙◌, true, false, Option, none, some, [], ◌∷◌, ltb,
  arith, All, All-map, Pairwise, Bool-cases, Option-cases, inl, inr,
}
use mathlib.Core.Option.{some-injective}
use marshall.Flights.{
  same, Flight, has, Roster, of, dissolve, called, update_first, with_member, without_member, admit,
  join, join_nm, is_empty_list, leaves, Answer, joined, refused, Refusal, no_flight, unseen,
  too_far,
}
use marshall.Flights.Same.{same_refl, has-with_member, has-without_member_self}
use marshall.Flights.Invariant.{Entry, Filed, Apart, IsValid, Without, of-none, none-of}
use marshall.Flights.Keeping.{dissolve-All}

-- What is true of every flight is true of the one that somebody is in.
of-All :
    (P : Entry → Type 0) (r : Roster) (w : String) (f : Flight)
    → All P r
    → of r w ≡ some f
    → (k : String) × P (k, f)
unfolding of
of-All P [] w f h e = absurd (cc)
of-All P ((k, g) ∷ r) w f h e = elim (Bool-cases (has g w)) [
  | inl c ↦ (k, subst (λ x. P (k, x)) (some-injective g f (rw c at e)) h.0)
  | inr c ↦ of-All P r w f h.1 (rw c at e)
]

pub of-has : (r : Roster) (w : String) (f : Flight) → of r w ≡ some f → has f w ≡ true
unfolding of
of-has [] w f e = absurd (cc)
of-has ((k, g) ∷ r) w f e = elim (Bool-cases (has g w)) [
  | inl c ↦ subst (λ x. has x w ≡ true) (some-injective g f (rw c at e)) c
  | inr c ↦ of-has r w f (rw c at e)
]

-- Nobody in a flight is in one that is apart from it.
alone :
    (e : Entry) (r : Roster) (w : String) → All (Apart e) r → has e.1 w ≡ true → All (Without w) r
alone e r w h m = All-map (Apart e) (Without w) r (λ g a. a.1 w m) h

-- When a flight is broken up, its people are in no flight.
dissolve-Without :
    (r : Roster) (handle w : String) (f : Flight)
    → IsValid r
    → of r handle ≡ some f
    → has f w ≡ true
    → All (Without w) (dissolve f.name r).0
unfolding of dissolve
dissolve-Without [] handle w f v e m = tt
dissolve-Without ((k, g) ∷ r) handle w f v e m = elim (Bool-cases (has g handle)) [
  | inl c ↦
      let his : g ≡ f = some-injective g f (rw c at e) in
      let named : same k f.name ≡ true =
        subst (λ n. same k n ≡ true) (v.0.0 ∙ ap (λ x. x.name) his) (same_refl k) in
      rw named (alone (k, g) r w v.1.0 (subst (λ x. has x w ≡ true) (sym his) m))
  | inr c ↦
      let mine =
        of-All (λ x. Filed x × Apart (k, g) x) r handle f (both r v.0.1 v.1.0) (rw c at e) in
      let other : same k f.name ≡ false = subst (λ n. same k n ≡ false) mine.1.0 mine.1.1.0 in
      rw other
        (elsewhere (mine.1.1.1 w) m, dissolve-Without r handle w f (v.0.1, v.1.1) (rw c at e) m)
]
  where
    both : (r : Roster) → All Filed r → All (Apart (k, g)) r → All (λ x. Filed x × Apart (k, g) x) r
    both [] a b = tt
    both (x ∷ r) a b = ((a.0, b.0), both r a.1 b.1)

    elsewhere : (has g w ≡ true → has f w ≡ false) → has f w ≡ true → has g w ≡ false
    elsewhere h m = elim (Bool-cases (has g w)) [ inl c ↦ absurd (cc (h c)) | inr c ↦ c ]

-- A wingman who is struck off is in no flight.
strike-Without :
    (r : Roster) (handle : String) (f : Flight)
    → Pairwise Apart r
    → of r handle ≡ some f
    → same f.lead handle ≡ false
    → All (Without handle) (update_first (λ _ g. has g handle) (without_member handle) r)
unfolding of update_first
strike-Without [] handle f v e n = tt
strike-Without ((k, g) ∷ r) handle f v e n = elim (Bool-cases (has g handle)) [
  | inl c ↦
      let his : g ≡ f = some-injective g f (rw c at e) in
      rw c (
        has-without_member_self handle g (subst (λ x. same x.lead handle ≡ false) (sym his) n),
        alone (k, g) r handle v.0 c,
      )
  | inr c ↦ rw c (c, strike-Without r handle f v.1 (rw c at e) n)
]

-- In a valid table, whoever leaves is in no flight, whether he led it or flew in it, or was in none.
leaves-of : (r : Roster) (handle : String) → IsValid r → of (leaves handle r).0 handle ≡ none
unfolding leaves
leaves-of r handle v = elim (Option-cases (of r handle)) [
  | inl e ↦ rw (e, leaves) e
  | inr (f, e) ↦ none-of (leaves handle r).0 handle (elim (Bool-cases (same f.lead handle)) [
    | inl g ↦ rw (e, g, leaves) (dissolve-Without r handle handle f v e (of-has r handle f e))
    | inr g ↦ elim (Bool-cases (is_empty_list (without_member handle f).members)) [
      | inl h ↦
          rw (e, g, h, leaves)
            (dissolve-All (Without handle) f.name
              (update_first (λ _ x. has x handle) (without_member handle) r)
              (strike-Without r handle f v.1 e g))
      | inr h ↦ rw (e, g, h, leaves) (strike-Without r handle f v.1 e g)
    ]
  ])
]

-- In a valid table, when the lead leaves, the flight goes with him: the call names it, and none of its people, himself
-- included, is in a flight any more.
leaves-lead :
    (r : Roster) (handle w : String) (f : Flight)
    → IsValid r
    → of r handle ≡ some f
    → same f.lead handle ≡ true
    → has f w ≡ true
    → ((leaves handle r).1 ≡ f.name) × (of (leaves handle r).0 w ≡ none)
unfolding leaves
leaves-lead r handle w f v e g m =
    rw (e, g, leaves) (refl, none-of (dissolve f.name r).0 w (dissolve-Without r handle w f v e m))

join-of :
    (r : Roster) (name handle : String) (f : Flight)
    → All (Without handle) r
    → called name r ≡ some f
    → of (update_first (λ k _. same k name) (with_member handle) r) handle
      ≡ some (with_member handle f)
unfolding of called update_first
join-of [] name handle f h e = absurd (cc)
join-of ((k, g) ∷ r) name handle f h e = elim (Bool-cases (same k name)) [
  | inl c ↦
      let his : g ≡ f = some-injective g f (rw c at e) in
      let now_in : has (with_member handle g) handle ≡ true =
        has-with_member handle g handle ∙ rw (h.0, same_refl handle) refl in
      rw (c, now_in) (ap (λ x. some (with_member handle x)) his)
  | inr c ↦ rw (c, h.0) (join-of r name handle f h.1 (rw c at e))
]

-- What is true of every flight is true of the one that a name calls.
called-All :
    (P : Entry → Type 0) (r : Roster) (name : String) (f : Flight)
    → All P r
    → called name r ≡ some f
    → (k : String) × P (k, f)
unfolding called
called-All P [] name f h e = absurd (cc)
called-All P ((k, g) ∷ r) name f h e = elim (Bool-cases (same k name)) [
  | inl c ↦ (k, subst (λ x. P (k, x)) (some-injective g f (rw c at e)) h.0)
  | inr c ↦ called-All P r name f h.1 (rw c at e)
]

refused-joined : (why : Refusal) (g : Flight) → ¬ (refused why ≡ joined g)
refused-joined why g e = cc

abbrev flight_or : Flight → Answer → Flight
flight_or f (joined g) = g
flight_or f (refused why) = f

joined-flight : (f g : Flight) → joined f ≡ joined g → f ≡ g
joined-flight f g e = ap (flight_or f) e

-- Somebody in no flight who is answered that he has joined one was measured within a mile,
-- and is in that flight.
pub join-near :
    (r : Roster) (name handle : String) (miles : Option ℕ) (g : Flight)
    → of r handle ≡ none
    → (join name handle miles r).1 ≡ joined g
    → ((d : ℕ) × (miles ≡ some d) × (d ≤ 100)) × (of (join name handle miles r).0 handle ≡ some g)
unfolding join
join-near r name handle miles g out e = elim (Option-cases (called name r)) [
  | inl c ↦ absurd (refused-joined (no_flight name) g (rw (c, join) at e))
  | inr (f, c) ↦
      let absent = (called-All (Without handle) r name f (of-none r handle out) c).1 in
      rw (c, absent, out, join) (near f c miles (rw (c, absent, out, join) at e))
]
  where
    near :
        (f : Flight)
        → called name r ≡ some f
        → (seen : Option ℕ) → (admit name handle f seen r).1 ≡ joined g
        → ((d : ℕ) × (seen ≡ some d) × (d ≤ 100))
          × (of (admit name handle f seen r).0 handle ≡ some g)
    near f c none e = absurd (refused-joined (unseen handle name) g e)
    near f c (some d) e = elim (Bool-cases (ltb join_nm d)) [
      | inl far ↦ absurd (refused-joined (too_far handle d name) g (rw far at e))
      | inr close ↦ rw close (
        (d, refl, ground arith),
        join-of r name handle f (of-none r handle out) c
            ∙ ap some (joined-flight (with_member handle f) g (rw close at e)),
      )
    ]
