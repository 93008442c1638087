-- ===== src/Flights/Invariant.antt =====
-- The table of flights of src/marshall/atc/flights.py, and what every call on it keeps.
use marshall.Prelude.{
  ℕ, String, ◌≡◌, refl, sym, subst, ◌∙◌, true, false, ◌||◌, Option, none, List, [], ◌∷◌, ◌++◌, ◌==◌,
  arith, eq_iff, All, All-map₂, Pairwise, Bool-cases, Option-cases, inl, inr,
}
use marshall.Prelude.Dict
use marshall.Flights.{same, Flight, has, Roster, of, some_name, opened, or_now, create}
use marshall.Flights.Same.{same_refl, same_comm, has-same}

abbrev pub Entry : Type 0
Entry = String × Flight

-- A flight is filed under its name.
abbrev pub Filed : Entry → Type 0
Filed e = e.0 ≡ e.1.name

-- Two flights have different names and nobody in common.
abbrev pub Apart : Entry → Entry → Type 0
Apart e g = (same e.0 g.0 ≡ false) × ((w : String) → has e.1 w ≡ true → has g.1 w ≡ false)

abbrev pub IsValid : Roster → Type 0
IsValid r = All Filed r × Pairwise Apart r

-- Somebody is not in a flight.
abbrev pub Without : String → Entry → Type 0
Without w e = has e.1 w ≡ false

pub of-none : (r : Roster) (w : String) → of r w ≡ none → All (Without w) r
unfolding of
of-none [] w h = tt
of-none ((k, f) ∷ r) w h = elim (Bool-cases (has f w)) [
  | inl e ↦ absurd (cc (rw e at h))
  | inr e ↦ (e, of-none r w (rw e at h))
]

pub none-of : (r : Roster) (w : String) → All (Without w) r → of r w ≡ none
unfolding of
none-of [] w h = refl
none-of ((k, f) ∷ r) w h = rw (h.0) (none-of r w h.1)

module _ {ℓ} {A : Type ℓ} where
  append-All {κ} : (P : A → Type κ) (xs : List A) (y : A) → All P xs → P y → All P (xs ++ y ∷ [])
  append-All P [] y h k = (k, tt)
  append-All P (x ∷ xs) y h k = (h.0, append-All P xs y h.1 k)

  append-Pairwise {κ} :
      (R : A → A → Type κ) (xs : List A) (y : A)
      → Pairwise R xs
      → All (λ x. R x y) xs
      → Pairwise R (xs ++ y ∷ [])
  append-Pairwise R [] y h k = (tt, tt)
  append-Pairwise R (x ∷ xs) y h k = (append-All (R x) xs y h.0 k.0, append-Pairwise R xs y h.1 k.1)

abbrev Unnamed : String → Entry → Type 0
Unnamed name e = same name e.0 ≡ false

unnamed : (name : String) (r : Roster) → some_name name r ≡ false → All (Unnamed name) r
unnamed name [] h = tt
unnamed name ((k, f) ∷ r) h = (ground arith, unnamed name r (ground arith))

-- A name that no flight has is filed last.
put-append :
    (r : Roster) (name : String) (f : Flight)
    → All (Unnamed name) r
    → Dict.put r name f ≡ r ++ (name, f) ∷ []
unfolding Dict.put
put-append [] name f h = refl
put-append ((k, g) ∷ r) name f h = elim (Bool-cases (name == k)) [
  | inl e ↦
      absurd (cc (same_refl name, subst (λ w. same name w ≡ false) (sym ((eq_iff name k).0 e)) h.0))
  | inr e ↦ rw (e, put-append r name f h.1) refl
]

-- A flight of one shares nobody with a flight that its lead is not in.
alone :
    (f : Flight) (name lead : String) (at : ℕ) (w : String)
    → has f lead ≡ false
    → has f w ≡ true
    → has (opened name lead at) w ≡ false
unfolding has
alone f name lead at w h k = elim (Bool-cases (same w lead)) [
  | inl e ↦ absurd (cc (has-same f w lead e))
  | inr e ↦ rw e refl
]

create-Apart :
    (r : Roster) (name lead : String) (at : ℕ)
    → All (Unnamed name) r
    → All (Without lead) r
    → All (λ e. Apart e (name, opened name lead at)) r
create-Apart r name lead at h k =
    All-map₂ (Unnamed name) (Without lead) (λ e. Apart e (name, opened name lead at)) r
      (λ e u v. (same_comm e.0 name ∙ u, λ w. alone e.1 name lead at w v)) h k

filed_last :
    (r : Roster) (name lead : String) (at : ℕ)
    → some_name name r ≡ false
    → of r lead ≡ none
    → IsValid r
    → IsValid (Dict.put r name (opened name lead at))
filed_last r name lead at h k v =
    let fresh = unnamed name r h in
    rw (put-append r name (opened name lead at) fresh) (
      append-All Filed r (name, opened name lead at) v.0 refl,
      append-Pairwise Apart r (name, opened name lead at) v.1
          (create-Apart r name lead at fresh (of-none r lead k)),
    )

pub create-IsValid :
    (clock : ℕ) (name lead : String) (now : Option ℕ) (r : Roster)
    → IsValid r
    → IsValid (create clock name lead now r).0
unfolding create
create-IsValid clock name lead now r v = elim (Bool-cases (name == "" || lead == "")) [
  | inl e ↦ rw e v
  | inr e ↦ elim (Bool-cases (some_name name r)) [
    | inl g ↦ rw (e, g) v
    | inr g ↦ elim (Option-cases (of r lead)) [
      | inl h ↦ rw (e, g, h) (filed_last r name lead (or_now now clock) g h v)
      | inr (other, h) ↦ rw (e, g, h) v
    ]
  ]
]
