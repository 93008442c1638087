-- ===== src/Flights/Keeping.antt =====
-- Joining, leaving and breaking up, in src/marshall/atc/flights.py, keep the table of flights in order.
use marshall.Prelude.{
  ℕ, String, ◌≡◌, refl, ◌∙◌, Bool, true, false, Option, none, some, List, [], ◌∷◌, ltb, arith, All,
  All-map, All-map₂, Pairwise, Bool-cases, Option-cases, inl, inr,
}
use marshall.Flights.{
  same, Flight, has, Roster, of, create, dissolve, called, update_first, with_member,
  without_member, admit, join, join_nm, is_empty_list, leaves,
}
use marshall.Flights.Same.{has-same, has-with_member, has-without_member}
use marshall.Flights.Invariant.{Entry, Filed, Apart, IsValid, Without, of-none, create-IsValid}

module _ {κ} (P : Entry → Type κ) where
  pub dissolve-All : (name : String) (r : Roster) → All P r → All P (dissolve name r).0
  unfolding dissolve
  dissolve-All name [] h = tt
  dissolve-All name ((k, f) ∷ r) h = elim (Bool-cases (same k name)) [
    | inl e ↦ rw e (h.1)
    | inr e ↦ rw e (h.0, dissolve-All name r h.1)
  ]

  update-All :
      (test : String → Flight → Bool) (change : Flight → Flight) (r : Roster)
      → All P r
      → All (λ e. P (e.0, change e.1)) r
      → All P (update_first test change r)
  unfolding update_first
  update-All test change [] h k = tt
  update-All test change ((j, f) ∷ r) h k = elim (Bool-cases (test j f)) [
    | inl e ↦ rw e (k.0, h.1)
    | inr e ↦ rw e (h.0, update-All test change r h.1 k.1)
  ]

dissolve-Pairwise :
    (name : String) (r : Roster) → Pairwise Apart r → Pairwise Apart (dissolve name r).0
unfolding dissolve
dissolve-Pairwise name [] h = tt
dissolve-Pairwise name ((k, f) ∷ r) h = elim (Bool-cases (same k name)) [
  | inl e ↦ rw e (h.1)
  | inr e ↦ rw e (dissolve-All (Apart (k, f)) name r h.0, dissolve-Pairwise name r h.1)
]

pub dissolve-IsValid : (name : String) (r : Roster) → IsValid r → IsValid (dissolve name r).0
dissolve-IsValid name r v = (dissolve-All Filed name r v.0, dissolve-Pairwise name r v.1)

-- A change keeps apart what it leaves of the flight's people, and those that no flight has.
abbrev IsCareful : (Flight → Flight) → (Entry → Type 0) → Type 0
IsCareful change Free =
    (f : Flight)
    → ((f.name ≡ (change f).name)
        × ((g : Entry)
            → Free g
            → (w : String) → has (change f) w ≡ true
            → has f w ≡ false
            → has g.1 w ≡ false))

module _ (test : String → Flight → Bool) (change : Flight → Flight) (Free : Entry → Type 0)
    (careful : IsCareful change Free) where
  Apart-left :
      (k : String) (f : Flight) (g : Entry) → Free g → Apart (k, f) g → Apart (k, change f) g
  Apart-left k f g free h = (
    h.0,
    λ w m. elim (Bool-cases (has f w)) [ inl e ↦ h.1 w e | inr e ↦ (careful f).1 g free w m e ],
  )

  Apart-right :
      (e : Entry) (k : String) (f : Flight) → Free e → Apart e (k, f) → Apart e (k, change f)
  Apart-right e k f free h = (
    h.0,
    λ w m. elim (Bool-cases (has (change f) w)) [
      | inr gone ↦ gone
      | inl his ↦ absurd (cc ((careful f).1 e free w his (h.1 w m)))
    ],
  )

  update-Pairwise :
      (r : Roster) → All Free r → Pairwise Apart r → Pairwise Apart (update_first test change r)
  unfolding update_first
  update-Pairwise [] free h = tt
  update-Pairwise ((k, f) ∷ r) free h = elim (Bool-cases (test k f)) [
    | inl e ↦
        rw e (All-map₂ Free (Apart (k, f)) (Apart (k, change f)) r (Apart-left k f) free.1 h.0, h.1)
    | inr e ↦ rw e (
      update-All (Apart (k, f)) test change r h.0 (
          All-map (Apart (k, f)) (λ g. Apart (k, f) (g.0, change g.1)) r
            (λ g. Apart-right (k, f) g.0 g.1 free.0) h.0),
      update-Pairwise r free.1 h.1,
    )
  ]

  pub update-IsValid : (r : Roster) → All Free r → IsValid r → IsValid (update_first test change r)
  update-IsValid r free v = (
    update-All Filed test change r v.0
        (All-map Filed (λ e. Filed (e.0, change e.1)) r (λ e h. h ∙ (careful e.1).0) v.0),
    update-Pairwise r free v.1,
  )

with_member-careful : (handle : String) → IsCareful (with_member handle) (Without handle)
with_member-careful handle f = (
  refl,
  λ g free w m gone.
      let is_him : same w handle ≡ true = ground (arith, has-with_member handle f w) in
      has-same g.1 w handle is_him ∙ free,
)

without_member-careful : (handle : String) → IsCareful (without_member handle) (λ e. Unit)
without_member-careful handle f =
    (refl, λ g free w m gone. absurd (cc (has-without_member handle f w m)))

pub join-IsValid :
    (name handle : String) (miles : Option ℕ) (r : Roster)
    → IsValid r
    → IsValid (join name handle miles r).0
unfolding join
join-IsValid name handle miles r v = elim (Option-cases (called name r)) [
  | inl e ↦ rw (e, join) v
  | inr (f, e) ↦ elim (Bool-cases (has f handle)) [
    | inl g ↦ rw (e, g, join) v
    | inr g ↦ elim (Option-cases (of r handle)) [
      | inr (other, h) ↦ rw (e, g, h, join) v
      | inl h ↦ rw (e, g, h, join) (joining f (of-none r handle h) miles)
    ]
  ]
]
  where
    joining :
        (f : Flight)
        → All (Without handle) r
        → (seen : Option ℕ) → IsValid (admit name handle f seen r).0
    joining f free none = v
    joining f free (some d) = elim (Bool-cases (ltb join_nm d)) [
      | inl far ↦ rw far v
      | inr near ↦ rw near (
          update-IsValid (λ k _. same k name) (with_member handle) (Without handle)
            (with_member-careful handle) r free v)
    ]

abbrev Anyone : Entry → Type 0
Anyone e = Unit

free-Anyone : (r : Roster) → All {0, 0} Anyone r
free-Anyone [] = tt
free-Anyone (e ∷ r) = (tt, free-Anyone r)

strike-IsValid :
    (handle : String) (r : Roster)
    → IsValid r
    → IsValid (update_first (λ _ g. has g handle) (without_member handle) r)
strike-IsValid handle r v =
    update-IsValid (λ _ g. has g handle) (without_member handle) Anyone
      (without_member-careful handle) r (free-Anyone r) v

pub leaves-IsValid : (handle : String) (r : Roster) → IsValid r → IsValid (leaves handle r).0
unfolding leaves
leaves-IsValid handle r v = elim (Option-cases (of r handle)) [
  | inl e ↦ rw (e, leaves) v
  | inr (f, e) ↦ elim (Bool-cases (same f.lead handle)) [
    | inl g ↦ rw (e, g, leaves) (dissolve-IsValid f.name r v)
    | inr g ↦ elim (Bool-cases (is_empty_list (without_member handle f).members)) [
      | inl h ↦
          rw (e, g, h, leaves)
            (dissolve-IsValid f.name (update_first (λ _ h. has h handle) (without_member handle) r)
              (strike-IsValid handle r v))
      | inr h ↦ rw (e, g, h, leaves) (strike-IsValid handle r v)
    ]
  ]
]

-- The calls that change the table.
pub data Request : Type 0 where
  creating : ℕ → String → String → Option ℕ → Request
  joining : String → String → Option ℕ → Request
  leaving : String → Request
  breaking_up : String → Request

unfoldable pub serve : Request → Roster → Roster
serve (creating clock name lead now) r = (create clock name lead now r).0
serve (joining name handle miles) r = (join name handle miles r).0
serve (leaving handle) r = (leaves handle r).0
serve (breaking_up name) r = (dissolve name r).0

unfoldable pub serve_all : List Request → Roster → Roster
serve_all [] r = r
serve_all (q ∷ qs) r = serve_all qs (serve q r)

serve-IsValid : (q : Request) (r : Roster) → IsValid r → IsValid (serve q r)
unfolding serve
serve-IsValid (creating clock name lead now) r v = create-IsValid clock name lead now r v
serve-IsValid (joining name handle miles) r v = join-IsValid name handle miles r v
serve-IsValid (leaving handle) r v = leaves-IsValid handle r v
serve-IsValid (breaking_up name) r v = dissolve-IsValid name r v

-- Any list of calls keeps the table valid: flights filed under their names, no two of one name, and
-- nobody in two.
pub serve_all-IsValid : (qs : List Request) (r : Roster) → IsValid r → IsValid (serve_all qs r)
unfolding serve_all
serve_all-IsValid [] r v = v
serve_all-IsValid (q ∷ qs) r v = serve_all-IsValid qs (serve q r) (serve-IsValid q r v)
