-- ===== src/Airspace/Altitude.antt =====
-- The lowest altitudes of src/marshall/core/airspace.py: what a vectoring chart promises.
use Prim.Native.Nat.{max}
use marshall.Prelude.{
  ◌⊎◌, inl, inr, Bool-cases, ℕ, ◌%◌, ◌≤◌, ◌≡◌, refl, sym, ap, subst, ◌∙◌, Bool, true, false, ◌&&◌,
  Option, none, some, List, [], ◌∷◌, Memᴰ, arith, ltb, leb, if◌then◌else◌,
}
use native.Mathlib.Nat.{le_trans}
use marshall.Airspace.{Cell, inside, best_overall, best_within, mva_for, msa_for, full_circle}

-- At every bearing the published sector altitude is one of two: 13,600 feet from 038 up to 217 and
-- 7,000 elsewhere.
pub msa_for_lem :
    (bearing : ℕ)
    → msa_for bearing none ≡ (
        if leb 3800 (bearing % full_circle) && ltb (bearing % full_circle) 21700
        then 13600
        else 7000)
unfolding msa_for inside
msa_for_lem bearing = ground arith

module _ (b : ℕ) where
  abbrev pub covers : ℕ → Cell → Bool
  covers range c = inside c.lo c.hi b && leb range c.out_to

  abbrev ring : Cell → ℕ × ℕ
  ring c = (c.out_to, c.alt)

  -- The ring that the loop holds after a cell.
  pick : ℕ → Cell → Cell → Cell
  pick range c d =
      if inside c.lo c.hi b && (leb range c.out_to && ltb c.out_to d.out_to) then c else d

  abbrev Picked : ℕ → Cell → Cell → Cell → Type 0
  Picked range c d e = (e.out_to ≤ d.out_to) × ((e ≡ d) ⊎ ((e ≡ c) × (covers range c ≡ true)))

  pick-Picked : (range : ℕ) (c d : Cell) → Picked range c d (pick range c d)
  unfolding pick
  pick-Picked range c d =
      elim (Bool-cases (inside c.lo c.hi b && (leb range c.out_to && ltb c.out_to d.out_to))) [
        | inl e ↦ rw e (ground arith, inr (refl, ground arith))
        | inr e ↦ rw e (omega arith, inl refl)
      ]

  pick-le : (range : ℕ) (c d : Cell) → covers range c ≡ true → (pick range c d).out_to ≤ c.out_to
  unfolding pick
  pick-le range c d h =
      elim (Bool-cases (inside c.lo c.hi b && (leb range c.out_to && ltb c.out_to d.out_to))) [
        | inl e ↦ rw e (omega arith)
        | inr e ↦ rw e (ground arith)
      ]

  best_within-pick :
      (range : ℕ) (c d : Cell) (cs : List Cell)
      → best_within (c ∷ cs) b range (some (ring d))
        ≡ best_within cs b range (some (ring (pick range c d)))
  unfolding best_within pick
  best_within-pick range c d cs =
      elim (Bool-cases (inside c.lo c.hi b && (leb range c.out_to && ltb c.out_to d.out_to))) [
        | inl e ↦ rw e
        | inr e ↦ rw e
      ]

  -- The loop from a ring that it has found: where it ends, and that nothing nearer is left out.
  abbrev Nearest : ℕ → List Cell → Cell → Cell → Type 0
  Nearest range cells d e =
      (best_within cells b range (some (ring d)) ≡ some (ring e))
      × (e.out_to ≤ d.out_to)
      × ((e ≡ d) ⊎ (Memᴰ e cells × (covers range e ≡ true)))
      × ((c : Cell) → Memᴰ c cells → covers range c ≡ true → e.out_to ≤ c.out_to)

  source :
      (range : ℕ) (c d e : Cell) (cs : List Cell)
      → ((e ≡ pick range c d) ⊎ (Memᴰ e cs × (covers range e ≡ true)))
      → (e ≡ d) ⊎ (Memᴰ e (c ∷ cs) × (covers range e ≡ true))
  source range c d e cs (inr (m, h)) = inr (Memᴰ.tail m, h)
  source range c d e cs (inl same) = elim (pick-Picked range c d).1 [
    | inl old ↦ inl (same ∙ old)
    | inr (new, h) ↦
        inr (Memᴰ.head (same ∙ new), subst (λ x. covers range x ≡ true) (sym (same ∙ new)) h)
  ]

  nearest :
      (range : ℕ) (c d e x : Cell) (cs : List Cell)
      → e.out_to ≤ (pick range c d).out_to
      → ((y : Cell) → Memᴰ y cs → covers range y ≡ true → e.out_to ≤ y.out_to)
      → Memᴰ x (c ∷ cs)
      → covers range x ≡ true
      → e.out_to ≤ x.out_to
  nearest range c d e x cs le rest (Memᴰ.head same) h =
      subst (λ (y : Cell). e.out_to ≤ y.out_to) (sym same)
        (le_trans le (pick-le range c d (subst (λ x. covers range x ≡ true) same h)))
  nearest range c d e x cs le rest (Memᴰ.tail m) h = rest x m h

  within-from : (range : ℕ) (cells : List Cell) (d : Cell) → (e : Cell) × Nearest range cells d e
  unfolding best_within
  within-from range [] d = (d, (refl, omega arith, inl refl, λ c m. elim m [ ]))
  within-from range (c ∷ cs) d =
      let (e, (found, le, src, rest)) = within-from range cs (pick range c d) in
      (
        e,
        (
          best_within-pick range c d cs ∙ found,
          le_trans le (pick-Picked range c d).0,
          source range c d e cs src,
          λ x m. nearest range c d e x cs le rest m,
        ),
      )

  -- The loop from no ring at all, over a chart in which some cell covers the position.
  abbrev Ringed : ℕ → List Cell → Cell → Type 0
  Ringed range cells e =
      (best_within cells b range none ≡ some (ring e))
      × (Memᴰ e cells × (covers range e ≡ true))
      × ((c : Cell) → Memᴰ c cells → covers range c ≡ true → e.out_to ≤ c.out_to)

  opens :
      (range : ℕ) (c : Cell) (cs : List Cell)
      → covers range c ≡ true
      → best_within (c ∷ cs) b range none ≡ best_within cs b range (some (ring c))
  unfolding best_within
  opens range c cs h = ap (best_within cs b range) (ground arith)

  skips :
      (range : ℕ) (c : Cell) (cs : List Cell)
      → covers range c ≡ false
      → best_within (c ∷ cs) b range none ≡ best_within cs b range none
  unfolding best_within
  skips range c cs h = ap (best_within cs b range) (ground arith)

  -- A cell that covers the position is not one that does not.
  not_head :
      (range : ℕ) (c x : Cell) (cs : List Cell)
      → covers range c ≡ false
      → covers range x ≡ true
      → Memᴰ x (c ∷ cs)
      → Memᴰ x cs
  not_head range c x cs n h (Memᴰ.head same) =
      absurd (cc (n, subst (λ y. covers range y ≡ true) same h))
  not_head range c x cs n h (Memᴰ.tail m) = m

  or_head :
      (range : ℕ) (c e : Cell) (cs : List Cell)
      → covers range c ≡ true
      → ((e ≡ c) ⊎ (Memᴰ e cs × (covers range e ≡ true)))
      → Memᴰ e (c ∷ cs) × (covers range e ≡ true)
  or_head range c e cs h (inl same) =
      (Memᴰ.head same, subst (λ x. covers range x ≡ true) (sym same) h)
  or_head range c e cs h (inr (m, k)) = (Memᴰ.tail m, k)

  nearest_opened :
      (c e x : Cell) (cs : List Cell) (range : ℕ)
      → e.out_to ≤ c.out_to
      → ((y : Cell) → Memᴰ y cs → covers range y ≡ true → e.out_to ≤ y.out_to)
      → Memᴰ x (c ∷ cs)
      → covers range x ≡ true
      → e.out_to ≤ x.out_to
  nearest_opened c e x cs range le rest (Memᴰ.head same) h =
      subst (λ (y : Cell). e.out_to ≤ y.out_to) (sym same) le
  nearest_opened c e x cs range le rest (Memᴰ.tail m) h = rest x m h

  within-none :
      (range : ℕ) (cells : List Cell) (x : Cell)
      → Memᴰ x cells
      → covers range x ≡ true
      → (e : Cell) × Ringed range cells e
  within-none range [] x m h = elim m [ ]
  within-none range (c ∷ cs) x m h = elim (Bool-cases (covers range c)) [
    | inl hit ↦
        let (e, (found, le, src, rest)) = within-from range cs c in
        (
          e,
          (
            opens range c cs hit ∙ found,
            or_head range c e cs hit src,
            λ y k. nearest_opened c e y cs range le rest k,
          ),
        )
    | inr miss ↦
        let (e, (found, (k, hk), rest)) =
          within-none range cs x (not_head range c x cs miss h m) h in
        (
          e,
          (
            skips range c cs miss ∙ found,
            (Memᴰ.tail k, hk),
            λ y l g. rest y (not_head range c y cs miss g l) g,
          ),
        )
  ]

  overall-le :
      (cells : List Cell) (a : ℕ) → (m : ℕ) × (best_overall cells b (some a) ≡ some m) × (a ≤ m)
  unfolding best_overall
  overall-le [] a = (a, refl, omega arith)
  overall-le (c ∷ cs) a = elim (Bool-cases (inside c.lo c.hi b)) [
    | inl e ↦ let (m, found, le) = overall-le cs (max a c.alt) in (m, rw e found, omega arith)
    | inr e ↦ let (m, found, le) = overall-le cs a in (m, rw e found, le)
  ]

  overall-opened :
      (c : Cell) (cs : List Cell) (best : Option ℕ)
      → inside c.lo c.hi b ≡ true
      → (m : ℕ) × (best_overall (c ∷ cs) b best ≡ some m) × (c.alt ≤ m)
  unfolding best_overall
  overall-opened c cs none h = let (m, found, le) = overall-le cs c.alt in (m, rw h found, le)
  overall-opened c cs (some a) h =
      let (m, found, le) = overall-le cs (max a c.alt) in (m, rw h found, omega arith)

  overall-reaches :
      (cells : List Cell) (best : Option ℕ) (x : Cell)
      → Memᴰ x cells
      → inside x.lo x.hi b ≡ true
      → (m : ℕ) × (best_overall cells b best ≡ some m) × (x.alt ≤ m)
  unfolding best_overall
  overall-reaches [] best x m h = elim m [ ]
  overall-reaches (c ∷ cs) best x (Memᴰ.tail m) h = overall-reaches cs _ x m h
  overall-reaches (c ∷ cs) best x (Memᴰ.head same) h =
      let (m, found, le) =
        overall-opened c cs best (subst (λ (y : Cell). inside y.lo y.hi b ≡ true) same h) in
      (m, found, subst (λ (y : Cell). y.alt ≤ m) (sym same) le)

abbrev pub at_bearing : ℕ → ℕ
at_bearing bearing = bearing % full_circle

-- Where some cell of the chart covers a bearing and a range, the altitude given for both is that of
-- a covering cell with the smallest ring of all; and the altitude for the bearing alone is no lower.
pub mva_for-nearest :
    (bearing range : ℕ) (cells : List Cell) (x : Cell)
    → Memᴰ x cells
    → covers (at_bearing bearing) range x ≡ true
    → (e : Cell) × (mva_for bearing (some range) cells ≡ e.alt)
      × Memᴰ e cells
      × (covers (at_bearing bearing) range e ≡ true)
      × (e.out_to ≤ x.out_to)
      × (e.alt ≤ mva_for bearing none cells)
unfolding mva_for
mva_for-nearest bearing range cells x m h =
    let b = at_bearing bearing in
    let (e, (found, (k, hk), rest)) = within-none b range cells x m h in
    let (a, over, le) = overall-reaches b cells none e k (ground arith) in
    (e, rw (found, mva_for), k, hk, rest x m h, rw (over, mva_for) le)
