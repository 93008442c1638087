-- ===== src/Client/Lines.antt =====
-- The lines of a stream of bytes, for src/marshall/radio/client.py: what the loop over `buf` takes off is
-- what stands before each newline.
use marshall.Prelude.{
  ℕ, zero, suc, ◌≤◌, ◌<◌, String, ◌≡◌, refl, subst, false, Option, none, some, List, [], ◌∷◌, ◌++◌,
  length, eqb, All, arith, Bool-cases, Option-cases, inl, inr, if◌then◌else◌,
}
use mathlib.Core.Option.{some-injective}
use marshall.Prelude.Dict.{Dict}
use marshall.Client.{Bytes, newline, cut, Message, harvest, take_lines, sent}

abbrev Split : Type 0
Split = List Bytes × Bytes

abbrev prepend : ℕ → Split → Split
prepend c ([], rest) = ([], c ∷ rest)
prepend c (l ∷ ls, rest) = ((c ∷ l) ∷ ls, rest)

-- The lines that end in a newline, and what is left.
unfoldable pub lines_of : Bytes → Split
lines_of [] = ([], [])
lines_of (c ∷ cs) = let r = lines_of cs in if eqb c newline then ([] ∷ r.0, r.1) else prepend c r

-- What more bytes make of a split.
abbrev pub join : Split → Bytes → Split
join s ys = (s.0 ++ (lines_of (s.1 ++ ys)).0, (lines_of (s.1 ++ ys)).1)

prepend-join :
    (c : ℕ) (s : Split) (ys : Bytes)
    → eqb c newline ≡ false
    → prepend c (join s ys) ≡ join (prepend c s) ys
unfolding lines_of
prepend-join c ([], rest) ys h = rw h refl
prepend-join c (l ∷ ls, rest) ys h = refl

pub lines_of-append : (xs ys : Bytes) → lines_of (xs ++ ys) ≡ join (lines_of xs) ys
unfolding lines_of
lines_of-append [] ys = refl
lines_of-append (c ∷ xs) ys = elim (Bool-cases (eqb c newline)) [
  | inl h ↦ rw (h, lines_of-append xs ys) refl
  | inr h ↦ rw (h, lines_of-append xs ys) (prepend-join c (lines_of xs) ys h)
]

-- No newline is left over.
pub lines_of-rest : (xs : Bytes) → lines_of (lines_of xs).1 ≡ ([], (lines_of xs).1)
unfolding lines_of
lines_of-rest [] = refl
lines_of-rest (c ∷ xs) = elim (Bool-cases (eqb c newline)) [
  | inl h ↦ rw h (lines_of-rest xs)
  | inr h ↦ rw h (left h (lines_of xs) (lines_of-rest xs))
]
  where
    left :
        eqb c newline ≡ false
        → (s : Split) → lines_of s.1 ≡ ([], s.1)
        → lines_of (prepend c s).1 ≡ ([], (prepend c s).1)
    left h ([], rest) r = rw (h, r) refl
    left h (l ∷ ls, rest) r = r

cut-none : (buf : Bytes) → cut buf ≡ none → lines_of buf ≡ ([], buf)
unfolding cut lines_of
cut-none [] h = refl
cut-none (c ∷ cs) h = elim (Bool-cases (eqb c newline)) [
  | inl e ↦ absurd (cc (rw e at h))
  | inr e ↦ elim (Option-cases (cut cs)) [
    | inl g ↦ rw (e, cut-none cs g) refl
    | inr (p, g) ↦ absurd (cc (rw (e, g) at h))
  ]
]

-- One cut is one line, and takes a byte at least.
IsCut : Bytes → Bytes × Bytes → Type 0
IsCut buf p =
    (lines_of buf ≡ (p.0 ∷ (lines_of p.1).0, (lines_of p.1).1)) × (length p.1 < length buf)

cut-IsCut : (buf : Bytes) (p : Bytes × Bytes) → cut buf ≡ some p → IsCut buf p
unfolding cut lines_of IsCut
cut-IsCut [] p h = absurd (cc)
cut-IsCut (c ∷ cs) p h = elim (Bool-cases (eqb c newline)) [
  | inl e ↦ subst (IsCut (c ∷ cs)) (some-injective ([], cs) p (rw e at h)) (rw e refl, omega arith)
  | inr e ↦ elim (Option-cases (cut cs)) [
    | inl g ↦ absurd (cc (rw (e, g) at h))
    | inr (q, g) ↦
        let more = cut-IsCut cs q g in
        subst (IsCut (c ∷ cs)) (some-injective (c ∷ q.0, q.1) p (rw (e, g) at h))
          (rw (e, more.0) refl, omega arith)
  ]
]

module _ (loads : Bytes → Option Message) where
  -- Each line is harvested, in order.
  unfoldable pub harvest_all : List Bytes → Dict String → Dict String
  harvest_all [] roster = roster
  harvest_all (l ∷ ls) roster = harvest_all ls (harvest loads l roster)

  pub harvest_all-append :
      (ks ls : List Bytes) (roster : Dict String)
      → harvest_all (ks ++ ls) roster ≡ harvest_all ls (harvest_all ks roster)
  unfolding harvest_all
  harvest_all-append [] ls roster = refl
  harvest_all-append (k ∷ ks) ls roster = harvest_all-append ks ls (harvest loads k roster)

  -- As many rounds as there are bytes are enough.
  pub take_lines-lines_of :
      (n : ℕ) (buf : Bytes) (roster : Dict String)
      → length buf ≤ n
      → take_lines loads n buf roster ≡ ((lines_of buf).1, harvest_all (lines_of buf).0 roster)
  unfolding take_lines harvest_all lines_of IsCut
  take_lines-lines_of zero [] roster h = refl
  take_lines-lines_of zero (c ∷ cs) roster h = absurd (omega arith)
  take_lines-lines_of (suc n) buf roster h = elim (Option-cases (cut buf)) [
    | inl g ↦ rw (g, cut-none buf g, take_lines) refl
    | inr (p, g) ↦
        let one = cut-IsCut buf p g in
        rw (g, one.0, take_lines)
          (take_lines-lines_of n p.1 (harvest loads p.0 roster) (omega arith))
  ]

-- A message has no newline: JSON escapes it.
abbrev pub IsLine : Bytes → Type 0
IsLine = All (λ c. eqb c newline ≡ false)

line-lines_of :
    (m ys : Bytes)
    → IsLine m
    → lines_of (m ++ newline ∷ ys) ≡ (m ∷ (lines_of ys).0, (lines_of ys).1)
unfolding lines_of
line-lines_of [] ys h = refl
line-lines_of (c ∷ m) ys h = rw (h.0, line-lines_of m ys h.1) refl

pub sent-lines_of : (ms : List Bytes) → All IsLine ms → lines_of (sent ms) ≡ (ms, [])
unfolding sent lines_of
sent-lines_of [] h = refl
sent-lines_of (m ∷ ms) h = rw (line-lines_of m (sent ms) h.0, sent-lines_of ms h.1) refl
