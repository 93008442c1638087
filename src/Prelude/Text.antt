-- ===== src/Prelude/Text.antt =====
-- Words as native strings: `in` over a tuple of words, and `str.lower` on the ASCII letters.
use Prim.Native.Char.{Char, code}
use Prim.Native.Nat.{ℕ, suc}
use Prim.Native.String.{String}
use mathlib.Core.Path.{◌≡◌, refl, ap, ap₂}
use mathlib.Core.Logic.{◌⊎◌, inl, inr}
use mathlib.Core.Bool.{Bool, true, false, ◌&&◌, ◌||◌}
use mathlib.Core.List.{List, [], ◌∷◌}
use native.Mathlib.Omega.{arith}
use text.Mathlib.Text.{◌==◌}
use text.Mathlib.TextEquality.{eq_iff}
use marshall.Prelude.Tests.{eqb, leb, Bool-cases, if◌then◌else◌}
use marshall.Prelude.Lists.{all, All}

-- word in words
abbrev pub is_in : String → List String → Bool
is_in w [] = false
is_in w (v ∷ vs) = w == v || is_in w vs

-- The capital letters beside the small ones.
abbrev capitals : List (Char × Char)
capitals =
    ("A", "a")
    ∷ ("B", "b")
    ∷ ("C", "c")
    ∷ ("D", "d")
    ∷ ("E", "e")
    ∷ ("F", "f")
    ∷ ("G", "g")
    ∷ ("H", "h")
    ∷ ("I", "i")
    ∷ ("J", "j")
    ∷ ("K", "k")
    ∷ ("L", "l")
    ∷ ("M", "m")
    ∷ ("N", "n")
    ∷ ("O", "o")
    ∷ ("P", "p")
    ∷ ("Q", "q")
    ∷ ("R", "r")
    ∷ ("S", "s")
    ∷ ("T", "t")
    ∷ ("U", "u")
    ∷ ("V", "v")
    ∷ ("W", "w")
    ∷ ("X", "x")
    ∷ ("Y", "y")
    ∷ ("Z", "z")
    ∷ []

abbrev lower_in : List (Char × Char) → Char → Char
lower_in [] c = c
lower_in ((big, small) ∷ rest) c = if eqb (code big) (code c) then small else lower_in rest c

unfoldable pub lower : String → String
lower String.[] = String.[]
lower (String.◌∷◌ c s) = String.◌∷◌ (lower_in capitals c) (lower s)

-- c.isspace(), on the first 256 characters
abbrev is_space : Char → Bool
is_space c =
    let n = code c in (leb 9 n && leb n 13) || ((leb 28 n && leb n 32) || (eqb n 133 || eqb n 160))

left_strip : String → String
left_strip String.[] = String.[]
left_strip (String.◌∷◌ c s) = let rest = left_strip s in if is_space c then rest else String.◌∷◌ c s

is_empty : String → Bool
is_empty String.[] = true
is_empty (String.◌∷◌ c s) = false

right_strip : String → String
right_strip String.[] = String.[]
right_strip (String.◌∷◌ c s) =
    let rest = right_strip s in if is_empty rest && is_space c then String.[] else String.◌∷◌ c rest

-- s.strip()
unfoldable pub strip : String → String
unfolding left_strip right_strip is_empty
strip s = right_strip (left_strip s)

-- s <= t, by the code points
unfoldable pub str_leb : String → String → Bool
str_leb String.[] t = true
str_leb (String.◌∷◌ c s) String.[] = false
str_leb (String.◌∷◌ c s) (String.◌∷◌ d t) =
    let rest = str_leb s t in if eqb (code c) (code d) then rest else leb (code c) (code d)

-- c.isalnum(), on the ASCII characters
abbrev is_alnum : Char → Bool
is_alnum c =
    let n = code c in (leb 48 n && leb n 57) || ((leb 65 n && leb n 90) || (leb 97 n && leb n 122))

-- what is left of a name when only its letters and digits are kept
unfoldable pub only_alnum : String → String
only_alnum String.[] = String.[]
only_alnum (String.◌∷◌ c s) =
    let rest = only_alnum s in if is_alnum c then String.◌∷◌ c rest else rest

-- len(s)
unfoldable pub str_len : String → ℕ
str_len String.[] = 0
str_len (String.◌∷◌ c s) = suc (str_len s)

-- s + t
unfoldable pub str_append : String → String → String
str_append String.[] t = t
str_append (String.◌∷◌ c s) t = String.◌∷◌ c (str_append s t)

-- s.startswith(t)
unfoldable pub begins_with : String → String → Bool
begins_with s String.[] = true
begins_with String.[] (String.◌∷◌ d t) = false
begins_with (String.◌∷◌ c s) (String.◌∷◌ d t) =
    let rest = begins_with s t in eqb (code c) (code d) && rest

-- t in s
unfoldable pub has_part : String → String → Bool
has_part String.[] t = t == ""
has_part (String.◌∷◌ c s) t = begins_with (String.◌∷◌ c s) t || has_part s t

pub eq_comm : (s t : String) → (s == t) ≡ (t == s)
eq_comm s t = ground (arith, eq_iff s t, eq_iff t s)

-- What holds of every word of a tuple holds of a word that is `in` it.
pub is_in-all :
    (good : String → Bool) (w : String) (ws : List String)
    → all good ws ≡ true
    → is_in w ws ≡ true
    → good w ≡ true
is_in-all good w [] g h = ground arith
is_in-all good w (v ∷ vs) g h = elim (Bool-cases (w == v)) [
  | inl e ↦ rw ((eq_iff w v).0 e) (ground arith)
  | inr e ↦ is_in-all good w vs (ground arith) (ground arith)
]

-- A small letter is no capital.
abbrev SmallStays : List (Char × Char) → Type 0
SmallStays = All (λ r. lower_in capitals r.1 ≡ r.1)

SmallStays-capitals : SmallStays capitals
SmallStays-capitals = assumption (refl, tt)

lower_in-cases :
    (rows : List (Char × Char)) (c : Char)
    → SmallStays rows
    → (lower_in rows c ≡ c) ⊎ (lower_in capitals (lower_in rows c) ≡ lower_in rows c)
lower_in-cases [] c h = inl refl
lower_in-cases ((big, small) ∷ rows) c h = elim (Bool-cases (eqb (code big) (code c))) [
  | inl e ↦ inr (rw e h.0)
  | inr e ↦ rw e (lower_in-cases rows c h.1)
]

lower_in_idem : (c : Char) → lower_in capitals (lower_in capitals c) ≡ lower_in capitals c
lower_in_idem c = elim (lower_in-cases capitals c SmallStays-capitals) [
  | inl e ↦ ap (lower_in capitals) e
  | inr e ↦ e
]

pub lower_idem : (w : String) → lower (lower w) ≡ lower w
unfolding lower
lower_idem String.[] = refl
lower_idem (String.◌∷◌ c s) = ap₂ String.◌∷◌ (lower_in_idem c) (lower_idem s)
