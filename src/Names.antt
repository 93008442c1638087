-- ===== src/Names.antt =====
-- src/marshall/core/names.py: one aeroplane under the spellings of its name, on ASCII names. Of another
-- name the source also folds the accents and keeps the letters.
mod Tests
use Prim.Native.Char.{Char, code}
use marshall.Prelude.{
  ℕ, zero, suc, ◌+◌, String, Bool, true, false, not, ◌&&◌, ◌||◌, List, [], ◌∷◌, ◌==◌, keep, leb,
  eqb, is_in, lower, only_alnum, strip, str_len, str_append, if◌then◌else◌,
}

unfoldable pub squash : String → String
squash s = only_alnum (lower s)

unfoldable pub same : String → String → Bool
same a b = let ka = squash a in let kb = squash b in not (ka == "") && ka == kb

abbrev pub min_evidence : ℕ
min_evidence = 3

unfoldable pub is_evidence : String → Bool
is_evidence name = leb min_evidence (str_len (squash name))

abbrev is_digit : Char → Bool
is_digit c = leb 48 (code c) && leb (code c) 57

-- s.isdigit(), on ASCII
unfoldable pub all_digits : String → Bool
all_digits String.[] = true
all_digits (String.◌∷◌ c s) = is_digit c && all_digits s

-- label_for
unfoldable pub label_for : String → String → String → String
label_for player_name callsign unit_name =
    let cs = strip callsign in
    if not (player_name == "")
    then player_name
    else if not (cs == "") && not (all_digits cs)
    then cs
    else unit_name

abbrev grow : Char → List String → List String
grow c [] = String.◌∷◌ c "" ∷ []
grow c (w ∷ ws) = String.◌∷◌ c w ∷ ws

-- What stands between the separators, empty pieces included.
unfoldable pub split_at : (Char → Bool) → String → List String
split_at is_sep String.[] = "" ∷ []
split_at is_sep (String.◌∷◌ c s) =
    let rest = split_at is_sep s in if is_sep c then "" ∷ rest else grow c rest

-- " ".join(parts)
unfoldable pub join_words : List String → String
join_words [] = ""
join_words (w ∷ []) = w
join_words (w ∷ v ∷ vs) = str_append w (str_append " " (join_words (v ∷ vs)))

abbrev drop_digits : String → String
drop_digits String.[] = ""
drop_digits (String.◌∷◌ c s) = if is_digit c then drop_digits s else String.◌∷◌ c s

abbrev starts_with_digit : String → Bool
starts_with_digit String.[] = false
starts_with_digit (String.◌∷◌ c s) = is_digit c

-- \d+(?:st|nd|rd|th)?
unfoldable pub is_tag : String → Bool
is_tag p =
    starts_with_digit p && is_in (lower (drop_digits p)) ("" ∷ "st" ∷ "nd" ∷ "rd" ∷ "th" ∷ [])

-- A space, an underscore or a dash.
abbrev pub is_separator : Char → Bool
is_separator c = eqb (code c) 32 || (eqb (code c) 95 || eqb (code c) 45)

unfoldable pub handle : String → String
handle name =
    let got =
      join_words (keep (λ p. not (p == "") && not (is_tag p)) (split_at is_separator name)) in
    if got == "" then name else got
