-- ===== src/Filing/Keys.antt =====
-- The keys and labels of plans: `_NAME_OK`, `_LABEL_OK`, `key_for`, `next_key`, `_near` and `_words` of
-- src/marshall/atc/filing.py. The patterns are those of ASCII text without a newline at its end.
use Prim.Native.Char.{Char, code}
use marshall.Prelude.{
  ℕ, zero, suc, ◌+◌, ◌-◌, ◌/◌, ◌%◌, String, Bool, true, false, not, ◌&&◌, ◌||◌, Option, none, some,
  List, [], ◌∷◌, ◌==◌, keep, leb, eqb, is_in, lower, str_len, str_append, if◌then◌else◌,
}
use marshall.Names.{split_at}

-- [a-z0-9]
abbrev pub is_key_char : Char → Bool
is_key_char c = let n = code c in (leb 97 n && leb n 122) || (leb 48 n && leb n 57)

abbrev pub is_dash : Char → Bool
is_dash c = eqb (code c) 45

-- [A-Za-z]
abbrev is_letter : Char → Bool
is_letter c = let n = code c in (leb 97 n && leb n 122) || (leb 65 n && leb n 90)

unfoldable pub all_chars : (Char → Bool) → String → Bool
all_chars test String.[] = true
all_chars test (String.◌∷◌ c s) = test c && all_chars test s

abbrev pub in_key : Char → Bool
in_key c = is_key_char c || is_dash c

-- _NAME_OK.match
unfoldable pub name_ok : String → Bool
name_ok String.[] = false
name_ok (String.◌∷◌ c s) =
    is_key_char c && (all_chars in_key s && (leb 2 (str_len s) && leb (str_len s) 62))

-- _LABEL_OK.match
unfoldable pub label_ok : String → Bool
label_ok String.[] = false
label_ok (String.◌∷◌ c s) =
    is_letter c
    && (all_chars (λ d. is_letter d || (eqb (code d) 39 || is_dash d)) s
        && (leb 1 (str_len s) && leb (str_len s) 23))

-- s[:n]
unfoldable pub str_take : ℕ → String → String
str_take zero s = ""
str_take (suc n) String.[] = ""
str_take (suc n) (String.◌∷◌ c s) = String.◌∷◌ c (str_take n s)

-- re.sub(r"[^a-z0-9]+", "-", s); the flag is whether the run that ends here has its dash
unfoldable pub dashed : Bool → String → String
dashed in_run String.[] = ""
dashed in_run (String.◌∷◌ c s) =
    let out = dashed true s in
    if is_key_char c
    then String.◌∷◌ c (dashed false s)
    else if in_run
    then out
    else String.◌∷◌ "-" out

unfoldable pub left_dashes : String → String
left_dashes String.[] = ""
left_dashes (String.◌∷◌ c s) =
    let rest = left_dashes s in if is_dash c then rest else String.◌∷◌ c s

unfoldable pub right_dashes : String → String
right_dashes String.[] = ""
right_dashes (String.◌∷◌ c s) =
    let rest = right_dashes s in if rest == "" && is_dash c then "" else String.◌∷◌ c rest

unfoldable pub key_for : String → String
key_for label = str_take 63 (right_dashes (left_dashes (dashed false (lower label))))

abbrev digit_in : List String → ℕ → String
digit_in [] n = ""
digit_in (d ∷ ds) zero = d
digit_in (d ∷ ds) (suc n) = digit_in ds n

abbrev digit : ℕ → String
digit = digit_in ("0" ∷ "1" ∷ "2" ∷ "3" ∷ "4" ∷ "5" ∷ "6" ∷ "7" ∷ "8" ∷ "9" ∷ [])

-- str(n), of at most as many digits as the fuel
unfoldable pub decimal : ℕ → ℕ → String
decimal zero n = ""
decimal (suc fuel) n =
    let more = decimal fuel (n / 10) in
    if leb n 9 then digit n else str_append more (digit (n % 10))

-- f"{base}-{n}", of an n below 1000
unfoldable pub numbered : String → ℕ → String
numbered base n = str_append base (str_append "-" (decimal 3 n))

-- for n in range(n, n + count)
unfoldable pub count_on : ℕ → ℕ → String → List String → Option String
count_on zero n base taken = none
count_on (suc count) n base taken =
    let cand = numbered base n in
    let later = count_on count (suc n) base taken in if is_in cand taken then later else some cand

unfoldable pub next_key : String → List String → String
next_key name taken =
    let base = str_take 60 name in
    if not (base == "") && not (is_in base taken)
    then base
    else elim (count_on 998 2 base taken) [ none ↦ base | some cand ↦ cand ]

-- _near
unfoldable pub near : String → String → Bool
near a b =
    str_take 3 (lower a) == str_take 3 (lower b)
    && leb ((str_len a - str_len b) + (str_len b - str_len a)) 2

abbrev is_small : Char → Bool
is_small c = leb 97 (code c) && leb (code c) 122

unfoldable pub once : List String → List String
once [] = []
once (w ∷ ws) = let rest = once ws in if is_in w rest then rest else w ∷ rest

-- _words, as a list without repetitions
unfoldable pub words : String → List String
words text = once (keep (λ w. leb 3 (str_len w)) (split_at (λ c. not (is_small c)) (lower text)))
