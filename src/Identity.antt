-- ===== src/Identity.antt =====
-- src/marshall/atc/identity.py: who is on the radio. The units that a scope shows (`units_on`, which reads
-- them from the feed or from printed text) are an argument; the line `why` for the log is left out.
pub mod Order
pub mod Claims
mod Tests
use Prim.Native.Char.{Char, code}
use marshall.Prelude.{
  ℕ, zero, suc, String, Bool, true, false, not, ◌&&◌, ◌||◌, Option, none, some, List, [], ◌∷◌, ◌==◌,
  find_first, any, keep, leb, ltb, eqb, is_in, lower, str_len, str_append, has_part, if◌then◌else◌,
}
use marshall.Prelude.Dict
use marshall.Prelude.Dict.{Dict}
use marshall.Names
use marshall.Names.{squash, handle, split_at}

-- A unit of the simulator, as far as identity reads it.
pub record SimUnit : Type 0 where
  pub name : String
  pub callsign : String
  pub manned : Bool

-- A track that is "" is none, and so is a plan.
pub record Identity : Type 0 where
  pub callsign : String
  pub track : String
  pub authority : String
  pub plan : String
  pub who : String

-- Identity.__bool__
unfoldable pub is_known : Identity → Bool
is_known i = not (i.callsign == "")

-- The one there is; what follows if there is none; and nobody if it is a choice.
unfoldable pub pick {ℓ} : {A : Type ℓ} → List A → Option A → Option A
pick [] otherwise = otherwise
pick (u ∷ []) otherwise = some u
pick (u ∷ v ∷ vs) otherwise = none

unfoldable pub exact : String → List SimUnit → List SimUnit
exact k = keep (λ u. squash u.name == k)

unfoldable pub by_handle : String → List SimUnit → List SimUnit
by_handle h = keep (λ u. squash (handle u.name) == h)

unfoldable pub hits : String → List SimUnit → List SimUnit
hits k = keep (λ u. has_part (squash u.name) k || has_part k (squash u.name))

unfoldable pub unit_for_radio : String → List SimUnit → Option SimUnit
unit_for_radio srs_name units =
    let k = squash srs_name in
    let h = squash (handle srs_name) in
    let loose = pick (hits k units) none in
    if ltb (str_len k) 3
    then none
    else pick (exact k units) (if h == "" then loose else pick (by_handle h units) loose)

-- identity._matches
unfoldable pub matches : String → String → Bool
matches claim name = squash claim == squash name

-- \s , . ; : ! ?
abbrev is_break : Char → Bool
is_break c =
    let n = code c in
    (leb 9 n && leb n 13)
    || (eqb n 32 || (eqb n 44 || (eqb n 46 || (eqb n 59 || (eqb n 58 || (eqb n 33 || eqb n 63))))))

-- A run of at most so many words that is the key, the words before it being `run`.
unfoldable pub run_is : String → ℕ → String → List String → Bool
run_is key zero run ws = false
run_is key (suc n) run [] = false
run_is key (suc n) run (w ∷ ws) =
    let rest = run_is key n (str_append run w) ws in squash (str_append run w) == key || rest

unfoldable pub some_run_is : String → List String → Bool
some_run_is key [] = false
some_run_is key (w ∷ ws) = run_is key 4 "" (w ∷ ws) || some_run_is key ws

-- identity._names_plan
unfoldable pub names_plan : String → String → Bool
names_plan spoken label =
    let key = squash label in
    not (key == "") && some_run_is key (keep (λ w. not (w == "")) (split_at is_break spoken))

-- Registry.by_guid
abbrev pub Registry : Type 0
Registry = Dict Identity

-- Registry.forget
unfoldable pub forget : String → Registry → Registry
forget guid reg = Dict.remove reg guid

-- name in self.claimed_tracks(except_guid=guid)
unfoldable pub is_claimed : String → Registry → String → Bool
is_claimed guid [] name = false
is_claimed guid ((g, i) ∷ reg) name =
    (not (i.track == "") && (not (g == guid) && i.track == name)) || is_claimed guid reg name

-- Registry.by_elimination
unfoldable pub by_elimination : String → List SimUnit → Registry → Option SimUnit
by_elimination guid units reg =
    pick (keep (λ u. u.manned && not (is_claimed guid reg u.name)) units) none

-- a or b, of texts
abbrev or_text : String → String → String
or_text a b = if a == "" then b else a

abbrev callsign_of : Option Identity → String
callsign_of none = ""
callsign_of (some i) = i.callsign

-- Registry._handle_for
unfoldable pub handle_for : Option SimUnit → String → Option Identity → String
handle_for u srs_name prior =
    let got : String = elim u [ some v ↦ handle v.name | none ↦ handle srs_name ] in
    lower (or_text got (callsign_of prior))

abbrev was_tracked : Option Identity → Bool
was_tracked none = false
was_tracked (some i) = not (i.track == "")

-- The physical chain: by the radio's own name, and else as the one that it must be.
unfoldable pub physical : String → String → List SimUnit → Registry → Option SimUnit
physical guid srs_name units reg = elim (unit_for_radio srs_name units) [
  | some u ↦ some u
  | none ↦ if was_tracked (Dict.get reg guid) then none else by_elimination guid units reg
]

abbrev plan_claimed : String → List String → String
plan_claimed spoken plans =
    elim (find_first (λ n. not (spoken == "") && names_plan spoken n) plans) [
      | none ↦ ""
      | some n ↦ n
    ]

abbrev was_granted : Option Identity → Option Identity
was_granted none = none
was_granted (some i) = if is_in i.authority ("radar" ∷ "plan" ∷ []) then some i else none

-- Nobody on radar: somebody on the board whom he claims to be, whoever he was before, or nobody.
unfoldable pub by_claim : String → String → String → List String → Registry → Registry × Identity
by_claim guid srs_name spoken roster reg =
    let prior = Dict.get reg guid in
    let who = handle_for none srs_name prior in
    let nobody : Identity = record {
      callsign = "";
      track = "";
      authority = "";
      plan = "";
      who = who;
    } in
    elim (find_first (λ name. not (spoken == "") && matches spoken name) roster) [
      | some name ↦
          let ident : Identity = record {
            callsign = or_text who name;
            track = "";
            authority = "roster";
            plan = "";
            who = who;
          } in
          (Dict.put reg guid ident, ident)
      | none ↦ elim (was_granted prior) [ some i ↦ (reg, i) | none ↦ (reg, nobody) ]
    ]

-- Registry.resolve
unfoldable pub resolve :
    String
    → String
    → String
    → List SimUnit
    → List String
    → List String
    → Registry
    → Registry × Identity
resolve guid srs_name spoken units plans roster reg = elim (physical guid srs_name units reg) [
  | none ↦ by_claim guid srs_name spoken roster reg
  | some u ↦
      let label = handle_for (some u) srs_name (Dict.get reg guid) in
      let ident : Identity = record {
        callsign = label;
        track = u.name;
        authority = "radar";
        plan = plan_claimed spoken plans;
        who = label;
      } in
      (Dict.put reg guid ident, ident)
]
