-- ===== src/Identity/Tests.antt =====
-- Two squadron mates and a guest on the scope.
use marshall.Prelude.{
  ◌≡◌, ◌⊎◌, refl, true, none, some, [], ◌∷◌, lower, only_alnum, str_len, str_append, begins_with,
  has_part,
}
use mathlib.Core.List.{Permᴰ}
use marshall.Prelude.Dict
use marshall.Names.{squash, handle, split_at, join_words, is_tag}
use marshall.Identity.{
  SimUnit, pick, exact, by_handle, hits, unit_for_radio, names_plan, some_run_is, run_is, Registry,
  is_claimed, by_elimination, handle_for, physical, matches, by_claim, resolve,
}
use marshall.Identity.Order.{resolve-Permᴰ}
use marshall.Identity.Claims.{IsNamed, resolve-IsNamed}

abbrev hoover : SimUnit
hoover = record { name = "Hoover"; callsign = ""; manned = true }

abbrev hoover2 : SimUnit
hoover2 = record { name = "Hoover2"; callsign = ""; manned = true }

abbrev guest : SimUnit
guest = record { name = "New callsign"; callsign = ""; manned = true }

abbrev known : Registry
known =
    (
      "g1",
      record {
        callsign = "hoover";
        track = "Hoover";
        authority = "radar";
        plan = "";
        who = "hoover";
      },
    )
    ∷ []

-- Exact names first: a name that is part of another is no ambiguity.
unit_for_radio-exact : unit_for_radio "hoover" (hoover2 ∷ hoover ∷ []) ≡ some hoover
unfolding unit_for_radio exact pick squash lower only_alnum str_len
unit_for_radio-exact = refl

-- With two whose names contain it, there is nobody.
unit_for_radio-choice : unit_for_radio "Hoov" (hoover2 ∷ hoover ∷ []) ≡ none
unfolding unit_for_radio exact by_handle hits pick squash lower only_alnum str_len handle split_at
    join_words is_tag has_part begins_with
unit_for_radio-choice = refl

names_plan-words : names_plan "request clearance, samovar one." "SamovarOne" ≡ true
unfolding names_plan some_run_is run_is split_at squash lower only_alnum str_append
names_plan-words = refl

-- The guest's radio is like no name on the scope, and he is the only one left.
resolve-guest :
    (resolve "g2" "Visitor" "" (hoover ∷ guest ∷ []) [] [] known).1.track ≡ "New callsign"
unfolding resolve physical unit_for_radio exact by_handle hits pick by_elimination is_claimed squash
    lower only_alnum str_len handle split_at str_append join_words is_tag has_part begins_with
    Dict.get handle_for
resolve-guest = refl

-- Somebody whom he says he is, where the scope shows nobody.
resolve-claimed :
    (resolve "g3" "Sockeye" "Apex" [] [] ("Falcon" ∷ "Apex" ∷ []) known).1.callsign ≡ "sockeye"
unfolding resolve physical unit_for_radio exact by_handle hits pick by_elimination by_claim matches
    squash lower only_alnum str_len handle split_at str_append join_words is_tag handle_for Dict.get
resolve-claimed = refl

resolve-Permᴰ_example :
    resolve "g2" "Visitor" "" (hoover ∷ guest ∷ []) [] [] known
    ≡ resolve "g2" "Visitor" "" (guest ∷ hoover ∷ []) [] [] known
resolve-Permᴰ_example =
    resolve-Permᴰ "g2" "Visitor" "" (hoover ∷ guest ∷ []) (guest ∷ hoover ∷ []) [] [] known
      (Permᴰ.swap refl refl)

-- A second radio in the same aeroplane.
resolve-IsNamed_example :
    IsNamed "Hoover"
      (hoover ∷ guest ∷ [])
      (resolve "g2" "Hoover" "" (hoover ∷ guest ∷ []) [] [] known).1.track
    ⊎ (Dict.get known "g2" ≡ some (resolve "g2" "Hoover" "" (hoover ∷ guest ∷ []) [] [] known).1)
unfolding resolve physical unit_for_radio exact pick squash lower only_alnum str_len Dict.get
resolve-IsNamed_example = resolve-IsNamed "g2" "Hoover" "" (hoover ∷ guest ∷ []) [] [] known (
  "g1",
  record { callsign = "hoover"; track = "Hoover"; authority = "radar"; plan = ""; who = "hoover" },
  refl,
  refl,
  refl,
  refl,
)
