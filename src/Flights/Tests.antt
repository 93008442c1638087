-- ===== src/Flights/Tests.antt =====
-- Two flights over an evening, and the theorems about the table of flights at it.
use marshall.Prelude.{ℕ, ◌≤◌, ◌≡◌, refl, some, List, [], ◌∷◌, lower, strip}
use marshall.Prelude.Dict
use marshall.Flights.{
  same, Flight, has, Roster, of, create, dissolve, called, update_first, join, leaves, refused,
  too_far, speaking_as,
}
use marshall.Flights.Invariant.{IsValid}
use marshall.Flights.Keeping.{Request, creating, joining, serve, serve_all, serve_all-IsValid}
use marshall.Flights.Membership.{join-near}

abbrev apex : Flight
apex = record { name = "Apex"; lead = "Sockeye"; members = "Sockeye" ∷ "Andre" ∷ []; formed_at = 7 }

abbrev evening : List Request
evening = creating 0 "Apex" "Sockeye" (some 7) ∷ joining "apex" "Andre" (some 60) ∷ []

abbrev two_up : Roster
two_up = ("Apex", apex) ∷ []

serve_all-evening : serve_all evening [] ≡ two_up
unfolding serve_all serve create join of called update_first same has lower strip Dict.put
serve_all-evening = refl

-- A mile and a half is too far to join.
join-too_far : (join "apex" "Hoover" (some 150) two_up).1 ≡ refused (too_far "Hoover" 150 "apex")
unfolding join of called same has lower strip
join-too_far = refl

-- His own handle once his lead has gone home.
speaking_as-orphan : speaking_as "Andre" (leaves "sockeye " two_up).0 ≡ "Andre"
unfolding speaking_as leaves of dissolve same has lower strip
speaking_as-orphan = refl

serve_all-IsValid_example : IsValid (serve_all evening [])
serve_all-IsValid_example = serve_all-IsValid evening [] (tt, tt)

in_order : IsValid two_up
unfolding serve_all serve create join of called update_first same has lower strip Dict.put
in_order = serve_all-IsValid evening [] (tt, tt)

abbrev with_hoover : Flight
with_hoover = record {
  name = "Apex";
  lead = "Sockeye";
  members = "Sockeye" ∷ "Andre" ∷ "Hoover" ∷ [];
  formed_at = 7;
}

join-near_example :
    ((d : ℕ) × (some 90 ≡ some d) × (d ≤ 100))
    × (of (join "Apex" "Hoover" (some 90) two_up).0 "Hoover" ≡ some with_hoover)
unfolding join of called update_first same has lower strip
join-near_example = join-near two_up "Apex" "Hoover" (some 90) with_hoover refl refl
