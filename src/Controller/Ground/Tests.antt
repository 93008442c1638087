-- ===== src/Controller/Ground/Tests.antt =====
-- A departure from the ramp to the holding point.
use marshall.Prelude.{String, ◌≡◌, refl, true, false, some, none, List, [], ◌∷◌, lower, only_alnum}
use marshall.Prelude.Dict
use marshall.Names
use marshall.Controller.{
  landed, advise_atis, say_again, taxi, refuse, write, say, anomaly, key, pro, procedure_of,
}
use marshall.Controller.Runway.{is_seen, owns}
use marshall.Controller.Ground.{
  new_aircraft, get_aircraft, seen_anyone, is_still_on, request_clearance, clearance_read_back,
  taxi_in, request_taxi, report_holding_short,
}
use marshall.Controller.Samples.{arrival, board}
use marshall.Controller.Waiting.{
  Call, clearance, read_back, taxi_out, short, answer, answer_all, IsWaiting,
}
use marshall.Controller.Agreed.{answer_all-IsWaiting}

abbrev out : List (String × Call)
out =
    ("Ace 1", clearance "Advise you have information Alpha." "Alpha")
    ∷ ("Ace 1", read_back (some false) ("squawk" ∷ []))
    ∷ ("Ace 1", taxi_out none)
    ∷ ("Ace 1", read_back (some true) [])
    ∷ ("Ace 1", taxi_out none)
    ∷ ("Ace 1", short)
    ∷ []

answer_all-out :
    (answer_all out (board [])).decided
    ≡ advise_atis "Ace 1" "Alpha"
      ∷ say_again "Ace 1" ("squawk" ∷ [])
      ∷ refuse "Ace 1" "clearance"
      ∷ taxi "Ace 1"
      ∷ []
unfolding answer_all answer get_aircraft new_aircraft request_clearance clearance_read_back
    request_taxi report_holding_short owns write say Dict.get Dict.put
answer_all-out = refl

-- Radar still has him on the strip: he is not recorded as off it.
taxi_in-on_the_strip :
    (taxi_in none none
      (arrival "Ace 1" landed none)
      (record (board (arrival "Ace 1" landed none ∷ [])) {
        seen_on_runway = ("batumi", "ACE 1" ∷ []) ∷ [];
        runway_by = ("Batumi", "Ace 1") ∷ [];
      })).runway_by
    ≡ ("Batumi", "Ace 1") ∷ []
unfolding taxi_in is_still_on seen_anyone is_seen owns write say anomaly key pro procedure_of
    Dict.get Dict.put Dict.values Names.squash Names.same lower only_alnum
taxi_in-on_the_strip = refl

-- Another's read-back gives him nothing.
abbrev anothers_calls : List (String × Call)
anothers_calls = ("Bravo 1", read_back (some true) []) ∷ ("Ace 1", taxi_out none) ∷ []

answer_all-IsWaiting_example : IsWaiting "Ace 1" (answer_all anothers_calls (board []))
unfolding Dict.get
answer_all-IsWaiting_example =
    answer_all-IsWaiting "Ace 1" anothers_calls (board []) (refl, (refl, tt))
      ((λ k a h. absurd (cc)), refl, refl)
