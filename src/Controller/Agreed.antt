-- ===== src/Controller/Agreed.antt =====
-- Nobody taxies out on a clearance that he has not read back: the calls on the ground of
-- src/marshall/atc/controller.py, in any order.
use marshall.Prelude.{
  All, String, ◌≡◌, refl, Bool, true, false, ◌&&◌, Option, none, some, List, [], ◌∷◌, ◌==◌, arith,
  Bool-cases, Option-cases, inl, inr, if◌then◌else◌,
}
use marshall.Prelude.Dict
use marshall.Stations.{Station}
use marshall.Controller.{
  Aircraft, refuse, advise_atis, say_again, taxi, parking, Engine, write, say, anomaly, key,
}
use marshall.Controller.Runway.{free_runway, owns}
use marshall.Controller.Ground.{
  get_aircraft, is_still_on, request_clearance, clearance_read_back, taxi_in, has_agreed,
  request_taxi, report_holding_short, note_clearance_agreed,
}
use marshall.Controller.Waiting.{
  Call, clearance, read_back, note, taxi_out, short, clear_of_runway, answer, answer_all, agrees,
  is_agreement, IsWaiting, say-IsWaiting, write-IsWaiting, got-IsWaiting,
}

module _ (cs : String) (ac : Aircraft) (e : Engine) (h : IsWaiting cs e)
    (g : (ac.callsign == cs && has_agreed ac.clearance_agreed) ≡ false) where
  request_clearance-IsWaiting :
      (extra letter : String) → IsWaiting cs (request_clearance extra letter ac e)
  unfolding request_clearance
  request_clearance-IsWaiting extra letter = elim (Bool-cases (extra == "")) [
    | inl c ↦ rw (c, request_clearance) wrote
    | inr c ↦ elim (Bool-cases (letter == "")) [
      | inl d ↦ rw (c, d, request_clearance) wrote
      | inr d ↦
          rw (c, d, request_clearance)
            (say-IsWaiting cs (advise_atis ac.callsign letter) _ wrote refl)
    ]
  ]
    where
      wrote : IsWaiting cs (write (record ac { sortie_phase = "clearance"; last_report_t = e.t }) e)
      wrote =
          write-IsWaiting cs (record ac { sortie_phase = "clearance"; last_report_t = e.t }) e h g

  clearance_read_back-IsWaiting :
      (correct : Option Bool) (missed : List String)
      → (ac.callsign == cs && agrees (read_back correct missed)) ≡ false
      → IsWaiting cs (clearance_read_back correct missed ac e)
  unfolding clearance_read_back
  clearance_read_back-IsWaiting (some true) missed n =
      write-IsWaiting cs
        (record ac { last_report_t = e.t; sortie_phase = "taxi"; clearance_agreed = some true }) e h
        n
  clearance_read_back-IsWaiting (some false) [] n =
      write-IsWaiting cs (record ac { last_report_t = e.t }) e h g
  clearance_read_back-IsWaiting (some false) (m ∷ ms) n =
      say-IsWaiting cs (say_again ac.callsign (m ∷ ms))
        (write (record ac { last_report_t = e.t }) e)
        (write-IsWaiting cs (record ac { last_report_t = e.t }) e h g) refl
  clearance_read_back-IsWaiting none missed n =
      write-IsWaiting cs (record ac { last_report_t = e.t }) e h g

  -- Leave to taxi is given to whoever has agreed, and that is another.
  request_taxi-IsWaiting : (me : Option Station) → IsWaiting cs (request_taxi me ac e)
  unfolding request_taxi
  request_taxi-IsWaiting me = elim (Bool-cases (owns me "ground")) [
    | inr c ↦
        rw (c, request_taxi)
          (say-IsWaiting cs (refuse ac.callsign "ground") (write here e)
            (write-IsWaiting cs here e h g) refl)
    | inl c ↦ elim (Bool-cases (has_agreed ac.clearance_agreed)) [
      | inr d ↦
          rw (c, d, request_taxi)
            (say-IsWaiting cs (refuse ac.callsign "clearance")
              (write (record here { sortie_phase = "clearance" }) e)
              (write-IsWaiting cs (record here { sortie_phase = "clearance" }) e h g) refl)
      | inl d ↦
          rw (c, d, request_taxi)
            (say-IsWaiting cs (taxi ac.callsign) (write here e) (write-IsWaiting cs here e h g)
              (ground arith))
    ]
  ]
    where
      here : Aircraft
      here = record ac { sortie_phase = "taxi"; last_report_t = e.t }

  report_holding_short-IsWaiting : IsWaiting cs (report_holding_short ac e)
  unfolding report_holding_short
  report_holding_short-IsWaiting =
      write-IsWaiting cs (record ac { sortie_phase = "holding_short"; last_report_t = e.t }) e h g

  taxi_in-IsWaiting : (me gnd : Option Station) → IsWaiting cs (taxi_in me gnd ac e)
  unfolding taxi_in free_runway anomaly
  taxi_in-IsWaiting me gnd = told moved_on waits
    where
      here : Aircraft
      here = record ac { sortie_phase = "taxi_in"; last_report_t = e.t }

      told :
          (b : Engine)
          → IsWaiting cs b
          → IsWaiting cs (
              if owns me "ground"
              then say (parking ac.callsign) b
              else elim gnd [ none ↦ b | some s ↦ say (refuse ac.callsign "ground") b ])
      told b w = elim (Bool-cases (owns me "ground")) [
        | inl c ↦ rw c (say-IsWaiting cs (parking ac.callsign) b w refl)
        | inr c ↦ elim (Option-cases gnd) [
          | inl d ↦ rw (c, d) w
          | inr (s, d) ↦ rw (c, d) (say-IsWaiting cs (refuse ac.callsign "ground") b w refl)
        ]
      ]

      off : Aircraft
      off = record here { runway_vacated = true }

      moved_on : Engine
      moved_on =
          if is_still_on ac e
          then write here (anomaly ac.callsign e)
          else write off (free_runway (key e (some ac)) e)

      waits : IsWaiting cs moved_on
      waits = elim (Bool-cases (is_still_on ac e)) [
        | inl c ↦ rw c (write-IsWaiting cs here (anomaly ac.callsign e) h g)
        | inr c ↦ rw c (write-IsWaiting cs off (free_runway (key e (some ac)) e) h g)
      ]

note_clearance_agreed-IsWaiting :
    (cs who : String) (agreed : Bool) (e : Engine)
    → IsWaiting cs e
    → is_agreement cs (who, note agreed) ≡ false
    → IsWaiting cs (note_clearance_agreed who agreed e)
unfolding note_clearance_agreed
note_clearance_agreed-IsWaiting cs who agreed e h n =
    elim (Option-cases (Dict.get e.aircraft who)) [
      | inl c ↦ rw (c, note_clearance_agreed) h
      | inr (ac, c) ↦
          rw (c, note_clearance_agreed)
            (write-IsWaiting cs (record ac { clearance_agreed = some agreed }) e h
              (rw (h.0 who ac c) (noted agreed n)))
    ]
  where
    noted :
        (agreed : Bool) → is_agreement cs (who, note agreed) ≡ false → (who == cs && agreed) ≡ false
    noted true m = m
    noted false m = ground arith

answer-IsWaiting :
    (cs who : String) (c : Call) (e : Engine)
    → IsWaiting cs e
    → is_agreement cs (who, c) ≡ false
    → IsWaiting cs (answer who c e)
unfolding answer
answer-IsWaiting cs who (clearance extra letter) e h n =
    let got = got-IsWaiting cs who e h in
    request_clearance-IsWaiting cs (get_aircraft who e) e h got.1 extra letter
answer-IsWaiting cs who (read_back correct missed) e h n =
    let got = got-IsWaiting cs who e h in
    clearance_read_back-IsWaiting cs (get_aircraft who e) e h got.1 correct missed (rw got.0 n)
answer-IsWaiting cs who (note agreed) e h n = note_clearance_agreed-IsWaiting cs who agreed e h n
answer-IsWaiting cs who (taxi_out me) e h n =
    request_taxi-IsWaiting cs (get_aircraft who e) e h (got-IsWaiting cs who e h).1 me
answer-IsWaiting cs who short e h n =
    report_holding_short-IsWaiting cs (get_aircraft who e) e h (got-IsWaiting cs who e h).1
answer-IsWaiting cs who (clear_of_runway me gnd) e h n =
    taxi_in-IsWaiting cs (get_aircraft who e) e h (got-IsWaiting cs who e h).1 me gnd

-- On a board where every aircraft stands under its callsign, and whatever calls on the ground are heard
-- from anybody and in any order: somebody whose clearance is not agreed, be it that none was given to him
-- (`None`) or that it was not read back, and who has no leave to taxi to the runway, gets none as long as no
-- call among them makes his clearance agreed, by a correct read-back or by the agent's note of one.
pub answer_all-IsWaiting :
    (cs : String) (calls : List (String × Call)) (e : Engine)
    → All (λ c. is_agreement cs c ≡ false) calls
    → IsWaiting cs e
    → IsWaiting cs (answer_all calls e)
unfolding answer_all
answer_all-IsWaiting cs [] e n h = h
answer_all-IsWaiting cs ((who, c) ∷ calls) e n h =
    answer_all-IsWaiting cs calls (answer who c e) n.1 (answer-IsWaiting cs who c e h n.0)
