-- ===== src/Controller/Reporting.antt =====
-- A report over the beacon, `report_beacon` of src/marshall/atc/controller.py.
use marshall.Prelude.{ℕ, ◌+◌, Option, none, some, Option-cases, inl, inr}
use marshall.Controller.{
  Phase, unknown, enroute, cleared, holding, missed, landed, free_slot, hold, Aircraft, Engine,
  write, say, procedure_of, pro,
}
use marshall.Controller.Letdown.{IsNamed, HasFields, Keeps, Keeps-next, write-Keeps}
use marshall.Controller.Sequence.{
  place, time_passage, told, governing_ft, spoken_level, check_level, by_report, report_beacon,
  try_clear,
}
use marshall.Controller.Clearing.{try_clear-Keeps}

place-Keeps :
    (ac : Aircraft) (e : Engine) → HasFields e → IsNamed e.profile ac → Keeps e (place ac e)
unfolding place say procedure_of
place-Keeps ac e h n = elim (Option-cases (free_slot (write ac e) (some ac))) [
  | inl c ↦ rw (c, place) (write-Keeps ac e n h)
  | inr (slot, c) ↦ rw (c, place) (entered slot)
]
  where
    entered :
        (slot : ℕ)
        → Keeps e (
            try_clear none none (
              say
                (hold ac.callsign slot)
                (write (record ac { phase = holding; assigned_ft = some slot }) e)))
    entered slot =
        let e' =
          say (hold ac.callsign slot)
            (write (record ac { phase = holding; assigned_ft = some slot }) e) in
        let one : Keeps e e' =
          write-Keeps (record ac { phase = holding; assigned_ft = some slot }) e n h in
        Keeps-next e e' (try_clear none none e') one (try_clear-Keeps e' one.1)

time_passage-Keeps :
    (ac : Aircraft) (e : Engine) → HasFields e → IsNamed e.profile ac → Keeps e (time_passage ac e)
unfolding time_passage procedure_of
time_passage-Keeps ac e h n =
    let final : ℕ = elim (pro e (some ac)) [ none ↦ 0 | some p ↦ p.final_approach_sec ] in
    write-Keeps (record ac { map_t = some (e.t + final) }) e n h

check_level-Keeps :
    (ac : Aircraft) (altitude_ft : Option ℕ) (e : Engine)
    → HasFields e
    → IsNamed e.profile ac
    → Keeps e (check_level ac altitude_ft e)
unfolding check_level say
check_level-Keeps ac altitude_ft e h n =
    elim (Option-cases (spoken_level (told altitude_ft) (told (governing_ft ac)))) [
      | inl c ↦ rw (c, check_level) (write-Keeps ac e n h)
      | inr (ft, c) ↦ rw (c, check_level) (write-Keeps ac e n h)
    ]

-- Where every aircraft's aerodrome has a name, the reporter's included, a position report over the beacon
-- takes the letdown from nobody who has it, whatever the reporter is doing; it leaves the bridge's
-- procedure, and every aerodrome on the board named.
pub report_beacon-Keeps :
    (ac : Aircraft) (altitude_ft : Option ℕ) (e : Engine)
    → HasFields e
    → IsNamed e.profile ac
    → Keeps e (report_beacon ac altitude_ft e)
unfolding report_beacon by_report procedure_of
report_beacon-Keeps ac altitude_ft e h n = reporting ac.phase
  where
    here : Aircraft
    here = record ac { last_report_t = e.t }

    reporting : (p : Phase) → Keeps e (by_report p here altitude_ft e)
    reporting unknown = place-Keeps here e h n
    reporting enroute = place-Keeps here e h n
    reporting cleared = time_passage-Keeps here e h n
    reporting holding = check_level-Keeps here altitude_ft e h n
    reporting missed = check_level-Keeps here altitude_ft e h n
    reporting landed = check_level-Keeps here altitude_ft e h n
