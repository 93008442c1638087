-- ===== src/Controller/Waiting.antt =====
-- The calls on the ground of src/marshall/atc/controller.py, and what each leaves of somebody who waits for
-- his clearance.
use marshall.Prelude.{
  String, ◌≡◌, refl, sym, ap, subst, ◌∙◌, Bool, true, false, ◌&&◌, ◌||◌, Option, none, some, List,
  [], ◌∷◌, ◌++◌, ◌==◌, any, eq_iff, arith, Bool-cases, Option-cases, inl, inr,
}
use mathlib.Core.Option.{some-injective}
use marshall.Prelude.Dict
use marshall.Stations.{Station}
use marshall.Controller.{Aircraft, Decision, taxi, Engine, write, say}
use marshall.Controller.Ground.{
  new_aircraft, get_aircraft, request_clearance, clearance_read_back, taxi_in, has_agreed,
  request_taxi, report_holding_short, note_clearance_agreed,
}

-- A call on the ground, with what the controller looks up to answer it; `note` is what the agent records.
pub data Call : Type 0 where
  clearance : String → String → Call
  read_back : Option Bool → List String → Call
  note : Bool → Call
  taxi_out : Option Station → Call
  short : Call
  clear_of_runway : Option Station → Option Station → Call

unfoldable pub answer : String → Call → Engine → Engine
answer cs (clearance extra letter) e = request_clearance extra letter (get_aircraft cs e) e
answer cs (read_back correct missed) e = clearance_read_back correct missed (get_aircraft cs e) e
answer cs (note agreed) e = note_clearance_agreed cs agreed e
answer cs (taxi_out me) e = request_taxi me (get_aircraft cs e) e
answer cs short e = report_holding_short (get_aircraft cs e) e
answer cs (clear_of_runway me gnd) e = taxi_in me gnd (get_aircraft cs e) e

-- Calls of any aircraft, in the order in which they are heard.
unfoldable pub answer_all : List (String × Call) → Engine → Engine
answer_all [] e = e
answer_all ((cs, c) ∷ calls) e = answer_all calls (answer cs c e)

-- It makes his clearance agreed.
abbrev pub agrees : Call → Bool
agrees (read_back (some true) missed) = true
agrees (note true) = true
agrees _ = false

abbrev pub is_agreement : String → String × Call → Bool
is_agreement cs c = c.0 == cs && agrees c.1

abbrev is_taxi : String → Decision → Bool
is_taxi cs (taxi to) = to == cs
is_taxi cs _ = false

-- He has been told to taxi to the runway.
abbrev pub may_taxi : String → Engine → Bool
may_taxi cs e = any (is_taxi cs) e.decided

abbrev agreed_of : Option Aircraft → Bool
agreed_of none = false
agreed_of (some ac) = has_agreed ac.clearance_agreed

abbrev pub is_agreed : String → Engine → Bool
is_agreed cs e = agreed_of (Dict.get e.aircraft cs)

-- Every aircraft stands on the board under its own callsign.
abbrev pub IsFiled : Engine → Type 0
IsFiled e = (k : String) (a : Aircraft) → Dict.get e.aircraft k ≡ some a → a.callsign ≡ k

-- He has neither an agreed clearance nor leave to taxi.
abbrev pub IsWaiting : String → Engine → Type 0
IsWaiting cs e = IsFiled e × (is_agreed cs e ≡ false) × (may_taxi cs e ≡ false)

any-snoc :
    (test : Decision → Bool) (ds : List Decision) (d : Decision)
    → any test (ds ++ d ∷ []) ≡ (any test ds || test d)
any-snoc test [] d = ground arith
any-snoc test (x ∷ ds) d = ground (arith, any-snoc test ds d)

pub say-IsWaiting :
    (cs : String) (d : Decision) (e : Engine)
    → IsWaiting cs e
    → is_taxi cs d ≡ false
    → IsWaiting cs (say d e)
unfolding say
say-IsWaiting cs d e h n = (h.0, h.1, any-snoc (is_taxi cs) e.decided d ∙ rw (h.2, n) refl)

pub write-IsWaiting :
    (cs : String) (a : Aircraft) (e : Engine)
    → IsWaiting cs e
    → (a.callsign == cs && has_agreed a.clearance_agreed) ≡ false
    → IsWaiting cs (write a e)
unfolding write
write-IsWaiting cs a e h g = (filed, agreed, h.2)
  where
    filed : IsFiled (write a e)
    filed k b i = elim (Bool-cases (a.callsign == k)) [
      | inl c ↦
          subst (λ (x : Aircraft). x.callsign ≡ k)
            (some-injective a b (rw (Dict.get-put e.aircraft a.callsign k a, c) at i))
            ((eq_iff a.callsign k).0 c)
      | inr c ↦ h.0 k b (rw (Dict.get-put e.aircraft a.callsign k a, c) at i)
    ]

    agreed : is_agreed cs (write a e) ≡ false
    agreed = elim (Bool-cases (a.callsign == cs)) [
      | inl c ↦ rw (Dict.get-put e.aircraft a.callsign cs a, c) (ground arith)
      | inr c ↦ rw (Dict.get-put e.aircraft a.callsign cs a, c) (h.1)
    ]

-- The aircraft that is found, or made, for a call.
pub got-IsWaiting :
    (cs who : String) (e : Engine)
    → IsWaiting cs e
    → let ac = get_aircraft who e in
      (ac.callsign ≡ who) × ((ac.callsign == cs && has_agreed ac.clearance_agreed) ≡ false)
unfolding get_aircraft new_aircraft
got-IsWaiting cs who e h = elim (Option-cases (Dict.get e.aircraft who)) [
  | inl c ↦ rw (c, get_aircraft) (refl, ground arith)
  | inr (ac, c) ↦ rw (c, get_aircraft) (h.0 who ac c, found ac c)
]
  where
    found :
        (ac : Aircraft)
        → Dict.get e.aircraft who ≡ some ac
        → (ac.callsign == cs && has_agreed ac.clearance_agreed) ≡ false
    found ac c = elim (Bool-cases (ac.callsign == cs)) [
      | inr n ↦ ground arith
      | inl n ↦
          let mine = sym (h.0 who ac c) ∙ (eq_iff ac.callsign cs).0 n in
          let his : has_agreed ac.clearance_agreed ≡ false =
            sym (ap agreed_of c)
            ∙ subst (λ k. agreed_of (Dict.get e.aircraft k) ≡ false) (sym mine) (h.1) in
          ground arith
    ]
