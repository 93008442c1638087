-- ===== src/Handoff.antt =====
-- src/marshall/atc/handoff.py: who should have an aircraft now. Ranges are counted in hundredths of a
-- nautical mile. The theatre's own tables are arguments: the seats on the air (`theatre.seats_now`)
-- and its aerodromes.
pub mod Safety
pub mod Talkdown
mod Tests
use marshall.Prelude.{
  ℕ, String, Bool, true, false, not, ◌&&◌, ◌||◌, Option, none, some, List, [], ◌∷◌, ◌==◌, is_in,
  lower, find_first, ltb, leb, eqb, if◌then◌else◌,
}
use marshall.Phases
use marshall.Phases.{Phase}
use marshall.Stations.{Station, role_at}
use marshall.Airspace.{Fix, Procedure, aerodrome_name, terminal_nm, terminal_reach_nm}

abbrev pub departure_nm : ℕ
departure_nm = 500

abbrev pub arrival_nm : ℕ
arrival_nm = 500

abbrev pub center_nm : ℕ
center_nm = terminal_nm

pub record Rule : Type 0 where
  pub frm : String
  pub to : String
  pub when : String
  pub nm : Option ℕ
  pub terminal_edge : Bool

abbrev rule : String → String → String → Option ℕ → Bool → Rule
rule f t w n e = record { frm = f; to = t; when = w; nm = n; terminal_edge = e }

-- The two rows that give an arrival to Tower.
abbrev pub tower_when_near : Rule
tower_when_near = rule "approach" "tower" "inbound_within" (some arrival_nm) false

abbrev pub tower_when_down : Rule
tower_when_down = rule "approach" "tower" "on_ground" none false

-- RULES, in their order
abbrev pub rules : List Rule
rules =
    rule "tower" "approach" "going_around_beyond" (some departure_nm) false
    ∷ rule "tower" "departure" "outbound_beyond" (some departure_nm) false
    ∷ rule "center" "approach" "inbound_within" (some center_nm) true
    ∷ rule "departure" "center" "outbound_beyond" (some center_nm) true
    ∷ tower_when_near
    ∷ tower_when_down
    ∷ rule "departure" "tower" "on_ground" none false
    ∷ rule "ground" "tower" "airborne" none false
    ∷ rule "clearance" "tower" "airborne" none false
    ∷ []

-- What is known of the aircraft.
pub record State : Type 0 where
  pub on_ground : Bool
  pub range_nm : Option ℕ
  pub inbound : Bool
  pub phase : String

-- What `due` asks of the procedure that he flies.
pub record Profile {ℓ} (Place : Type ℓ) : Type ℓ where
  pub guidance : String
  pub procedure : Procedure Place

-- a >= b and a <= b, where either may be None
abbrev pub at_least : Option ℕ → Option ℕ → Bool
at_least (some a) (some b) = leb b a
at_least _ _ = false

abbrev pub at_most : Option ℕ → Option ℕ → Bool
at_most (some a) (some b) = leb a b
at_most _ _ = false

abbrev pub is_known : Option ℕ → Bool
is_known none = false
is_known (some a) = true

unfoldable pub outbound_beyond : State → Option ℕ → Bool
outbound_beyond st nm = not st.on_ground && (not st.inbound && at_least st.range_nm nm)

unfoldable pub airborne : State → Bool
airborne st = not st.on_ground && is_known st.range_nm

unfoldable pub going_around_beyond : State → Option ℕ → Bool
unfolding outbound_beyond
going_around_beyond st nm = lower st.phase == "missed" && outbound_beyond st nm

-- The phases that the source calls _GROUND_PHASES, and the seats that they and the conversation give.
abbrev pub ground_seats : List String
ground_seats = "clearance" ∷ "delivery" ∷ "ground" ∷ []

module _ {ℓ} {Place : Type ℓ} where
  abbrev pub guidance_of : Option (Profile Place) → String
  guidance_of none = ""
  guidance_of (some p) = p.guidance

  unfoldable pub inbound_within : State → Option ℕ → Option (Profile Place) → Rule → Bool
  inbound_within st nm profile r =
      if r.to == "tower" && (guidance_of profile == "talkdown" && not st.on_ground)
      then false
      else not st.on_ground && (at_most st.range_nm nm && st.inbound)

  -- CONDITIONS.get(rule.when), applied; a name that is not there never holds
  unfoldable pub holds : State → Option ℕ → Option (Profile Place) → Rule → Bool
  unfolding outbound_beyond inbound_within airborne going_around_beyond
  holds st nm profile r =
      if r.when == "outbound_beyond"
      then outbound_beyond st nm
      else if r.when == "inbound_within"
      then inbound_within st nm profile r
      else if r.when == "on_ground"
      then st.on_ground
      else if r.when == "airborne"
      then airborne st
      else if r.when == "going_around_beyond"
      then going_around_beyond st nm
      else false

  -- Theatre.field_named: the aerodrome of that name, in any mix of capitals
  unfoldable pub field_named : List (Fix Place) → String → Option (Fix Place)
  field_named fields name = find_first (λ f. lower f.name == lower name) fields

  abbrev name_of : Option (Fix Place) → String
  name_of none = ""
  name_of (some f) = f.name

  abbrev procedure_name : Option (Profile Place) → String
  procedure_name none = ""
  procedure_name (some p) = aerodrome_name p.procedure

  -- _at: his own aerodrome, or the one that the procedure arrives at
  unfoldable pub at : List (Fix Place) → Station → Option (Profile Place) → String
  unfolding field_named
  at fields me profile =
      if me.field == "" then name_of (field_named fields (procedure_name profile)) else me.field

-- `due` returns a seat with the role that it answers as now, or says that a rule governs him and
-- keeps him (`station=None, keep=True`).
pub data Verdict : Type 0 where
  hand_to : Station → String → Bool → Verdict
  keep : Verdict

abbrev pub same_name : Station → Station → Bool
same_name a b = a.name == b.name

-- `role` is one of the two spellings of his job
abbrev pub answers : Station → String → Bool
answers me r = me.role == r || is_in r me.also

-- The owner of the phase, unless that is a ground seat and he is flying.
unfoldable pub phase_owner : State → String
unfolding airborne
phase_owner st =
    let want = Phases.owner_of st.phase in
    if is_in want ground_seats && airborne st then "" else want

abbrev pub aims : Option Phase → String
aims none = ""
aims (some p) = p.aims_at

module _ {ℓ} {Place : Type ℓ} (nm_between : Place → Place → ℕ) (seats : List Station)
    (fields : List (Fix Place)) (procedures : List (Procedure Place)) where
  -- reach_of: `none` where no aerodrome has the name
  unfoldable pub reach_of : String → Option ℕ
  unfolding field_named
  reach_of field = if field == "" then none else elim (field_named fields field) [
    | none ↦ none
    | some f ↦ some (terminal_reach_nm nm_between (some f) procedures)
  ]

  -- `reach_of(...) or rule.nm`
  unfoldable pub distance_of : Station → Option (Profile Place) → Rule → Option ℕ
  unfolding reach_of at
  distance_of me profile r =
      if r.terminal_edge
      then elim (reach_of (at fields me profile)) [
        | none ↦ r.nm
        | some d ↦ if eqb d 0 then r.nm else some d
      ]
      else r.nm

  unfoldable pub fires : Station → Option (Profile Place) → State → Rule → Bool
  unfolding distance_of holds
  fires me profile st r = holds st (distance_of me profile r) profile r

  abbrev pub seat_for : Station → Option (Profile Place) → String → Option Station
  seat_for me profile role = role_at seats role (at fields me profile)

  -- The loop over the rules; `governed` says whether one has declined.
  unfoldable pub by_rules :
      Station → Option (Profile Place) → State → Bool → List Rule → Option Verdict
  by_rules me profile st governed [] = if governed then some keep else none
  by_rules me profile st governed (r ∷ rs) =
      let skipped = by_rules me profile st governed rs in
      let declined = by_rules me profile st true rs in
      if not (answers me r.frm)
      then skipped
      else if not (fires me profile st r)
      then declined
      else elim (seat_for me profile r.to) [
        | none ↦ skipped
        | some nxt ↦ some (hand_to nxt r.to (same_name nxt me))
      ]

  -- The seat that owns him outright by his phase, where the phase aims at nothing.
  unfoldable pub by_phase : Station → Option (Profile Place) → State → Option Verdict
  by_phase me profile st =
      let want = phase_owner st in
      if not (st.phase == "")
        && (not (want == "") && (aims (Phases.get st.phase) == "none" && not (answers me want)))
      then elim (seat_for me profile want) [
        | none ↦ none
        | some nxt ↦ some (hand_to nxt want (same_name nxt me))
      ]
      else none

  unfoldable pub due : Option (Profile Place) → Option Station → State → Option Verdict
  due profile none st = none
  due profile (some me) st = if me.role == "" then none else elim (by_phase me profile st) [
    | some v ↦ some v
    | none ↦ by_rules me profile st false rules
  ]
