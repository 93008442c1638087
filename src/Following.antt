-- ===== src/Following.antt =====
-- src/marshall/core/following.py: where a pilot is along a route. Distances are hundredths of a nautical
-- mile; the geometry of core/geo.py (range, bearing, along and across a course) is a parameter.
pub mod Latch
mod Tests
use marshall.Prelude.{
  ℕ, zero, suc, ◌+◌, ◌-◌, String, Bool, true, false, not, ◌&&◌, ◌||◌, Option, none, some, List, [],
  ◌∷◌, ltb, leb, if◌then◌else◌,
}

-- A distance with a sign: so far on, or one more than this the other way.
pub data Signed : Type 0 where
  ahead : ℕ → Signed
  behind : ℕ → Signed

unfoldable pub at_least : Signed → ℕ → Bool
at_least (ahead n) bound = leb bound n
at_least (behind n) bound = false

unfoldable pub size : Signed → ℕ
size (ahead n) = n
size (behind n) = suc n

abbrev pub capture_nm : ℕ
capture_nm = 150

pub record Leg {ℓ} (Place : Type ℓ) : Type ℓ where
  pub fix : String
  pub place : Place
  pub alt_ft : ℕ

pub record Along : Type 0 where
  pub index : ℕ
  pub fix : String
  pub heading_true : ℕ
  pub distance_nm : ℕ
  pub alt_ft : ℕ
  pub xtk_nm : Signed
  pub along_nm : Signed
  pub leg_nm : ℕ
  pub passed : Bool

abbrev pub leg_at {ℓ} : {A : Type ℓ} → List A → ℕ → Option A
leg_at [] i = none
leg_at (x ∷ xs) zero = some x
leg_at (x ∷ xs) (suc i) = leg_at xs i

-- What the route code asks of core/geo.py: the distance and the bearing from one place to another, and
-- of a place along and across the course from one to another.
pub record Geometry {ℓ} (Place : Type ℓ) : Type ℓ where
  pub range_nm : Place → Place → ℕ
  pub bearing_true : Place → Place → ℕ
  pub alongtrack_nm : Place → Place → Place → Signed
  pub crosstrack_nm : Place → Place → Place → Signed

module _ {ℓ} {Place : Type ℓ} (geo : Geometry Place) where
  -- The place where a leg begins: the fix before it, and before the first the start, if there is one.
  unfoldable pub origin : List (Leg Place) → ℕ → Option Place → Option Place
  origin legs zero start = start
  origin legs (suc i) start = elim (leg_at legs i) [ none ↦ none | some a ↦ some a.place ]

  unfoldable pub along_leg : Option Place → Leg Place → Place → ℕ → Along
  along_leg none b here index = record {
    index = index;
    fix = b.fix;
    heading_true = geo.bearing_true here b.place;
    distance_nm = geo.range_nm here b.place;
    alt_ft = b.alt_ft;
    xtk_nm = ahead 0;
    along_nm = ahead 0;
    leg_nm = geo.range_nm here b.place;
    passed = false;
  }
  along_leg (some a) b here index = record {
    index = index;
    fix = b.fix;
    heading_true = geo.bearing_true here b.place;
    distance_nm = geo.range_nm here b.place;
    alt_ft = b.alt_ft;
    xtk_nm = geo.crosstrack_nm a b.place here;
    along_nm = geo.alongtrack_nm a b.place here;
    leg_nm = geo.range_nm a b.place;
    passed =
        at_least (geo.alongtrack_nm a b.place here) (geo.range_nm a b.place)
        || leb (geo.range_nm here b.place) capture_nm;
  }

  unfoldable pub guide : List (Leg Place) → Place → ℕ → Option Place → Option Along
  guide legs here index start = elim (leg_at legs index) [
    | none ↦ none
    | some b ↦ some (along_leg (origin legs index start) b here index)
  ]

unfoldable pub next_index : Option Along → ℕ → ℕ
next_index none index = index
next_index (some now) index = if now.passed then index + 1 else index

-- off_course, with its three bands
unfoldable pub off_course : Option Along → Bool → ℕ → ℕ → ℕ → Bool
off_course none alerting alert_nm clear_nm settle_nm = false
off_course (some now) alerting alert_nm clear_nm settle_nm =
    if leb now.leg_nm 0
    then false
    else if not (at_least now.along_nm settle_nm)
    then false
    else if alerting
    then ltb clear_nm (size now.xtk_nm)
    else leb alert_nm (size now.xtk_nm)
