-- ===== src/Stations.antt =====
-- src/marshall/core/stations.py: who works a role at an aerodrome, and who is on a frequency.
-- Frequencies are counted in hertz. `voice`, `preset` and `manner` are left out: nothing here reads
-- them.
pub mod Best
pub mod Samples
mod Tests
use marshall.Prelude.{
  ℕ, ◌+◌, ◌-◌, String, Bool, true, false, not, ◌&&◌, ◌||◌, Option, none, some, List, [], ◌∷◌, ◌==◌,
  ◌≡◌, refl, is_in, find_first, any, ltb, if◌then◌else◌,
}

pub record Station : Type 0 where
  pub name : String
  pub freq_hz : ℕ
  pub role : String
  pub also : List String
  pub channels : List ℕ
  pub field : String

unfoldable pub freqs : Station → List ℕ
freqs s = s.freq_hz ∷ s.channels

-- `tol` of the source is 0.001 MHz
abbrev pub tolerance_hz : ℕ
tolerance_hz = 1000

abbrev pub distance : ℕ → ℕ → ℕ
distance a b = (a - b) + (b - a)

unfoldable pub hears : Station → ℕ → Bool
unfolding freqs
hears s hz = any (λ f. ltb (distance f hz) tolerance_hz) (freqs s)

-- The inner function `hit` of `role_at`.
unfoldable pub hit : String → String → Station → Bool → Bool
hit role field s want_primary =
    if want_primary && not (s.role == role)
    then false
    else if not want_primary && not (is_in role s.also)
    then false
    else if field == ""
    then true
    else is_in s.field (field ∷ "" ∷ [])

-- The body of one pass over the stations.
abbrev pub passes : String → String → Bool → Bool → Station → Bool
passes role field want_primary prefer_field s =
    if prefer_field && not (s.field == field) then false else hit role field s want_primary

infixr 30 ◌or_else◌
abbrev pub ◌or_else◌ {ℓ} : {A : Type ℓ} → Option A → Option A → Option A
none or_else o = o
some a or_else o = some a

pub or_else_assoc {ℓ} :
    {A : Type ℓ} (a b c : Option A) → (a or_else b) or_else c ≡ a or_else (b or_else c)
or_else_assoc none b c = refl
or_else_assoc (some x) b c = refl

pub or_else-none {ℓ} : {A : Type ℓ} (a : Option A) → (a or_else none) ≡ a
or_else-none none = refl
or_else-none (some x) = refl

-- The passes over `prefer_field`, for one value of `want_primary`.
abbrev pub at_field : List Station → String → String → Bool → Option Station
at_field stations role field want_primary =
    if field == ""
    then find_first (passes role field want_primary false) stations
    else find_first (passes role field want_primary true) stations
      or_else find_first (passes role field want_primary false) stations

unfoldable pub role_at : List Station → String → String → Option Station
role_at stations role field =
    at_field stations role field true or_else at_field stations role field false

unfoldable pub on_frequency : List Station → ℕ → Option Station
unfolding hears
on_frequency stations hz = find_first (λ s. hears s hz) stations
