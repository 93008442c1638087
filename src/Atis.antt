-- ===== src/Atis.antt =====
-- The recorded weather of one aerodrome: the letters and `due_for_rotation` of src/marshall/atis/broadcast.py,
-- `same_as` of src/marshall/atis/observation.py, and what one poll of `serve` of src/marshall/atis/serve.py
-- does to a field. The words of a recording and what the voice makes of them are arguments. An age is nought
-- where the clock is before the recording, which no test of the source tells from a negative one.
pub mod Fresh
pub mod Stale
mod Tests
use Prim.Native.Char.{Char, code}
use marshall.Prelude.{
  ℕ, zero, suc, ◌+◌, ◌-◌, ◌*◌, ◌/◌, ◌%◌, String, Bool, true, false, not, ◌&&◌, ◌||◌, Option, none,
  some, List, [], ◌∷◌, ◌==◌, leb, ltb, eqb, lower, str_append, if◌then◌else◌,
}

abbrev pub letters : List String
letters =
    "Alpha" ∷ "Bravo" ∷ "Charlie" ∷ "Delta" ∷ "Echo" ∷ "Foxtrot" ∷ "Golf" ∷ "Hotel" ∷ "India"
    ∷ "Juliett" ∷ "Kilo" ∷ "Lima" ∷ "Mike" ∷ "November" ∷ "Oscar" ∷ "Papa" ∷ "Quebec" ∷ "Romeo"
    ∷ "Sierra" ∷ "Tango" ∷ "Uniform" ∷ "Victor" ∷ "Whiskey" ∷ "Xray" ∷ "Yankee" ∷ "Zulu" ∷ []

-- The item at the index, or "" past the end
unfoldable pub nth_letter : List String → ℕ → String
nth_letter [] n = ""
nth_letter (l ∷ ls) zero = l
nth_letter (l ∷ ls) (suc n) = nth_letter ls n

unfoldable pub weigh : ℕ → String → ℕ
weigh i String.[] = 0
weigh i (String.◌∷◌ c s) = code c * i + weigh (suc i) s

-- first_letter
unfoldable pub first_letter : String → ℕ → String → String
first_letter field_name zulu_seconds sortie =
    nth_letter letters
      ((weigh 1 (str_append sortie (str_append "/" (lower field_name))) + zulu_seconds / 3600) % 26)

-- LETTERS[(LETTERS.index(previous) + 1) % len(LETTERS)], or the first where it is no letter
unfoldable pub after_in : String → String → List String → String
after_in first previous [] = first
after_in first previous (l ∷ []) = first
after_in first previous (l ∷ m ∷ ls) =
    let later = after_in first previous (m ∷ ls) in if previous == l then m else later

unfoldable pub next_letter : String → String
next_letter previous = after_in "Alpha" previous letters

-- What of an observation can bring a new letter; `field` names the aerodrome.
pub record Observation : Type 0 where
  pub field : String
  pub wind_from_deg : ℕ
  pub wind_kt : ℕ
  pub visibility_m : ℕ
  pub ceiling_ft_agl : Option ℕ
  pub runway : ℕ

-- abs(_diff(a, b)), of degrees below 360
unfoldable pub wind_shift : ℕ → ℕ → ℕ
wind_shift a b = let d = ((a + 540) - b) % 360 in (d - 180) + (180 - d)

unfoldable pub same_ceiling : Option ℕ → Option ℕ → Bool
same_ceiling none none = true
same_ceiling none (some b) = false
same_ceiling (some a) none = false
same_ceiling (some a) (some b) = eqb (a / 500) (b / 500)

unfoldable pub vis_band : ℕ → ℕ
vis_band m = if leb 10 (m / 1000) then 10 else m / 1000

-- Observation.same_as
unfoldable pub same_as : Observation → Observation → Bool
same_as a b =
    eqb a.runway b.runway
    && (same_ceiling a.ceiling_ft_agl b.ceiling_ft_agl
        && (eqb (vis_band a.visibility_m) (vis_band b.visibility_m)
            && (ltb (wind_shift a.wind_from_deg b.wind_from_deg) 30
                && ltb ((a.wind_kt - b.wind_kt) + (b.wind_kt - a.wind_kt)) 10)))

abbrev pub rotate_after_sec : ℕ
rotate_after_sec = 3600

-- due_for_rotation, of something that is on the air
unfoldable pub due_for_rotation : Observation → Option Observation → ℕ → Bool
due_for_rotation obs previous age =
    leb rotate_after_sec age || elim previous [ none ↦ false | some was ↦ not (same_as obs was) ]

pub record Airwave (Text : Type 0) (Frame : Type 0) : Type 0 where
  pub letter : String
  pub text : Text
  pub frames : List Frame
  pub recorded_at : ℕ

-- A field's airwave, `seen` of the field, and the row of the table, by its observation, letter and text
pub record OnAir (Text : Type 0) (Frame : Type 0) : Type 0 where
  pub was : Airwave Text Frame
  pub seen : Option Observation
  pub published : Option (Observation × String × Text)

-- What a poll brings: the time, the mission's clock, the weather if it could be read, and what the voice
-- makes of a text, none where it raises.
pub record Poll (Text : Type 0) (Frame : Type 0) : Type 0 where
  pub now : ℕ
  pub zulu : ℕ
  pub observed : Option Observation
  pub voice : Text → Option (List Frame)

abbrev pub has_frames {ℓ} : {Frame : Type ℓ} → List Frame → Bool
has_frames [] = false
has_frames (f ∷ fs) = true

module _ {Text Frame : Type 0} (sortie : String) (spoken : Observation → String → ℕ → Text) where
  -- rerecord
  unfoldable pub rerecord :
      Observation → Airwave Text Frame → ℕ → Option Observation → ℕ → String × Bool
  rerecord obs was now previous zulu =
      if was.letter == ""
      then (first_letter obs.field zulu sortie, true)
      else if due_for_rotation obs previous (now - was.recorded_at)
      then (next_letter was.letter, true)
      else (was.letter, not (has_frames was.frames))

  unfoldable pub record_anew :
      Poll Text Frame → Observation → OnAir Text Frame → String → OnAir Text Frame
  record_anew poll obs air letter =
      let text = spoken obs letter poll.zulu in
      let now_on : Airwave Text Frame = elim (poll.voice text) [
        | some frames ↦ record {
          letter = letter;
          text = text;
          frames = frames;
          recorded_at = poll.now;
        }
        | none ↦ record air.was { recorded_at = poll.now }
      ] in
      record { was = now_on; seen = some obs; published = some (obs, now_on.letter, now_on.text) }

  -- One field of a poll of `serve`
  unfoldable pub serve_field : Poll Text Frame → OnAir Text Frame → OnAir Text Frame
  serve_field poll air = elim poll.observed [
    | none ↦ air
    | some obs ↦
        let (letter, changed) = rerecord obs air.was poll.now air.seen poll.zulu in
        if changed then record_anew poll obs air letter else record air { seen = some obs }
  ]

  -- The polls of `serve`, one after the other
  unfoldable pub serve : List (Poll Text Frame) → OnAir Text Frame → OnAir Text Frame
  serve [] air = air
  serve (poll ∷ polls) air = serve polls (serve_field poll air)
