-- ===== src/Atis/Stale.antt =====
-- A voice that fails as the weather changes: `rerecord` and `serve` of src/marshall/atis/serve.py.
use marshall.Prelude.{
  ℕ, ◌-◌, ◌<◌, ◌≡◌, refl, ap, ◌∙◌, String, true, false, Option, none, some, List, [], ◌∷◌, ◌==◌,
  All, leb, arith,
}
use marshall.Atis.{
  next_letter, Observation, wind_shift, same_ceiling, same_as, due_for_rotation, OnAir, Poll,
  has_frames, rerecord, record_anew, serve_field, serve,
}

wind_shift_self : (a : ℕ) → wind_shift a a ≡ 0
unfolding wind_shift
wind_shift_self a = omega arith

same_ceiling_refl : (c : Option ℕ) → same_ceiling c c ≡ true
unfolding same_ceiling
same_ceiling_refl none = refl
same_ceiling_refl (some a) = ground arith

same_as_refl : (o : Observation) → same_as o o ≡ true
unfolding same_as
same_as_refl o =
    rw (same_ceiling_refl o.ceiling_ft_agl, wind_shift_self o.wind_from_deg) (ground arith)

module _ {Text Frame : Type 0} (sortie : String) (spoken : Observation → String → ℕ → Text) where
  -- It reads that weather, less than an hour after the time.
  abbrev pub IsQuiet : Observation → ℕ → Poll Text Frame → Type 0
  IsQuiet obs since poll = (poll.observed ≡ some obs) × (poll.now - since < 3600)

  serve_field-quiet :
      (poll : Poll Text Frame) (air : OnAir Text Frame) (obs : Observation)
      → (air.was.letter == "") ≡ false
      → has_frames air.was.frames ≡ true
      → air.seen ≡ some obs
      → IsQuiet obs air.was.recorded_at poll
      → serve_field sortie spoken poll air ≡ record air { seen = some obs }
  unfolding serve_field rerecord due_for_rotation
  serve_field-quiet poll air obs l f s (o, less) =
      rw (o, l, s, same_as_refl obs, young, f, serve_field) refl
    where
      young : leb 3600 (poll.now - air.was.recorded_at) ≡ false
      young = ground arith

  serve-quiet :
      (polls : List (Poll Text Frame)) (air : OnAir Text Frame) (obs : Observation)
      → (air.was.letter == "") ≡ false
      → has_frames air.was.frames ≡ true
      → air.seen ≡ some obs
      → All (IsQuiet obs air.was.recorded_at) polls
      → serve sortie spoken polls air ≡ record air { seen = some obs }
  unfolding serve
  serve-quiet [] air obs l f s q = cc
  serve-quiet (poll ∷ polls) air obs l f s q =
      ap (serve sortie spoken polls) (serve_field-quiet poll air obs l f s q.0)
      ∙ serve-quiet polls (record air { seen = some obs }) obs l f refl q.1

  -- When a new recording is due and the voice fails, a field that is on the air keeps its old one; as long as
  -- the polls read that same weather, for less than an hour and with whatever voice, it is not recorded
  -- again, and the table has the new weather under the old letter.
  pub serve-stale :
      (poll : Poll Text Frame) (polls : List (Poll Text Frame)) (air : OnAir Text Frame)
      (obs : Observation)
      → (air.was.letter == "") ≡ false
      → has_frames air.was.frames ≡ true
      → poll.observed ≡ some obs
      → due_for_rotation obs air.seen (poll.now - air.was.recorded_at) ≡ true
      → poll.voice (spoken obs (next_letter air.was.letter) poll.zulu) ≡ none
      → All (IsQuiet obs poll.now) polls
      → serve sortie spoken (poll ∷ polls) air ≡ record {
        was = record air.was { recorded_at = poll.now };
        seen = some obs;
        published = some (obs, air.was.letter, air.was.text);
      }
  unfolding serve serve_field rerecord record_anew
  serve-stale poll polls air obs l f o d v q =
      ap (serve sortie spoken polls) failed ∙ serve-quiet polls kept obs l f refl q
    where
      kept : OnAir Text Frame
      kept = record {
        was = record air.was { recorded_at = poll.now };
        seen = some obs;
        published = some (obs, air.was.letter, air.was.text);
      }

      failed : serve_field sortie spoken poll air ≡ kept
      failed = rw (o, l, d, v, serve_field) refl
