-- ===== src/Atis/Tests.antt =====
-- The weather of Batumi, as it is recorded.
use marshall.Prelude.{ℕ, ◌≡◌, refl, arith, String, Option, none, some, List, [], ◌∷◌}
use marshall.Atis.{
  after_in, next_letter, Observation, wind_shift, same_ceiling, vis_band, same_as, due_for_rotation,
  OnAir, Poll, rerecord, record_anew, serve_field, serve,
}
use marshall.Atis.Fresh.{IsFresh, IsMade, serve-IsFresh}
use marshall.Atis.Stale.{serve-stale}

abbrev weather : ℕ → ℕ → Observation
weather wind runway = record {
  field = "Batumi";
  wind_from_deg = wind;
  wind_kt = 8;
  visibility_m = 9000;
  ceiling_ft_agl = some 4000;
  runway = runway;
}

-- A text is its letter and the runway in it.
abbrev spoken : Observation → String → ℕ → String × ℕ
spoken obs letter zulu = (letter, obs.runway)

abbrev works : String × ℕ → Option (List ℕ)
works t = some (t.1 ∷ [])

abbrev fails : String × ℕ → Option (List ℕ)
fails t = none

abbrev poll : ℕ → Observation → (String × ℕ → Option (List ℕ)) → Poll (String × ℕ) ℕ
poll now obs voice = record { now = now; zulu = 0; observed = some obs; voice = voice }

abbrev on_air : OnAir (String × ℕ) ℕ
on_air = record {
  was = record { letter = "Yankee"; text = ("Yankee", 13); frames = 13 ∷ []; recorded_at = 100 };
  seen = some (weather 130 13);
  published = none;
}

next_letter-last : next_letter "Zulu" ≡ "Alpha"
unfolding next_letter after_in
next_letter-last = refl

-- The runway changes, and the letter with it.
serve-changed : (serve "" spoken (poll 110 (weather 310 31) works ∷ []) on_air).was.letter ≡ "Zulu"
unfolding after_in next_letter wind_shift same_ceiling vis_band same_as due_for_rotation rerecord
    record_anew serve_field serve
serve-changed = refl

-- The wind goes round by 140 degrees, 28 of them from poll to poll, and the letter stays.
serve-drift :
    (serve "" spoken
      (poll 110 (weather 158 13) works
        ∷ poll 120 (weather 186 13) works
        ∷ poll 130 (weather 214 13) works
        ∷ poll 140 (weather 242 13) works
        ∷ poll 150 (weather 270 13) works
        ∷ [])
      on_air).was
    ≡ record { letter = "Yankee"; text = ("Yankee", 13); frames = 13 ∷ []; recorded_at = 100 }
unfolding after_in next_letter wind_shift same_ceiling vis_band same_as due_for_rotation rerecord
    record_anew serve_field serve
serve-drift = refl

-- Just started: the letter is on the table, and the sound is gone.
abbrev started : OnAir (String × ℕ) ℕ
started = record on_air { was = record on_air.was { frames = [] }; seen = none }

abbrev earlier : List (Poll (String × ℕ) ℕ)
earlier = poll 110 (weather 130 13) works ∷ poll 3000 (weather 310 31) works ∷ []

serve-IsFresh_example :
    IsFresh "" spoken 5000
      (serve_field "" spoken
        (poll 5000 (weather 310 31) works)
        (serve "" spoken earlier started)).was
    × IsMade "" spoken
        (serve_field "" spoken
          (poll 5000 (weather 310 31) works)
          (serve "" spoken earlier started)).was
        (poll 5000 (weather 310 31) works ∷ earlier)
serve-IsFresh_example =
    serve-IsFresh "" spoken earlier (poll 5000 (weather 310 31) works) started (weather 310 31) refl
      refl ((λ t. (t.1, [], refl)), ((λ t. (t.1, [], refl)), tt)) refl (λ t. (t.1, [], refl))

serve-stale_example :
    serve "" spoken (poll 110 (weather 310 31) fails ∷ poll 120 (weather 310 31) works ∷ []) on_air
    ≡ record {
      was = record {
        letter = "Yankee";
        text = ("Yankee", 13);
        frames = 13 ∷ [];
        recorded_at = 110;
      };
      seen = some (weather 310 31);
      published = some (weather 310 31, "Yankee", ("Yankee", 13));
    }
unfolding after_in next_letter wind_shift same_ceiling vis_band same_as due_for_rotation rerecord
    record_anew serve_field serve
serve-stale_example =
    serve-stale "" spoken (poll 110 (weather 310 31) fails) (poll 120 (weather 310 31) works ∷ [])
      on_air (weather 310 31) refl refl refl refl refl ((refl, omega arith), tt)
