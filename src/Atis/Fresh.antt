-- ===== src/Atis/Fresh.antt =====
-- What is on the air after a poll: `rerecord` and `serve` of src/marshall/atis/serve.py.
use marshall.Prelude.{
  All, sym, ap, ◌∙◌, subst, ℕ, zero, suc, ◌+◌, ◌-◌, ◌/◌, ◌%◌, ◌<◌, ◌≡◌, ◌⊎◌, refl, String, Bool,
  true, false, not, ◌||◌, Option, some, List, [], ◌∷◌, ◌==◌, all, length, is_in, leb, arith, eq_iff,
  Bool-cases, Option-cases, inl, inr, lower, str_append,
}
use marshall.Atis.{
  letters, nth_letter, weigh, first_letter, after_in, next_letter, Observation, due_for_rotation,
  Airwave, OnAir, Poll, has_frames, rerecord, record_anew, serve_field, serve,
}

nth_letter-is_in : (ls : List String) (n : ℕ) → n < length ls → is_in (nth_letter ls n) ls ≡ true
unfolding nth_letter
nth_letter-is_in [] n h = absurd (omega arith)
nth_letter-is_in (l ∷ ls) zero h = ground (arith, eq_iff l l)
nth_letter-is_in (l ∷ ls) (suc n) h =
    let there = nth_letter-is_in ls n (omega arith) in ground arith

after_in-all :
    (good : String → Bool) (first previous : String) (ls : List String)
    → good first ≡ true
    → all good ls ≡ true
    → good (after_in first previous ls) ≡ true
unfolding after_in
after_in-all good first previous [] g h = g
after_in-all good first previous (l ∷ []) g h = g
after_in-all good first previous (l ∷ m ∷ ls) g h = elim (Bool-cases (previous == l)) [
  | inl c ↦ rw (c, after_in) (ground arith)
  | inr c ↦ rw (c, after_in) (after_in-all good first previous (m ∷ ls) g (ground arith))
]

first_letter-is_in :
    (field_name : String) (zulu : ℕ) (sortie : String)
    → is_in (first_letter field_name zulu sortie) letters ≡ true
unfolding first_letter
first_letter-is_in field_name zulu sortie =
    nth_letter-is_in letters
      ((weigh 1 (str_append sortie (str_append "/" (lower field_name))) + zulu / 3600) % 26)
      (omega arith)

next_letter-is_in : (previous : String) → is_in (next_letter previous) letters ≡ true
unfolding next_letter
next_letter-is_in previous = after_in-all (λ w. is_in w letters) "Alpha" previous letters refl refl

-- Nothing is on the air, or a letter is.
abbrev pub IsLettered : String → Type 0
IsLettered letter = ((letter == "") || is_in letter letters) ≡ true

leb-lt : (a : ℕ) → leb 3600 a ≡ false → a < 3600
leb-lt a h = ground arith

young :
    (obs : Observation) (previous : Option Observation) (age : ℕ)
    → due_for_rotation obs previous age ≡ false
    → age < 3600
unfolding due_for_rotation
young obs previous age d = elim (Bool-cases (leb 3600 age)) [
  | inl c ↦ absurd (cc (rw (c, due_for_rotation) at d))
  | inr c ↦ leb-lt age c
]

in-IsLettered : (w : String) → is_in w letters ≡ true → IsLettered w
in-IsLettered w h = elim (Bool-cases (w == "")) [ inl c ↦ rw c refl | inr c ↦ rw c h ]

module _ {Text Frame : Type 0} (sortie : String) (spoken : Observation → String → ℕ → Text) where
  rerecord-IsLettered :
      (obs : Observation) (was : Airwave Text Frame) (now : ℕ) (previous : Option Observation)
      (zulu : ℕ)
      → IsLettered was.letter
      → is_in (rerecord sortie spoken obs was now previous zulu).0 letters ≡ true
  unfolding rerecord
  rerecord-IsLettered obs was now previous zulu h = elim (Bool-cases (was.letter == "")) [
    | inl c ↦ rw (c, rerecord) (first_letter-is_in obs.field zulu sortie)
    | inr c ↦ elim (Bool-cases (due_for_rotation obs previous (now - was.recorded_at))) [
      | inl d ↦ rw (c, d, rerecord) (next_letter-is_in was.letter)
      | inr d ↦ rw (c, d, rerecord) (rw c at h)
    ]
  ]

  -- A letter is on the air, with sound, that was recorded less than an hour before the time.
  abbrev pub IsFresh : ℕ → Airwave Text Frame → Type 0
  IsFresh now was =
      (is_in was.letter letters ≡ true)
      × (has_frames was.frames ≡ true)
      × (now - was.recorded_at < 3600)

  abbrev pub IsVoiced : Poll Text Frame → Type 0
  IsVoiced poll = (t : Text) → (f : Frame) × (fs : List Frame) × (poll.voice t ≡ some (f ∷ fs))

  -- Where nothing is recorded anew, what is on the air is fresh.
  rerecord-kept :
      (obs : Observation) (was : Airwave Text Frame) (now : ℕ) (previous : Option Observation)
      (zulu : ℕ)
      → IsLettered was.letter
      → (rerecord sortie spoken obs was now previous zulu).1 ≡ false
      → IsFresh now was
  unfolding rerecord due_for_rotation
  rerecord-kept obs was now previous zulu h n = elim (Bool-cases (was.letter == "")) [
    | inl c ↦ absurd (cc (rw (c, rerecord) at n))
    | inr c ↦ elim (Bool-cases (due_for_rotation obs previous (now - was.recorded_at))) [
      | inl d ↦ absurd (cc (rw (c, d, rerecord) at n))
      | inr d ↦ (
        rw c at h,
        heard (rw (c, d, rerecord) at n),
        young obs previous (now - was.recorded_at) d,
      )
    ]
  ]
    where
      heard : not (has_frames was.frames) ≡ false → has_frames was.frames ≡ true
      heard f = ground arith

  -- A poll that reads the weather, with a voice that works, leaves something fresh on the air.
  serve_field-IsFresh :
      (poll : Poll Text Frame) (air : OnAir Text Frame) (obs : Observation)
      → IsLettered air.was.letter
      → poll.observed ≡ some obs
      → IsVoiced poll
      → IsFresh poll.now (serve_field sortie spoken poll air).was
  unfolding serve_field record_anew
  serve_field-IsFresh poll air obs l o v = elim (Bool-cases answer.1) [
    | inl c ↦
        let (f, fs, said) = v (spoken obs answer.0 poll.zulu) in
        rw (o, c, said, serve_field) (lettered, refl, omega arith)
    | inr c ↦ rw (o, c, serve_field) (kept c)
  ]
    where
      answer : String × Bool
      answer = rerecord sortie spoken obs air.was poll.now air.seen poll.zulu

      lettered : is_in answer.0 letters ≡ true
      lettered = rerecord-IsLettered obs air.was poll.now air.seen poll.zulu l

      kept : answer.1 ≡ false → IsFresh poll.now air.was
      kept c = rerecord-kept obs air.was poll.now air.seen poll.zulu l c

  serve_field-IsLettered :
      (poll : Poll Text Frame) (air : OnAir Text Frame)
      → IsLettered air.was.letter
      → IsLettered (serve_field sortie spoken poll air).was.letter
  unfolding serve_field record_anew
  serve_field-IsLettered poll air l = elim (Option-cases poll.observed) [
    | inl o ↦ rw (o, serve_field) l
    | inr (obs, o) ↦ elim (Bool-cases (answer obs).1) [
      | inr c ↦ rw (o, c, serve_field) l
      | inl c ↦ elim (Option-cases (poll.voice (spoken obs (answer obs).0 poll.zulu))) [
        | inl v ↦ rw (o, c, v, serve_field) l
        | inr (fs, v) ↦ rw (o, c, v, serve_field) (in-IsLettered (answer obs).0 (lettered obs))
      ]
    ]
  ]
    where
      answer : Observation → String × Bool
      answer obs = rerecord sortie spoken obs air.was poll.now air.seen poll.zulu

      lettered : (obs : Observation) → is_in (answer obs).0 letters ≡ true
      lettered obs = rerecord-IsLettered obs air.was poll.now air.seen poll.zulu l

  serve-IsLettered :
      (polls : List (Poll Text Frame)) (air : OnAir Text Frame)
      → IsLettered air.was.letter
      → IsLettered (serve sortie spoken polls air).was.letter
  unfolding serve
  serve-IsLettered [] air l = l
  serve-IsLettered (poll ∷ polls) air l =
      serve-IsLettered polls (serve_field sortie spoken poll air)
        (serve_field-IsLettered poll air l)

  -- The poll recorded what is on the air: at that time, with the voice it had then, of the weather it read.
  abbrev pub IsMadeBy : Airwave Text Frame → Poll Text Frame → Type 0
  IsMadeBy was poll =
      (was.recorded_at ≡ poll.now)
      × (poll.voice was.text ≡ some was.frames)
      × ((obs : Observation) × (poll.observed ≡ some obs)
          × (was.text ≡ spoken obs was.letter poll.zulu))

  -- One of the polls did.
  abbrev pub IsMade : Airwave Text Frame → List (Poll Text Frame) → Type 0
  IsMade was [] = ⊥
  IsMade was (poll ∷ polls) = IsMadeBy was poll ⊎ IsMade was polls

  -- A poll with a voice that works leaves what is on the air, or makes it.
  serve_field-made :
      (poll : Poll Text Frame) (air : OnAir Text Frame)
      → IsVoiced poll
      → ((serve_field sortie spoken poll air).was ≡ air.was)
        ⊎ IsMadeBy (serve_field sortie spoken poll air).was poll
  unfolding serve_field record_anew
  serve_field-made poll air v = elim (Option-cases poll.observed) [
    | inl o ↦ rw (o, serve_field) (inl refl)
    | inr (obs, o) ↦ elim (Bool-cases (answer obs).1) [
      | inr c ↦ rw (o, c, serve_field) (inl refl)
      | inl c ↦
          let (f, fs, said) = v (spoken obs (answer obs).0 poll.zulu) in
          rw (o, c, said, serve_field) (inr (refl, said, (obs, refl, refl)))
    ]
  ]
    where
      answer : Observation → String × Bool
      answer obs = rerecord sortie spoken obs air.was poll.now air.seen poll.zulu

  serve-IsMade :
      (polls : List (Poll Text Frame)) (air : OnAir Text Frame)
      → All IsVoiced polls
      → ((serve sortie spoken polls air).was ≡ air.was)
        ⊎ IsMade (serve sortie spoken polls air).was polls
  unfolding serve
  serve-IsMade [] air v = inl refl
  serve-IsMade (poll ∷ polls) air v =
      elim (serve-IsMade polls (serve_field sortie spoken poll air) v.1) [
        | inr m ↦ inr (inr m)
        | inl same ↦ elim (serve_field-made poll air v.0) [
          | inl kept ↦ inl (same ∙ kept)
          | inr m ↦ inr (inl (subst (λ w. IsMadeBy w poll) (sym same) m))
        ]
      ]

  -- Where at first there is no sound, and no letter or one of the alphabet, as when the program starts, and
  -- no voice fails: after any polls and one more that reads the weather, a letter of the alphabet is on the
  -- air, with sound, that one of these polls made, of the weather that it read and less than an hour before
  -- the last.
  pub serve-IsFresh :
      (polls : List (Poll Text Frame)) (poll : Poll Text Frame) (air : OnAir Text Frame)
      (obs : Observation)
      → IsLettered air.was.letter
      → has_frames air.was.frames ≡ false
      → All IsVoiced polls
      → poll.observed ≡ some obs
      → IsVoiced poll
      → IsFresh poll.now (serve_field sortie spoken poll (serve sortie spoken polls air)).was
        × IsMade (serve_field sortie spoken poll (serve sortie spoken polls air)).was (poll ∷ polls)
  serve-IsFresh polls poll air obs l silent vs o v = (fresh, made)
    where
      before : OnAir Text Frame
      before = serve sortie spoken polls air

      fresh : IsFresh poll.now (serve_field sortie spoken poll before).was
      fresh = serve_field-IsFresh poll before obs (serve-IsLettered polls air l) o v

      made : IsMade (serve_field sortie spoken poll before).was (poll ∷ polls)
      made = elim (serve_field-made poll before v) [
        | inr m ↦ inl m
        | inl kept ↦ elim (serve-IsMade polls air vs) [
          | inr m ↦ inr (subst (λ w. IsMade w polls) (sym kept) m)
          | inl same ↦ absurd (
              cc (
                ap (λ (w : Airwave Text Frame). has_frames w.frames) (kept ∙ same),
                fresh.1,
                silent,
              ))
        ]
      ]
