-- ===== src/Client/Packets.antt =====
-- A voice datagram of src/marshall/radio/client.py, written and read.
use marshall.Prelude.{
  ℕ, suc, ◌+◌, ◌*◌, ◌^◌, ◌≤◌, ◌<◌, ◌⊎◌, ◌≡◌, refl, sym, ap, subst, ◌∙◌, Bool, false, Option, none,
  some, List, [], ◌∷◌, ◌++◌, length, take, ltb, arith, Bool-cases, Option-cases, inl, inr,
}
use mathlib.Core.Option.{some-injective}
use mathlib.Core.List.{append_assoc}
use marshall.Client.{
  Bytes, header, fixed_segment, little_endian, pack, guid_len, Sender, Heard, frequency_block,
  frequency_segment, voice_packet, receive_len, read_received, read_packet,
}
use marshall.Client.Reading.{length-append, take-whole, take-short, read-parts}

pack-cases : (n v : ℕ) → (pack n v ≡ none) ⊎ ((v < 256 ^ n) × (pack n v ≡ some (little_endian n v)))
unfolding pack
pack-cases n v = elim (Bool-cases (ltb v (256 ^ n))) [
  | inl c ↦ inr (ground arith, rw c refl)
  | inr c ↦ inl (rw c refl)
]

header-some :
    (p a f : ℕ) (head : Bytes)
    → header p a f ≡ some head
    → (p < 65536)
      × (a < 65536)
      × (f < 65536)
      × (head ≡ little_endian 2 p ++ (little_endian 2 a ++ little_endian 2 f))
unfolding header
header-some p a f head h = elim (pack-cases 2 p) [
  | inl c ↦ absurd (cc (rw (c, header) at h))
  | inr (lp, c) ↦ elim (pack-cases 2 a) [
    | inl d ↦ absurd (cc (rw (c, d, header) at h))
    | inr (la, d) ↦ elim (pack-cases 2 f) [
      | inl e ↦ absurd (cc (rw (c, d, e, header) at h))
      | inr (lf, e) ↦ (lp, la, lf, sym (some-injective _ head (rw (c, d, e, header) at h)))
    ]
  ]
]

fixed_segment-some :
    (c : Sender) (fixed : Bytes)
    → fixed_segment c ≡ some fixed
    → (front : Bytes) × (fixed ≡ front ++ (c.guid ++ c.guid)) × (length front ≡ 14)
unfolding fixed_segment little_endian
fixed_segment-some c fixed h = elim (pack-cases 4 c.unit_id) [
  | inl d ↦ absurd (cc (rw (d, fixed_segment) at h))
  | inr (lu, d) ↦ elim (pack-cases 8 c.packet_id) [
    | inl e ↦ absurd (cc (rw (d, e, fixed_segment) at h))
    | inr (lp, e) ↦ (
      (0 ∷ little_endian 4 c.unit_id) ++ (little_endian 8 c.packet_id ++ 0 ∷ []),
      sym (some-injective _ fixed (rw (d, e, fixed_segment) at h)),
      refl,
    )
  ]
]

-- The first block of a frequency segment begins with the frequency.
frequency_segment-first :
    {Freq : Type 0} (pack_d : Freq → Bytes) (f : Freq) (m : ℕ) (freqs : List (Freq × ℕ))
    (seg : Bytes)
    → frequency_segment pack_d ((f, m) ∷ freqs) ≡ some seg
    → (more : Bytes) × (seg ≡ pack_d f ++ more)
unfolding frequency_segment frequency_block
frequency_segment-first pack_d f m freqs seg h = elim (pack-cases 1 m) [
  | inl c ↦ absurd (cc (rw (c, frequency_segment) at h))
  | inr (lm, c) ↦ elim (Option-cases (frequency_segment pack_d freqs)) [
    | inl d ↦ absurd (cc (rw (c, d, frequency_segment) at h))
    | inr (bs, d) ↦ (
      little_endian 1 m ++ (0 ∷ bs),
      sym (some-injective _ seg (rw (c, d, frequency_segment) at h))
          ∙ (append_assoc (pack_d f ++ little_endian 1 m) (0 ∷ []) bs
              ∙ append_assoc (pack_d f) (little_endian 1 m) (0 ∷ bs)),
    )
  ]
]

-- Ten bytes to a frequency.
frequency_segment-length :
    {Freq : Type 0} (pack_d : Freq → Bytes)
    → ((f : Freq) → length (pack_d f) ≡ 8)
    → (freqs : List (Freq × ℕ)) (seg : Bytes) → frequency_segment pack_d freqs ≡ some seg
    → length seg ≡ 10 * length freqs
unfolding frequency_segment frequency_block little_endian
frequency_segment-length pack_d l8 [] seg h = ap length (sym (some-injective [] seg h))
frequency_segment-length pack_d l8 ((f, m) ∷ freqs) seg h = elim (pack-cases 1 m) [
  | inl c ↦ absurd (cc (rw (c, frequency_segment) at h))
  | inr (lm, c) ↦ elim (Option-cases (frequency_segment pack_d freqs)) [
    | inl d ↦ absurd (cc (rw (c, d, frequency_segment) at h))
    | inr (bs, d) ↦
        ap length (sym (some-injective _ seg (rw (c, d, frequency_segment) at h)))
        ∙ ten bs (frequency_segment-length pack_d l8 freqs bs d)
  ]
]
  where
    ten :
        (bs : Bytes)
        → length bs ≡ 10 * length freqs
        → length (((pack_d f ++ little_endian 1 m) ++ 0 ∷ []) ++ bs) ≡ 10 * suc (length freqs)
    ten bs n =
        let a = length-append ((pack_d f ++ little_endian 1 m) ++ 0 ∷ []) bs in
        let b = length-append (pack_d f ++ little_endian 1 m) (0 ∷ []) in
        let d = length-append (pack_d f) (little_endian 1 m) in let e = l8 f in omega arith

-- The parts of a datagram that was written.
voice_packet-some :
    {Freq : Type 0} (pack_d : Freq → Bytes) (c : Sender) (sound : Bytes) (freqs : List (Freq × ℕ))
    (datagram : Bytes)
    → voice_packet pack_d c sound freqs ≡ some datagram
    → (seg : Bytes) × (head : Bytes) × (fixed : Bytes) × (frequency_segment pack_d freqs ≡ some seg)
      × (header
            (6 + length (take 65535 sound) + length seg + 58)
            (length (take 65535 sound))
            (length seg)
          ≡ some head)
      × (fixed_segment c ≡ some fixed)
      × (head ++ (take 65535 sound ++ (seg ++ fixed)) ≡ datagram)
unfolding voice_packet
voice_packet-some pack_d c sound freqs datagram h =
    elim (Option-cases (frequency_segment pack_d freqs)) [
      | inl d ↦ absurd (cc (rw (d, voice_packet) at h))
      | inr (seg, d) ↦ elim (Option-cases (head_of seg)) [
        | inl e ↦ absurd (cc (rw (d, e, voice_packet) at h))
        | inr (head, e) ↦ elim (Option-cases (fixed_segment c)) [
          | inl g ↦ absurd (cc (rw (d, e, g, voice_packet) at h))
          | inr (fixed, g) ↦ (
            seg,
            head,
            fixed,
            d,
            e,
            g,
            some-injective _ datagram (rw (d, e, g, voice_packet) at h),
          )
        ]
      ]
    ]
  where
    head_of : Bytes → Option Bytes
    head_of seg =
        header (6 + length (take 65535 sound) + length seg + 58) (length (take 65535 sound))
          (length seg)

-- A datagram that is written carries fewer than 65472 bytes of sound and frequencies, ten to a
-- frequency: the cut of the sound at 65535 bytes is never what makes it fit.
pub voice_packet-bounds :
    {Freq : Type 0} (pack_d : Freq → Bytes)
    → ((f : Freq) → length (pack_d f) ≡ 8)
    → (c : Sender) (sound : Bytes) (freqs : List (Freq × ℕ)) (datagram : Bytes)
    → voice_packet pack_d c sound freqs ≡ some datagram
    → length sound + 10 * length freqs < 65472
voice_packet-bounds pack_d l8 c sound freqs datagram h =
    let (seg, head, fixed, s, e, g, w) = voice_packet-some pack_d c sound freqs datagram h in
    let sizes = header-some _ _ _ head e in
    let whole : take 65535 sound ≡ sound = take-whole 65535 sound (omega arith) in
    let long : length (take 65535 sound) ≡ length sound = ap length whole in
    let ten = frequency_segment-length pack_d l8 freqs seg s in omega arith

-- What is sent with a first frequency and a GUID of 22 characters is what is heard, if it could be
-- written into a datagram of 1500 bytes at most, the length that is received: the GUID, the sound, all of
-- it, and the first frequency, by a listener that does not ignore the GUID, where a frequency is packed
-- into eight bytes from which it is unpacked again.
pub voice_packet-read :
    {Freq : Type 0} (pack_d : Freq → Bytes) (unpack_d : Bytes → Freq) (is_ignored : Bytes → Bool)
    (c : Sender) (sound : Bytes) (f : Freq) (m : ℕ) (freqs : List (Freq × ℕ)) (datagram : Bytes)
    → ((f : Freq) → length (pack_d f) ≡ 8)
    → unpack_d (pack_d f) ≡ f
    → length c.guid ≡ guid_len
    → is_ignored c.guid ≡ false
    → voice_packet pack_d c sound ((f, m) ∷ freqs) ≡ some datagram
    → length datagram ≤ receive_len
    → read_packet unpack_d is_ignored datagram
      ≡ some (record { guid = c.guid; audio = sound; on = some f })
unfolding read_packet
voice_packet-read {Freq = Freq} pack_d unpack_d is_ignored c sound f m freqs datagram l8 back hg hi
      h short =
    let (seg, head, fixed, s, e, g, w) =
      voice_packet-some pack_d c sound ((f, m) ∷ freqs) datagram h in
    let sizes = header-some _ _ _ head e in
    let whole : take 65535 sound ≡ sound = take-whole 65535 sound (omega arith) in
    let (more, n) = frequency_segment-first pack_d f m freqs seg s in
    let (front, k, k14) = fixed_segment-some c fixed g in
    rw (take-short receive_len datagram short, read_packet)
      (subst (λ d. read_received unpack_d is_ignored d ≡ heard_on f) w
        (reading seg head fixed more front whole sizes.3 n k (omega (arith, ap length whole))
          (omega arith)))
  where
    heard_on : Freq → Option (Heard Freq)
    heard_on x = some (record { guid = c.guid; audio = sound; on = some x })

    reading :
        (seg head fixed more front : Bytes)
        → take 65535 sound ≡ sound
        → head
          ≡ little_endian 2 (6 + length (take 65535 sound) + length seg + 58)
            ++ (little_endian 2 (length (take 65535 sound)) ++ little_endian 2 (length seg))
        → seg ≡ pack_d f ++ more
        → fixed ≡ front ++ (c.guid ++ c.guid)
        → length sound < 65536
        → length seg < 65536
        → read_received unpack_d is_ignored (head ++ (take 65535 sound ++ (seg ++ fixed)))
          ≡ heard_on f
    reading seg head fixed more front whole he n k la lf =
        rw (he, whole, k, n)
          (read-parts unpack_d is_ignored (6 + length sound + length (pack_d f ++ more) + 58)
              (length sound) (length (pack_d f ++ more)) sound (pack_d f) more front c.guid la
              (rw (← n) lf) refl (l8 f) (sym (length-append (pack_d f) more)) hg hi
            ∙ ap heard_on back)
