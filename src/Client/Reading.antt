-- ===== src/Client/Reading.antt =====
-- How `recv_utterance` of src/marshall/radio/client.py reads the parts of a datagram.
use marshall.Prelude.{
  ℕ, zero, suc, ◌+◌, ◌-◌, ◌≤◌, ◌<◌, ◌≡◌, refl, sym, ap, subst, ◌∙◌, Bool, true, false, some, [],
  ◌∷◌, ◌++◌, length, take, drop, leb, arith,
}
use mathlib.Core.List.{append_assoc}
use marshall.Client.{Bytes, little_endian, unpack, guid_len, slice, read_received}

pub length-append : (xs ys : Bytes) → length (xs ++ ys) ≡ length xs + length ys
length-append [] ys = omega arith
length-append (x ∷ xs) ys = omega (arith, length-append xs ys)

take-append : (xs ys : Bytes) → take (length xs) (xs ++ ys) ≡ xs
take-append [] ys = refl
take-append (x ∷ xs) ys = ap (λ zs. x ∷ zs) (take-append xs ys)

drop-append : (xs ys : Bytes) → drop (length xs) (xs ++ ys) ≡ ys
drop-append [] ys = refl
drop-append (x ∷ xs) ys = drop-append xs ys

-- A list of which less than that is taken is taken whole.
pub take-whole : (n : ℕ) (xs : Bytes) → length (take n xs) < n → take n xs ≡ xs
take-whole zero xs h = absurd (omega arith)
take-whole (suc n) [] h = refl
take-whole (suc n) (x ∷ xs) h = ap (λ zs. x ∷ zs) (take-whole n xs (omega arith))

-- So is one that is no longer than that.
pub take-short : (n : ℕ) (xs : Bytes) → length xs ≤ n → take n xs ≡ xs
take-short zero [] h = refl
take-short zero (x ∷ xs) h = absurd (omega arith)
take-short (suc n) [] h = refl
take-short (suc n) (x ∷ xs) h = ap (λ zs. x ∷ zs) (take-short n xs (omega arith))

-- Two bytes hold what is below 65536.
unpack-pack : (v : ℕ) → v < 65536 → unpack (little_endian 2 v) ≡ v
unfolding unpack little_endian
unpack-pack v h = omega arith

drop-nil : (n : ℕ) → drop {A = ℕ} n [] ≡ []
drop-nil zero = refl
drop-nil (suc n) = refl

drop_add : (m n : ℕ) (xs : Bytes) → drop (m + n) xs ≡ drop n (drop m xs)
drop_add zero n xs = ap (λ k. drop k xs) (omega arith)
drop_add (suc m) n [] = drop-nil (suc m + n) ∙ sym (drop-nil n)
drop_add (suc m) n (x ∷ xs) = ap (λ k. drop k (x ∷ xs)) (shift m n) ∙ drop_add m n xs
  where
    shift : (m n : ℕ) → suc m + n ≡ suc (m + n)
    shift m n = omega arith

-- The last bytes of a list.
drop-last : (xs ys : Bytes) (n : ℕ) → length ys ≡ n → drop (length (xs ++ ys) - n) (xs ++ ys) ≡ ys
drop-last xs ys n h =
    let e : length (xs ++ ys) - n ≡ length xs = omega (arith, length-append xs ys) in
    rw e (drop-append xs ys)

take-first : (xs ys : Bytes) (n : ℕ) → length xs ≡ n → take n (xs ++ ys) ≡ xs
take-first xs ys n h = rw (sym h) (take-append xs ys)

drop-first : (xs ys : Bytes) (n : ℕ) → length xs ≡ n → drop n (xs ++ ys) ≡ ys
drop-first xs ys n h = rw (sym h) (drop-append xs ys)

-- A datagram with those parts, as it is read.
pub read-parts :
    {Freq : Type 0} (unpack_d : Bytes → Freq) (is_ignored : Bytes → Bool) (p a f : ℕ)
    (audio first more front guid : Bytes)
    → a < 65536
    → f < 65536
    → length audio ≡ a
    → length first ≡ 8
    → length first + length more ≡ f
    → length guid ≡ 22
    → is_ignored guid ≡ false
    → read_received unpack_d is_ignored (
        (little_endian 2 p ++ (little_endian 2 a ++ little_endian 2 f))
        ++ (audio ++ ((first ++ more) ++ (front ++ (guid ++ guid)))))
      ≡ some (record { guid = guid; audio = audio; on = some (unpack_d first) })
unfolding read_received little_endian
read-parts unpack_d is_ignored p a f audio first more front guid la lf ha h8 hf hg hi =
    rw (the_guid, hi, audio_len, freq_len, the_audio, the_on, long, enough, read_received) refl
  where
    rest : Bytes
    rest = audio ++ ((first ++ more) ++ (front ++ (guid ++ guid)))

    whole : Bytes
    whole = (little_endian 2 p ++ (little_endian 2 a ++ little_endian 2 f)) ++ rest

    audio_len : unpack (slice 2 2 whole) ≡ a
    audio_len = unpack-pack a la

    freq_len : unpack (slice 4 2 whole) ≡ f
    freq_len = unpack-pack f lf

    the_audio : slice 6 a whole ≡ audio
    the_audio = take-first audio ((first ++ more) ++ (front ++ (guid ++ guid))) a ha

    the_on : slice (6 + a) 8 whole ≡ first
    the_on =
        ap (take 8) (
          drop_add 6 a whole ∙ drop-first audio ((first ++ more) ++ (front ++ (guid ++ guid))) a ha)
        ∙ (ap (take 8) (append_assoc first more (front ++ (guid ++ guid)))
            ∙ take-first first (more ++ (front ++ (guid ++ guid))) 8 h8)

    before : Bytes
    before =
        (little_endian 2 p ++ (little_endian 2 a ++ little_endian 2 f))
        ++ (audio ++ ((first ++ more) ++ (front ++ guid)))

    ends : before ++ guid ≡ whole
    ends =
        rw
          (
            append_assoc audio ((first ++ more) ++ (front ++ guid)) guid,
            append_assoc (first ++ more) (front ++ guid) guid,
            append_assoc front guid guid,
          )
          refl

    the_guid : drop (length whole - guid_len) whole ≡ guid
    the_guid = subst (λ w. drop (length w - guid_len) w ≡ guid) ends (drop-last before guid 22 hg)

    long : leb (length whole) guid_len ≡ false
    long =
        let n = length-append audio ((first ++ more) ++ (front ++ (guid ++ guid))) in
        let m = length-append (first ++ more) (front ++ (guid ++ guid)) in
        let k = length-append front (guid ++ guid) in
        let j = length-append guid guid in ground arith

    enough : leb 8 f ≡ true
    enough = ground arith
