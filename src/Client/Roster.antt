-- ===== src/Client/Roster.antt =====
-- The roster connection of src/marshall/radio/client.py: however the stream is cut into chunks, the
-- messages that come out are those that were sent.
use marshall.Prelude.{◌≡◌, refl, sym, ◌∙◌, Option, List, [], ◌∷◌, ◌++◌, length, All, arith}
use mathlib.Core.List.{append_assoc, append-nil}
use marshall.Client.{
  Bytes, Message, Received, timed_out, chunk, broken, Ear, take_chunk, drain_tcp, sent,
}
use marshall.Client.Lines.{
  lines_of, lines_of-append, lines_of-rest, harvest_all, harvest_all-append, take_lines-lines_of,
  IsLine, sent-lines_of,
}

-- The bytes of a connection that neither breaks nor ends.
unfoldable pub bytes_of : List Received → Bytes
bytes_of [] = []
bytes_of (timed_out ∷ rest) = bytes_of rest
bytes_of (chunk bytes ∷ rest) = bytes ++ bytes_of rest
bytes_of (broken why ∷ rest) = bytes_of rest

abbrev pub StaysOpen : List Received → Type 0
StaysOpen [] = Unit
StaysOpen (timed_out ∷ rest) = StaysOpen rest
StaysOpen (chunk [] ∷ rest) = ⊥
StaysOpen (chunk (b ∷ bs) ∷ rest) = StaysOpen rest
StaysOpen (broken why ∷ rest) = ⊥

module _ (loads : Bytes → Option Message) where
  -- The ear once all of the bytes have come.
  abbrev after : Bytes → Ear → Ear
  after bytes ear = record ear {
    buf = (lines_of (ear.buf ++ bytes)).1;
    roster = harvest_all loads (lines_of (ear.buf ++ bytes)).0 ear.roster;
  }

  take_chunk-after : (bytes : Bytes) (ear : Ear) → take_chunk loads bytes ear ≡ after bytes ear
  unfolding take_chunk
  take_chunk-after bytes ear =
      rw
        (take_lines-lines_of loads (length (ear.buf ++ bytes)) (ear.buf ++ bytes) ear.roster
          (omega arith))
        refl

  after-append : (xs ys : Bytes) (ear : Ear) → after ys (after xs ear) ≡ after (xs ++ ys) ear
  after-append xs ys ear =
      rw
        (
          sym (append_assoc ear.buf xs ys),
          lines_of-append (ear.buf ++ xs) ys,
          harvest_all-append loads (lines_of (ear.buf ++ xs)).0
              (lines_of ((lines_of (ear.buf ++ xs)).1 ++ ys)).0 ear.roster,
        )
        refl

  after-nil : (ear : Ear) → lines_of ear.buf ≡ ([], ear.buf) → after [] ear ≡ ear
  unfolding harvest_all
  after-nil ear h = rw (append-nil ear.buf, h) refl

  drain_tcp-after :
      (es : List Received) (ear : Ear)
      → StaysOpen es
      → lines_of ear.buf ≡ ([], ear.buf)
      → drain_tcp loads es ear ≡ after (bytes_of es) ear
  unfolding drain_tcp bytes_of
  drain_tcp-after [] ear o h = sym (after-nil ear h)
  drain_tcp-after (timed_out ∷ es) ear o h = drain_tcp-after es ear o h
  drain_tcp-after (chunk [] ∷ es) ear o h = absurd o
  drain_tcp-after (chunk (b ∷ bs) ∷ es) ear o h = rw (take_chunk-after (b ∷ bs) ear) (
      drain_tcp-after es (after (b ∷ bs) ear) o (lines_of-rest (ear.buf ++ b ∷ bs))
      ∙ after-append (b ∷ bs) (bytes_of es) ear)
  drain_tcp-after (broken why ∷ es) ear o h = absurd o

  -- On a connection that stays open, messages without a newline in them that were sent one after the
  -- other are harvested one after the other, however the network cuts the stream and whatever timeouts
  -- come between: the roster is as if each had been handed over whole, and no byte is left.
  pub drain_tcp-sent :
      (ms : List Bytes) (es : List Received) (ear : Ear)
      → All IsLine ms
      → StaysOpen es
      → bytes_of es ≡ sent ms
      → ear.buf ≡ []
      → drain_tcp loads es ear ≡ record ear { roster = harvest_all loads ms ear.roster }
  unfolding lines_of
  drain_tcp-sent ms es ear l o b e =
      drain_tcp-after es ear o (rw e refl) ∙ rw (e, b, sent-lines_of ms l) refl
