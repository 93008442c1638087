-- ===== src/Client/Tests.antt =====
-- A few messages and one datagram. A frequency is here its eight bytes.
use marshall.Prelude.{
  ℕ, ◌+◌, ◌*◌, ◌<◌, ◌≡◌, refl, arith, false, Option, none, some, List, [], ◌∷◌, ◌++◌, eqb, length,
  if◌then◌else◌,
}
use marshall.Prelude.Dict
use marshall.Client.{
  Bytes, cut, Message, note_all, records, name_for, Received, timed_out, chunk, Ear, harvest,
  take_lines, take_chunk, drain_tcp, sent, little_endian, pack, Sender, frequency_block,
  frequency_segment, header, fixed_segment, voice_packet, read_packet,
}
use marshall.Client.Lines.{harvest_all}
use marshall.Client.Roster.{bytes_of, drain_tcp-sent}
use marshall.Client.Packets.{voice_packet-bounds, voice_packet-read}

-- What `json.loads` makes of a line of one byte, of one of two, and of no other.
abbrev loads : Bytes → Option Message
loads line =
    if eqb (length line) 1
    then some (record { clients = []; client = some (record { guid = "g1"; name = "Shooter" }) })
    else if eqb (length line) 2
    then some (record {
      clients =
          record { guid = "g2"; name = "Sockeye" } ∷ record { guid = ""; name = "Nobody" } ∷ [];
      client = none;
    })
    else none

abbrev unheard : Ear
unheard = record { buf = []; roster = []; ended = "" }

abbrev messages : List Bytes
messages = (65 ∷ []) ∷ (66 ∷ 67 ∷ []) ∷ []

-- The second message comes in two pieces.
abbrev pieces : List Received
pieces = chunk (65 ∷ 10 ∷ 66 ∷ []) ∷ timed_out ∷ chunk (67 ∷ 10 ∷ []) ∷ []

drain_tcp-pieces :
    drain_tcp loads pieces unheard
    ≡ record unheard { roster = ("g1", "Shooter") ∷ ("g2", "Sockeye") ∷ [] }
unfolding drain_tcp take_chunk take_lines cut harvest note_all records Dict.put
drain_tcp-pieces = refl

-- A connection that is closed stays as it was left.
drain_tcp-closed :
    (drain_tcp loads (chunk (65 ∷ []) ∷ chunk [] ∷ chunk (10 ∷ []) ∷ []) unheard).ended
    ≡ "server closed the connection"
unfolding drain_tcp
drain_tcp-closed = refl

drain_tcp-sent_example :
    drain_tcp loads pieces unheard ≡ record unheard { roster = harvest_all loads messages [] }
unfolding sent bytes_of
drain_tcp-sent_example =
    drain_tcp-sent loads messages pieces unheard ((refl, tt), ((refl, (refl, tt)), tt)) tt refl refl

name_for-known : name_for (λ g. "g1abcd") (("g1abcdefgh", "Shooter") ∷ []) "g1abcdefgh" ≡ "Shooter"
unfolding name_for Dict.get
name_for-known = refl

abbrev Freq : Type 0
Freq = ℕ × ℕ

abbrev pack_d : Freq → Bytes
pack_d f = f.0 ∷ f.1 ∷ 0 ∷ 0 ∷ 0 ∷ 0 ∷ 0 ∷ 0 ∷ []

abbrev unpack_d : Bytes → Freq
unpack_d (a ∷ b ∷ rest) = (a, b)
unpack_d _ = (0, 0)

abbrev batumi_tower : Sender
batumi_tower = record {
  guid =
      65 ∷ 66 ∷ 67 ∷ 68 ∷ 69 ∷ 70 ∷ 71 ∷ 72 ∷ 73 ∷ 74 ∷ 75 ∷ 76 ∷ 77 ∷ 78 ∷ 79 ∷ 80 ∷ 81 ∷ 82 ∷ 83
      ∷ 84 ∷ 85 ∷ 86 ∷ [];
  unit_id = 100_000_300;
  packet_id = 7;
}

abbrev sound : Bytes
sound = 1 ∷ 2 ∷ 3 ∷ []

abbrev datagram : Bytes
datagram =
    87 ∷ 0 ∷ 3 ∷ 0 ∷ 20 ∷ 0 ∷ sound
    ++ ((pack_d (1, 2) ++ 0 ∷ 0 ∷ []) ++ (pack_d (3, 4) ++ 0 ∷ 0 ∷ []))
    ++ (0 ∷ 44 ∷ 226 ∷ 245 ∷ 5 ∷ 7 ∷ 0 ∷ 0 ∷ 0 ∷ 0 ∷ 0 ∷ 0 ∷ 0 ∷ 0 ∷ [])
    ++ batumi_tower.guid
    ++ batumi_tower.guid

voice_packet-two :
    voice_packet pack_d batumi_tower sound (((1, 2), 0) ∷ ((3, 4), 0) ∷ []) ≡ some datagram
unfolding voice_packet header fixed_segment frequency_segment frequency_block pack little_endian
voice_packet-two = refl

voice_packet-bounds_example : length sound + 10 * 2 < 65472
voice_packet-bounds_example =
    voice_packet-bounds pack_d (λ f. refl) batumi_tower sound (((1, 2), 0) ∷ ((3, 4), 0) ∷ [])
      datagram voice_packet-two

voice_packet-read_example :
    read_packet unpack_d (λ g. false) datagram
    ≡ some (record { guid = batumi_tower.guid; audio = sound; on = some (1, 2) })
voice_packet-read_example =
    voice_packet-read pack_d unpack_d (λ g. false) batumi_tower sound (1, 2) 0 (((3, 4), 0) ∷ [])
      datagram (λ f. refl) refl refl refl voice_packet-two (omega arith)
