-- ===== src/Client.antt =====
-- src/marshall/radio/client.py: what the SRS client reads and writes. Bytes are numbers below 256.
-- `drain_tcp` is the roster connection, a line of JSON to a message; `voice_packet` and `read_packet` are
-- the two ends of a voice datagram. `json.loads` and the packing of a floating-point number are arguments;
-- a number that `struct.pack` refuses is `none`.
pub mod Lines
pub mod Roster
pub mod Reading
pub mod Packets
mod Tests
use marshall.Prelude.{
  ℕ, zero, suc, ◌+◌, ◌-◌, ◌*◌, ◌/◌, ◌%◌, ◌^◌, String, Bool, Option, none, some, List, [], ◌∷◌, ◌++◌,
  ◌==◌, ◌||◌, length, take, drop, any, leb, ltb, eqb, if◌then◌else◌,
}
use marshall.Prelude.Dict
use marshall.Prelude.Dict.{Dict}

abbrev pub Bytes : Type 0
Bytes = List ℕ

abbrev pub newline : ℕ
newline = 10

-- buf.split(b"\n", 1), if there is a newline in it
unfoldable pub cut : Bytes → Option (Bytes × Bytes)
cut [] = none
cut (c ∷ cs) =
    let more : Option (Bytes × Bytes) = elim (cut cs) [
      | none ↦ none
      | some p ↦ some (c ∷ p.0, p.1)
    ] in
    if eqb c newline then some ([], cs) else more

-- One client of a message: a field that is missing is empty, and both are of an entry that is no object.
pub record Seen : Type 0 where
  pub guid : String
  pub name : String

-- A message that is an object: its `Clients`, and its `Client` if there is one.
pub record Message : Type 0 where
  pub clients : List Seen
  pub client : Option Seen

abbrev note : Seen → Dict String → Dict String
note s roster = if s.guid == "" || s.name == "" then roster else Dict.put roster s.guid s.name

unfoldable pub note_all : List Seen → Dict String → Dict String
note_all [] roster = roster
note_all (s ∷ ss) roster = note_all ss (note s roster)

unfoldable pub records : Message → List Seen
records m = elim m.client [ none ↦ m.clients | some s ↦ m.clients ++ s ∷ [] ]

-- SRSClient.name_for, of a GUID that is not None; `short` is guid[:6]
unfoldable pub name_for : (String → String) → Dict String → String → String
name_for short roster guid = if guid == "" then "unknown" else elim (Dict.get roster guid) [
  | none ↦ short guid
  | some name ↦ if name == "" then short guid else name
]

-- What `recv` comes back with: a timeout, bytes, or an error of the socket.
pub data Received : Type 0 where
  timed_out : Received
  chunk : Bytes → Received
  broken : String → Received

-- `buf`, the roster, and `roster_ended`
pub record Ear : Type 0 where
  pub buf : Bytes
  pub roster : Dict String
  pub ended : String

module _ (loads : Bytes → Option Message) where
  -- SRSClient._harvest_roster
  unfoldable pub harvest : Bytes → Dict String → Dict String
  harvest line roster = elim (loads line) [ none ↦ roster | some m ↦ note_all (records m) roster ]

  -- while b"\n" in buf: each round takes a byte at least from `buf`
  unfoldable pub take_lines : ℕ → Bytes → Dict String → Bytes × Dict String
  take_lines zero buf roster = (buf, roster)
  take_lines (suc n) buf roster = elim (cut buf) [
    | none ↦ (buf, roster)
    | some p ↦ take_lines n p.1 (harvest p.0 roster)
  ]

  unfoldable pub take_chunk : Bytes → Ear → Ear
  take_chunk bytes ear =
      let buf = ear.buf ++ bytes in
      let left = take_lines (length buf) buf ear.roster in
      record ear { buf = left.0; roster = left.1 }

  -- SRSClient._drain_tcp, over what the socket gives until it is stopped
  unfoldable pub drain_tcp : List Received → Ear → Ear
  drain_tcp [] ear = ear
  drain_tcp (timed_out ∷ rest) ear = drain_tcp rest ear
  drain_tcp (chunk [] ∷ rest) ear = record ear { ended = "server closed the connection" }
  drain_tcp (chunk (b ∷ bs) ∷ rest) ear = drain_tcp rest (take_chunk (b ∷ bs) ear)
  drain_tcp (broken why ∷ rest) ear = record ear { ended = why }

-- What `_send_tcp` puts on the connection, for messages that have been written as JSON.
unfoldable pub sent : List Bytes → Bytes
sent [] = []
sent (m ∷ ms) = m ++ newline ∷ sent ms

-- struct.pack of an unsigned number of that many bytes, the low byte first
unfoldable pub little_endian : ℕ → ℕ → Bytes
little_endian zero v = []
little_endian (suc n) v = v % 256 ∷ little_endian n (v / 256)

unfoldable pub pack : ℕ → ℕ → Option Bytes
pack n v = if ltb v (256 ^ n) then some (little_endian n v) else none

-- struct.unpack of the same
unfoldable pub unpack : Bytes → ℕ
unpack [] = 0
unpack (b ∷ bs) = b + 256 * unpack bs

abbrev pub guid_len : ℕ
guid_len = 22

-- What `_voice_packet` reads of the client. The GUID is `guid_len` characters of ASCII.
pub record Sender : Type 0 where
  pub guid : Bytes
  pub unit_id : ℕ
  pub packet_id : ℕ

-- xs[from:from + n]
abbrev pub slice : ℕ → ℕ → Bytes → Bytes
slice from n xs = take n (drop from xs)

-- What a listener has of a voice datagram: whose it is, the sound, and its first frequency.
pub record Heard (Freq : Type 0) : Type 0 where
  pub guid : Bytes
  pub audio : Bytes
  pub on : Option Freq

abbrev pub and_then {ℓ κ} : {A : Type ℓ} {B : Type κ} → Option A → (A → Option B) → Option B
and_then none f = none
and_then (some a) f = f a

unfoldable pub header : ℕ → ℕ → ℕ → Option Bytes
header packet_len audio_len freq_len =
    and_then (pack 2 packet_len) λ h1.
      and_then (pack 2 audio_len) λ h2. and_then (pack 2 freq_len) λ h3. some (h1 ++ (h2 ++ h3))

-- A pad byte, the unit, the packet's number, no hops, and the GUID as relay and as origin.
unfoldable pub fixed_segment : Sender → Option Bytes
fixed_segment c = and_then (pack 4 c.unit_id) λ unit.
    and_then (pack 8 c.packet_id)
      λ packet. some (((0 ∷ unit) ++ (packet ++ 0 ∷ [])) ++ (c.guid ++ c.guid))

module _ {Freq : Type 0} (pack_d : Freq → Bytes) where
  -- A frequency, its modulation, and no encryption.
  unfoldable pub frequency_block : Freq × ℕ → Option Bytes
  frequency_block (f, m) = and_then (pack 1 m) λ modulation. some (pack_d f ++ modulation ++ 0 ∷ [])

  unfoldable pub frequency_segment : List (Freq × ℕ) → Option Bytes
  frequency_segment [] = some []
  frequency_segment (f ∷ fs) =
      and_then (frequency_block f) λ b. and_then (frequency_segment fs) λ bs. some (b ++ bs)

  -- SRSClient._voice_packet
  unfoldable pub voice_packet : Sender → Bytes → List (Freq × ℕ) → Option Bytes
  voice_packet c sound freqs =
      let audio = take 65535 sound in
      and_then (frequency_segment freqs) λ freq_seg.
        let packet_len = 6 + length audio + length freq_seg + 58 in
        and_then (header packet_len (length audio) (length freq_seg))
          λ head. and_then (fixed_segment c) λ fixed. some (head ++ (audio ++ (freq_seg ++ fixed)))

-- The bytes that `recvfrom` takes of a datagram; what is longer is cut.
abbrev pub receive_len : ℕ
receive_len = 1500

module _ {Freq : Type 0} (unpack_d : Bytes → Freq) where
  -- What is made of the bytes that were received; those of a client to be ignored, or a ping, are nothing.
  unfoldable pub read_received : (Bytes → Bool) → Bytes → Option (Heard Freq)
  read_received is_ignored datagram =
      let audio_len = unpack (slice 2 2 datagram) in
      let freq_len = unpack (slice 4 2 datagram) in
      let guid = drop (length datagram - guid_len) datagram in
      if leb (length datagram) guid_len
      then none
      else if is_ignored guid
      then none
      else some (record {
        guid = guid;
        audio = slice 6 audio_len datagram;
        on = if leb 8 freq_len then some (unpack_d (slice (6 + audio_len) 8 datagram)) else none;
      })

  -- What `recv_utterance` makes of a datagram that arrives
  unfoldable pub read_packet : (Bytes → Bool) → Bytes → Option (Heard Freq)
  read_packet is_ignored datagram = read_received is_ignored (take receive_len datagram)
