-- ===== src/Lib.antt =====
-- A verification library for marshall, an air traffic controller for DCS flights that is spoken to on
-- the radio.
--
-- The program. `src/marshall/atc` is the controller, `core` holds what it knows of the world, `feed`
-- reads the simulator, `radio` hears and speaks, `atis`, `kneeboard` and `mission` are services beside
-- it. A transmission is transcribed, the agent names what the pilot wants, and a deterministic engine
-- decides: the engine of atc/controller.py separates the aircraft that are on its board; atc/phases.py
-- says what each is doing, from what radar and the conversation say; atc/handoff.py says who should
-- have him now, from his phase, where he is and the seats of core/stations.py; core/airspace.py gives
-- the altitudes that he may have and the reach of a terminal area; atc/flights.py says who flies with
-- whom, so that a formation is one entry of the board. No decision about separation is left to a
-- language model, and this library is about those decisions.
--
-- The files. Prelude holds what the modules share: tests, lists, words and Python's `dict`.
--   Phases        src/marshall/atc/phases.py: the table of phases, `guide`, `may_follow`, `derive` (in
--                 two halves: `wanted` is `_wanted`, `settle` the check against the table). Table,
--                 Deriving and Ladder hold its theorems; Ladder sees the table as a graph.
--   Stations      src/marshall/core/stations.py: `role_at`, `on_frequency`; Best ranks the seats.
--   Airspace      src/marshall/core/airspace.py: `alt_for`, `msa_for`, `mva_for`, the reach of
--                 procedures and terminals; theorems in Altitude and Reach.
--   Handoff       src/marshall/atc/handoff.py: the rules, their conditions, and `due`; theorems in
--                 Safety and Talkdown. It uses Phases, Stations and Airspace, as the source does.
--   Approach      src/marshall/core/approach.py: the levels of a holding stack, `stack_ft` and `top_ft`.
--   Following     src/marshall/core/following.py: `guide`, `next_index` and `off_course`; theorems in Latch,
--                 where `fly` and `watch` are the polls of a flight.
--   Names         src/marshall/core/names.py: `squash`, `same`, `label_for` and `handle`.
--   Identity      src/marshall/atc/identity.py: `unit_for_radio` and the `Registry`. Order shows that the order
--                 of the units does not matter, Claims that nobody is given another's track.
--   Flights       src/marshall/atc/flights.py: the `Roster` and its calls. Same treats `_same` as an
--                 equivalence; Invariant and Keeping hold the table's invariant, Membership what the
--                 calls do to who is where.
--   Controller    src/marshall/atc/controller.py: the board (`Engine`), letdowns, stacks and the next in
--                 line. Sequence has the clearances (`_try_clear`, `_step_down`, `report_beacon`,
--                 `_do_missed`), Missed `report_missed`, Runway the strip (`who_is_on_the_runway`,
--                 `request_takeoff`, `release`). Levels, Order, Letdown, Clearing, Reporting, Missed,
--                 Takeoff and Sighted hold theorems; Sorting the facts about the order of the stack.
--                 Landing has `report_landed`, `report_down` and `end_following`, with theorems in Strip
--                 and Cleared; Clock has `tick`, with theorems in Passing, Rounds and Ticking. Ground has
--                 the calls before take-off and after landing, Waiting any sequence of them, Agreed
--                 their theorem. Asking has `request_approach` and `request_visual`, with theorems in
--                 Queue and Visual.
--   Filing        src/marshall/atc/filing.py: `check` and its answers; Keys has the forms of keys and
--                 labels, `key_for` and `next_key`, Board the table of plans with `file_plan` and
--                 `unfile`. Accepting, Naming, Keeping and Undone hold theorems.
--   Plans         src/marshall/atc/plans.py: squawks and levels as they are said; theorems in Squawk and
--                 Spoken, where `listen` is a listener who writes down what he hears.
--   Progress      src/marshall/atc/progress.py: `where`; theorems in Standing and Nearest.
--   Atis          src/marshall/atis: the letters (broadcast.py), `same_as` (observation.py), `rerecord` and a
--                 poll of `serve` (serve.py). Fresh and Stale are about what is on the air.
--   Pool          src/marshall/radio/pool.py: the threads that share the radio clients, by what one
--                 turn of a thread does to the locks, the semaphore and the list of idle clients. An
--                 interleaving is a list of turns. Sharing, Channels and OnAir are about clients and
--                 channels; Ordered, Progress and Finishing about the end of every call.
--   Client        src/marshall/radio/client.py: the roster connection (`_drain_tcp`) and the two ends of a
--                 voice datagram (`_voice_packet`, `recv_utterance`). Lines and Roster are about the
--                 stream, Reading and Packets about datagrams.
-- The modules named Tests hold runs on concrete data and one instance of each theorem that has
-- conditions.
--
-- Units. Distances are hundredths of a nautical mile, bearings hundredths of a degree, frequencies
-- hertz, levels feet, times seconds, all natural numbers, so that a comparison of the source is the
-- same comparison here. Strings are native strings; `lower`, `strip` and `isalnum` are those of the
-- ASCII and Latin characters that the program's own words use. `None` is `none`, and a missing
-- attribute that the source reads by `getattr` with a default is that default. A list is searched in
-- its order and a `dict` in the order of insertion. Recursion is on a list, but for the levels of a
-- stack: `range` has its top and one more as fuel, which is enough since a step is at least one foot;
-- the loop of `_drain_tcp` over its buffer has the buffer's length, of which each round takes a byte.
--
-- What is a parameter. The geometry of core/geo.py on the sphere (ranges, bearings, along and across a
-- course), and the theatre's own tables (seats on the air, aerodromes, procedures), which the program reads from its
-- configuration and its database. So are `json.loads`, the packing of a float, the units that a scope shows
-- and the seat that `station_for` finds, by what they answer, the approach that a pilot's words name and
-- whether there are any to offer him, the phrase that gives the ATIS, and the words of a recording with what the
-- voice makes of them. The clock is an argument or a field of the state.
--
-- The engine's mutable aircraft are entries of its `dict` under their callsigns. A method that the
-- source begins by `get`, which resolves a spoken callsign and makes the entry, is here a function of
-- the aircraft found; each write goes back to the entry. The words of a transmission are left out, and
-- the decision that the source attaches to them is kept, in order; a procedure has the fixes that its
-- sentences name without a test, as the annotations of `ApproachProfile` say. A method that may raise
-- answers whether it ends without. The table of plans is a `dict` from its primary key; the statement
-- that inserts into it is none where the database raises, by the unique index of the migrations.
-- `next_key` tries 998 numbers, and `squawk_for` 4096, as the source does.
--
-- Not modelled: the agent and what it says (atc/agent_atc.py, briefing, phrasebook, voice), speech and
-- transcription, the parsers of spoken callsigns, plans and clearances, the talkdown's geometry, the
-- feeds of the simulator, the database, the web services, and generated code. They are text, network
-- and floating-point geometry. Of the engine, `check_in` and the break-up of a flight are not modelled; of
-- the radio client, its sockets, its threads and the decoding of the sound; of the plans, the sentences
-- of a clearance and the readers of the database; of the recorded weather, its sentences, the replaying
-- of a recording and the reading of the simulator.
pub mod Prelude
pub mod Names
pub mod Phases
pub mod Pool
pub mod Client
pub mod Identity
pub mod Stations
pub mod Airspace
pub mod Following
pub mod Handoff
pub mod Approach
pub mod Atis
pub mod Controller
pub mod Filing
pub mod Plans
pub mod Progress
pub mod Flights
