-- ===== src/Lib.antt =====
-- ioHdlc, an HDLC stack in C for embedded systems (ISO 13239: NRM and ABM, modulo 8 and 128).
--
-- The protocol core (src/ioHdlc_core.c) keeps a station and its peers (include/ioHdlc.h). A receive
-- thread takes frames from the driver and changes the peer by their type; a transmit thread builds
-- frames from the peer's queues; timers and the functions of the station interface
-- (src/ioHdlc.c) signal events to them. Frames come from a pool with watermarks, and the driver
-- protects them with a check sequence and transparency (src/ioHdlcll.c).
--
-- The files:
--   Base            shared names, Boolean tests, arrays as lists, the bit operations of C
--   State           include/ioHdlc.h and include/ioHdlcframe.h, the records; the timers' state of
--                   src/ioHdlc_runner.c
--   Ll              src/ioHdlcll.c: Ll/Fcs the check sequence, Ll/Transparency the encoding
--   Control         the address and control fields and the frame building functions of
--                   src/ioHdlc_core.c
--   Retry           the timeouts of src/ioHdlc_core.c and `s_link_api_timeout_ms` of src/ioHdlc.c
--   Ack             isNRValid, processNR, checkpointRetransmit, the REJ of handleSFrame
--   Receive         handleCheckpointAndAck to ioHdlcAbmRx: the reception of I-frames and S-frames
--   Connection      ioHdlcSetDisconnected to resetPeerVars, and in Connection/UFrame handleUFrame
--   Transmit        sendOpportunity to responseShouldSetF, ioHdlcNextPeer, sendFrame,
--                   prepareSFrame, ioHdlcConnectedTx and ioHdlcTxEntry: Transmit/Timeouts,
--                   Transmit/IFrames and Transmit/SFrame are parts of ioHdlcConnectedTx,
--                   Transmit/Connected is the whole, Transmit/Entry the pass of ioHdlcTxEntry
--                   over a peer, and Transmit/RoundRobin the choice of the peer
--   Station         src/ioHdlc.c: the peers, their windows, UI values and states, frame sizes;
--                   Station/Write is ioHdlcWriteVTmo, Station/Read ioHdlcReadVTmo, Station/LinkUp
--                   the functions that connect and disconnect a peer, and Station/Settings and
--                   Station/Init ioHdlcStationInit
--   Driver          src/ioHdlcswdriver.c: Driver/Field the frame format field, Driver/Configure the
--                   configuration, Driver/Receive s_on_rx and drv_recv_frame, Driver/Send what
--                   drv_send_frame puts in a buffer, Driver/Pipeline the transmit queue;
--                   Driver/Line a port as include/ioHdlcstreamport.h describes one
--   Queue           include/ioHdlcqueue.h, the linked queues on a heap
--   Pool            src/ioHdlcpool_common.c, os/linux/src/ioHdlcfmempool.c and
--                   include/ioHdlcfmempool_layout.h
--   Tests, DriverTests, StationTests   concrete runs
--
-- A C function keeps its name in snake_case, without the prefix ioHdlc or hdlc. The functions of
-- the core take a Link: a station, the peer that the operation is about, and a log of what is asked
-- of the surroundings (event flags, frames given back, condition variables, the latest first). What
-- runs under `state_mutex` is one function from Link to Link. A queue is the list of its frames,
-- the oldest first, which the linked queue refines; a frame is a value, its buffer the list of its
-- octets, and it is owned by one queue at a time. Sequence numbers and counters are natural numbers
-- with the wrap written out.
-- The state of the pool, which has a lock of its own, is an argument of the functions that read it.
-- Where an assertion can fail on what a caller or a configuration asks for, a function returns
-- nothing or says so, or the state of the transmit queue notes it; other assertions state what the
-- code relies on and are left out.
-- The loops run over the frames of a queue or the octets of a buffer, but for the I-frame loop of
-- the transmit thread, which unlocks the peer in every round: it runs over a list of turns, each
-- with the events polled and with what the other threads do to the link after the round, and it
-- returns nothing when the turns run out; more turns than frames wait in the queue are enough. The
-- loops of a write, a read and an attempt to connect, which wait for the other threads, have such
-- lists too, of any length; where the octets to read are there, more turns than frames wait are
-- enough.
--
-- Not modelled: log messages and statistics; the wait for events and the stop request around the
-- passes of ioHdlcTxEntry, the rest of the software driver (src/ioHdlcswdriver.c), the other
-- functions of the station interface; threads, timers and mutexes of the platforms, their ports and
-- the utilities, which are glue over code outside the repository.
pub mod Base
pub mod Ll
pub mod State
pub mod Control
pub mod Retry
pub mod Ack
pub mod Receive
pub mod Connection
pub mod Pool
pub mod Transmit
pub mod Queue
pub mod Station
pub mod Driver
pub mod Tests
pub mod DriverTests
pub mod StationTests
