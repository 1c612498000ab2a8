-- ===== src/Lib.antt =====
-- Dryer, a control platform for motion machines: the verification library of its control path.
--
-- A host lowers a job to commands, audits them, queues them in a runner, and sends them frame by
-- frame to controllers whose clocks it follows. The parts modelled, and the files of each:
--
--   Protocol  crates/control-protocol/src/lib.rs: the frames of commands, queue statuses and clock
--             exchanges. `Encode` and `Decode` hold the eight entry points, `Sizes` and `Payload`
--             what they share, `Writer`, `Reader` and `Crc` the cursors and the checksum. `Layout`
--             describes the bytes of each frame apart from the code; `Emits`, `Encodes` and
--             `Encoding` show that the encoders write them, `Consumes`, `Decoding` and `Frames`
--             that the decoders read them, and `RoundTrip` joins the two.
--   Clock     crates/clock-sync/src/lib.rs: observations, drift estimates and the synchronizer in
--             `Sync`, on the checked i128 arithmetic of `Arith`. `Observed`, `Projected` and
--             `Drift` invert the chains of checked steps; `TrueClock` is the clock of a physical
--             controller, against which `Covers`, `Window` and `Accepts` state the estimator, and `Push`
--             takes the synchronizer's steps.
--   Client    crates/control-client/src/lib.rs: the command client (`Commands`), the event-driven
--             clock session (`Session`), the transport-agnostic exchange (`Exchange`) and the
--             sessions of a cluster (`Cluster`). `Sequences` is about the command
--             client, `Sessions`, `Answers` and `RoundTrip` about the clock session, `Clusters`
--             about clusters.
--   Auditor   crates/toolpath-auditor/src/lib.rs: the audit, and `Safe`, what it means.
--   Daemon    crates/controller-daemon/src/lib.rs: sessions, snapshots and heartbeats.
--   Runner    crates/workflow-runner/src/lib.rs: enqueuing and status updates in `Steps`, the
--             batches in `Dispatch`; `Conserved` is about the queue and the counters,
--             `Batches` about a batch's size and ticks, `Delivery` about its receipts.
--   Transport crates/transport-adapter/src/lib.rs: `Codec` delimits frames in a byte stream, `Streams`
--             has the memory and channel transports, and `Reader` reads, delimits and dispatches into
--             the daemon. `Returns`, `Delimited`, `Delivers`, `Resync`, `Partial` and `Chunks` are
--             about the delimiter, `Stream` and `Each` about the reader's loop, `Fifo` about the transports.
--   Simulator crates/simulator/src: `Clocks`, `ClockTransport` and `ClockCluster` are the simulated
--             clock links of clock_transport.rs and clock_cluster.rs. `Stateful` is the monad of
--             their fallible methods; `Reads`, `Deliveries`, `Schedule` and `Requests` follow a
--             request over its links, `Receive` takes responses, `Isolated` is about clusters.
--             `CommandLink`, `Controller` and `Traces` are lib.rs: the link of the commands, the
--             controller and the comparison of traces. Under `Controller`, `Accept` takes commands,
--             `Start` begins them, `Step` is a round of `run` and the loop, `Wire` the controller's
--             end of the wire; `Judged` is about the commands taken and refused, `Ordered` and `Rounds`
--             about the queue and the loop, `Envelope` and `Halted` about the safety envelope and
--             the reset.
--   Lowerer   crates/gcode-lowerer/src/lib.rs: `Text` cleans and splits lines, `Lines` lowers them,
--             and `Tracks` follows the positions.
--   Base      lists, options, results, words, integers and maps that the parts share.
--
-- A client encodes with Protocol and hands the frame to its sink; a clock session decodes with
-- Protocol and pushes samples into a synchronizer of Clock; the daemon decodes queue statuses and
-- keeps a cluster of Client; the runner asks the auditor before it enqueues, takes its limits from
-- the daemon's snapshots, and delivers through a command client. Under the client and the daemon the
-- transports carry bytes, from which the stream reader takes the frames; the simulated link answers
-- clock requests with Protocol's frames.
--
-- Conventions. Unsigned words are natural numbers, and a wrap is written out (`% 2 ^ 32`). An
-- i64 or i128 is an integer, each checked operation of Arith answering an overflow outside the
-- i128 range. A `usize` has 64 bits. A byte is a number, and a `String` the list of its UTF-8
-- bytes. A `&mut self` method takes the state and gives it back beside its answer, and a method
-- that writes to a buffer gives back the buffer. A BTreeMap is its list of entries in key order.
-- The functions are the source's by name; the ones that come from one block of a longer function
-- are named for the block, and the comments say which. A loop over a list or a fixed count is
-- structural recursion. Three loops take fuel. For those of `next_frame` and of the stream reader one
-- round more than there are bytes is enough, as each round that goes on drops a byte at least; for
-- `SimController::run`, one more than there are milliseconds to go. With it all three are total.
--
-- Parameters. `is_utf8` stands for core::str::from_utf8, a `SendFrame` for a FrameSink and a
-- `Now` for a HostClock: nothing is assumed of them. The locks of a memory transport and the
-- channels of a channel transport are modelled as the queues that they guard, one operation at a time.
-- `Float` has the f64 operations of the simulated plant, of which nothing is assumed, and the
-- comparison of traces takes the derived equality of events. `Numbers` has the f64 operations of the
-- G-code lowerer, of which its coordinates are asked to be in the range of an i64, and
-- `is_whitespace` is Rust's.
--
-- Not modelled: error texts and other Display output, serialisation, the processes and devices of
-- firmware building and flashing, and the command line. The machine documents (machine-parser,
-- machine-schema, machine-resolver, machine-lock, package-model, resource-model) have no module
-- yet. Of the transport adapter the serial port settings are left out,
-- and of the simulator the JSON texts of its traces.
pub mod Base
pub mod Protocol
pub mod Clock
pub mod Client
pub mod Auditor
pub mod Daemon
pub mod Runner
pub mod Transport
pub mod Simulator
pub mod Lowerer
