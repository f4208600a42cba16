-- ===== src/Lib.antt =====
-- A periodic CAN control node with a cloud service for its readings.
--
-- The node (core/src) runs one step every 10 ms: it validates the frames that arrived, feeds its
-- watchdog when one was accepted, filters the fresh reading, checks the watchdog, runs a PI
-- controller or holds the safe value, and sends one command frame. The host (host/src) drives it
-- over a bus, real or simulated, and measures jitter and missed deadlines. The service (cloud/src)
-- takes signed batches of readings from devices, appends them to an event log and rebuilds its
-- state from the log at a start.
--
-- Prelude: tests, lists, integers, machine words, bit operations and results that all parts share.
-- J1939: core/src/j1939.rs. Ident has `Id`, Crc the checksum, Payload the frames and their codec,
--   Validator `Validator`. A frame's `data` is a record of eight bytes. `record_outcome` is the
--   state change of `validate`; `validate_all` is the node's receive loop on the validator alone.
-- Watchdog: core/src/watchdog.rs.
-- Control: core/src/control.rs, `LowPass` and `Pi`, over Control.Float, the interface to `f32`.
-- Node: core/src/node.rs. `step` is composed of `ingest`, `filter_fresh`, the check, `control` and
--   `actuate`.
-- Telemetry: core/src/telemetry.rs, `JitterStats`.
-- Cloud: cloud/src/lib.rs. Map is a BTreeMap as a sorted association list, Wire the records, Sign
--   the HMAC and the hexadecimal texts, Store the durable store on the list of the events whose lines
--   its file has and, in its child File, on the bytes of the file, Ingest its handler of batches, Simulator the device
--   with its ring of unconfirmed readings. Http is cloud/src/main.rs: Request is `read_request` on
--   the bytes of a connection, Admin the check of the administrator's token, Answers the counters
--   and what the responses say, Server `handle` and the accept loop.
-- Host: Bus is host/src/bus.rs. Schedule, Timing, Contention, Ledger and Run are
--   host/src/runner.rs: the policies, the accounting of deadlines, the window of the hog, the
--   period ledger, and `run`, whose local variables are the record `Loop` and whose iterations are
--   `run_cycle`. Hog is host/src/hog.rs: the module itself is the pool as the loop sees it, Spin
--   the interleaved steps of the spinners and of `Signal::set`. Manifest is host/src/manifest.rs;
--   Report, Build and Verdict are host/src/report.rs; Command is the run and the summary of
--   host/src/main.rs, Arguments its command line, files and exit code; Socketcan is
--   host/src/socketcan.rs.
-- Demo: wasm/src/lib.rs. `play` is the loop of `run_demo`.
-- Examples: the theorems at concrete inputs.
--
-- Integers of w bits are natural numbers with the wrap-around of a release build written out, and
-- subtraction stops at zero where the source saturates. Every loop is structural recursion on the
-- list that it runs over, on the cycles that are left or on a number of bits, so no fuel is needed;
-- but for the reads of a socket, which end at the first that fails: `recv_until` of Socketcan takes
-- a number of reads, and any number above that of the frames that are there gives the same.
--
-- Parameters: `f32` and `f64` (operations, with the documented laws of comparisons and casts that
-- some theorems name), SHA-256 and `serde_json`, the disk (which lines are not printed or not
-- written, and whether a failed write leaves its line), the server that a device talks to (a
-- function on its state), the bus of a run, the socketcan crate, what the clock reads in each cycle, the scheduler's return codes, the
-- file system and `str::parse`, the bytes of a connection and how it ends, and what the HTTP
-- server uses of `str`. Control.Float has a model of the `f32` interface in thousandths. A
-- schedule of the spinners is a list of thread steps, sequentially consistent: a relaxed load of the
-- state sees the last store.
--
-- Not modelled: the scheduler calls of macOS (host/src/runner.rs), formatted texts, the environment
-- and what is printed (host/src/report.rs, host/src/main.rs), the sentences of the errors of the
-- command line, the durations of requests and the simulate command (cloud/src/main.rs), the JSON
-- text of the browser demo (wasm/src/lib.rs) and its page (demo): they are input and output around
-- the modelled parts.
pub mod Prelude
pub mod J1939
pub mod Watchdog
pub mod Control
pub mod Node
pub mod Telemetry
pub mod Cloud
pub mod Demo
pub mod Host
pub mod Examples
