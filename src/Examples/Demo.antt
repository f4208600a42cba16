-- ===== src/Examples/Demo.antt =====
-- The theorems on wasm/src/lib.rs and host/src/socketcan.rs at concrete inputs.
use fieldbus_control_node.Prelude.{
  ℕ, ◌^◌, ◌≡◌, refl, arith, false, Option, none, some, List, [], ◌∷◌, leb, ltb, if◌then◌else◌, All,
  pos, Result, ok, err, length,
}
use Prim.Native.String.{String}
use fieldbus_control_node.J1939.Payload.{Frame, sensor_frame}
use fieldbus_control_node.Control.Float.{thousandths}
use fieldbus_control_node.Demo.{Sample, run_demo}
use fieldbus_control_node.Demo.Silent.{trip_at}
use fieldbus_control_node.Demo.Loop.{FromTrip}
use fieldbus_control_node.Demo.Outcome.{run_demo-live, run_demo-stale}
use fieldbus_control_node.Host.Socketcan.{
  Crate, CrateLaws, FrameId, standard, CanFrame, data_frame, remote, SocketCanBus, to_socketcan,
  from_socketcan, recv_until,
}
use fieldbus_control_node.Host.Socketcan.Convert.{IsCarried, from_socketcan-to_socketcan}
use fieldbus_control_node.Host.Socketcan.Drain.{Reads, Carries, recv_until-delivers}
use fieldbus_control_node.Host.Socketcan.Cross.{sensor_frame-IsCarried}

-- The page's corrupted frame at cycle 12 of 60.
run_demo-live_example :
    let d = run_demo thousandths "bad_crc" 60 12 in
    (d.accepted ≡ d.cycles)
    × (d.rejected ≡ 1)
    × (d.safe_latched ≡ false)
    × (d.safe_cycle ≡ none)
    × (d.reaction_us ≡ 0)
    × All (λ (s : Sample thousandths). s.safe ≡ false) d.samples
run_demo-live_example = run_demo-live thousandths "bad_crc" 60 12 refl

-- The crate's own test: a silence from cycle 42 of 50, noticed by the check behind the last cycle.
run_demo-stale_example :
    let d = run_demo thousandths "sensor_stale" 50 42 in
    let f = d.fault_cycle in
    (d.accepted ≡ f)
    × (d.rejected ≡ 0)
    × (d.safe_latched ≡ leb (trip_at f) d.cycles)
    × (d.safe_cycle ≡ (if leb (trip_at f) d.cycles then some (trip_at f) else none))
    × (d.reaction_us ≡ (if leb (trip_at f) d.cycles then 90000 else 0))
    × All (FromTrip thousandths f) d.samples
run_demo-stale_example = run_demo-stale thousandths 50 42

-- A crate whose socket is the list of the frames that it will read.
abbrev AnId : Type 0
AnId = FrameId ℕ ℕ

abbrev Any : Type 0
Any = CanFrame (AnId × List ℕ) ℕ ℕ

abbrev extended_id : ℕ → Option ℕ
extended_id n = if ltb n (2 ^ 29) then some n else none

abbrev new_frame : AnId → List ℕ → Option (AnId × List ℕ)
new_frame i payload = if leb (length payload) 8 then some (i, payload) else none

abbrev read_frame : List Any → List Any × Result Any String
read_frame [] = ([], err "empty")
read_frame (f ∷ fs) = (fs, ok f)

abbrev queue : Crate
queue = record {
  ExtendedId = ℕ;
  StandardId = ℕ;
  DataFrame = AnId × List ℕ;
  RemoteFrame = ℕ;
  ErrorFrame = ℕ;
  Socket = List Any;
  extended_id = extended_id;
  as_raw = λ n. n;
  new_frame = new_frame;
  frame_id = λ d. d.0;
  frame_data = λ d. d.1;
  open_socket = λ iface. ok [];
  set_nonblocking = λ s on. (s, ok tt);
  set_read_timeout = λ s timeout. (s, ok tt);
  write_frame = λ s d. (s, ok tt);
  read_frame = read_frame;
  lower_hex = λ n. "0x0";
  decimal = λ n. "0";
}

queue-laws : CrateLaws queue
queue-laws = record {
  extended_id-fits = λ n h. (n, ground arith, refl);
  extended_id-wide = λ n h. ground arith;
  new_frame-fits = λ i payload h. ((i, payload), ground arith, refl, refl);
}

abbrev reading : Frame
reading = sensor_frame 3 (pos 100) 0

reading-IsCarried : IsCarried reading
reading-IsCarried = sensor_frame-IsCarried 3 (pos 100) 0

from_socketcan-to_socketcan_example :
    (d : AnId × List ℕ) × (to_socketcan queue reading ≡ ok d)
    × (from_socketcan queue (data_frame d) ≡ some reading)
from_socketcan-to_socketcan_example =
    from_socketcan-to_socketcan queue queue-laws reading reading-IsCarried

-- The reading's data frame, between a remote frame and one with a standard identifier.
converted :
    (d : AnId × List ℕ) × (to_socketcan queue reading ≡ ok d)
    × (from_socketcan queue (data_frame d) ≡ some reading)
converted = from_socketcan-to_socketcan queue queue-laws reading reading-IsCarried

abbrev sent_frame : AnId × List ℕ
sent_frame = converted.0

abbrev narrow_frame : AnId × List ℕ
narrow_frame = (standard 5, [])

abbrev traffic : List Any
traffic = remote 0 ∷ data_frame sent_frame ∷ data_frame narrow_frame ∷ []

abbrev bus : SocketCanBus queue
bus = record { sock = traffic; iface = "vcan0" }

traffic-Carries : Carries queue traffic (reading ∷ [])
traffic-Carries = Carries.asked 0 (
    Carries.sent reading sent_frame reading-IsCarried converted.1
      (Carries.narrow narrow_frame 5 refl Carries.nothing))

traffic-Reads : Reads queue traffic traffic []
traffic-Reads = Reads.more (remote 0) refl (
    Reads.more (data_frame sent_frame) refl
      (Reads.more (data_frame narrow_frame) refl (Reads.stop "empty" refl)))

recv_until-delivers_example :
    recv_until queue 4 bus 10000 ≡ (record bus { sock = [] }, reading ∷ [])
recv_until-delivers_example =
    recv_until-delivers queue queue-laws bus 4 10000 [] traffic (reading ∷ []) traffic-Carries
      traffic-Reads (omega arith)
