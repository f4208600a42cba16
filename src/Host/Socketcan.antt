-- ===== src/Host/Socketcan.antt =====
-- host/src/socketcan.rs: the bus on an AF_CAN socket. The socketcan crate is a parameter: its frame
-- types, what reads and builds them, and a socket as a state that each call passes on.
pub mod Convert
pub mod Drain
pub mod Cross
use Prim.Native.String.{String, ◌++◌}
use fieldbus_control_node.Prelude.{
  ℕ, zero, suc, ◌^◌, ◌<◌, ◌≤◌, ◌≡◌, Bool, true, false, Option, none, some, List, [], ◌∷◌, Result,
  ok, err, ◌>>=◌, min, ◌==◌, if◌then◌else◌, length, get_or, take, u8,
}
use fieldbus_control_node.J1939.Payload.{Frame, Bytes8}
use fieldbus_control_node.Host.Bus.{BusError, io}
use fieldbus_control_node.Host.Run.{CanBus}

-- The crate's enums over its own types of identifiers and frames.
pub data FrameId (E S : Type 0) : Type 0 where
  extended : E → FrameId E S
  standard : S → FrameId E S

pub data CanFrame (D R E : Type 0) : Type 0 where
  data_frame : D → CanFrame D R E
  remote : R → CanFrame D R E
  error : E → CanFrame D R E

-- The socketcan crate, and how the standard library prints a number in hexadecimal and in decimal.
pub record Crate : Type 1 where
  pub ExtendedId : Type 0
  pub StandardId : Type 0
  pub DataFrame : Type 0
  pub RemoteFrame : Type 0
  pub ErrorFrame : Type 0
  pub Socket : Type 0
  pub extended_id : ℕ → Option ExtendedId
  pub as_raw : ExtendedId → ℕ
  pub new_frame : FrameId ExtendedId StandardId → List ℕ → Option DataFrame
  pub frame_id : DataFrame → FrameId ExtendedId StandardId
  pub frame_data : DataFrame → List ℕ
  pub open_socket : String → Result Socket String
  pub set_nonblocking : Socket → Bool → Socket × Result (Unit {0}) String
  pub set_read_timeout : Socket → ℕ → Socket × Result (Unit {0}) String
  pub write_frame : Socket → DataFrame → Socket × Result (Unit {0}) String
  pub read_frame : Socket → Socket × Result (CanFrame DataFrame RemoteFrame ErrorFrame) String
  pub lower_hex : ℕ → String
  pub decimal : ℕ → String

-- What the crate documents: an extended identifier is any number of 29 bits, a data frame holds at
-- most eight bytes, and both give back what they were made of.
pub record CrateLaws (crate : Crate) : Type 0 where
  pub extended_id-fits :
      (n : ℕ)
      → n < 2 ^ 29
      → (e : crate.ExtendedId) × (crate.extended_id n ≡ some e) × (crate.as_raw e ≡ n)
  pub extended_id-wide : (n : ℕ) → 2 ^ 29 ≤ n → crate.extended_id n ≡ none
  pub new_frame-fits :
      (i : FrameId crate.ExtendedId crate.StandardId) (payload : List ℕ)
      → length payload ≤ 8
      → (d : crate.DataFrame) × (crate.new_frame i payload ≡ some d)
        × (crate.frame_id d ≡ i)
        × (crate.frame_data d ≡ payload)

-- `&frame.data`, and eight zero bytes overwritten from the front.
unfoldable pub bytes_of : Bytes8 → List ℕ
bytes_of d = d.b0 ∷ d.b1 ∷ d.b2 ∷ d.b3 ∷ d.b4 ∷ d.b5 ∷ d.b6 ∷ d.b7 ∷ []

unfoldable pub copy_from : List ℕ → Bytes8
copy_from bytes = record {
  b0 = get_or bytes 0 0;
  b1 = get_or bytes 1 0;
  b2 = get_or bytes 2 0;
  b3 = get_or bytes 3 0;
  b4 = get_or bytes 4 0;
  b5 = get_or bytes 5 0;
  b6 = get_or bytes 6 0;
  b7 = get_or bytes 7 0;
}

-- `ok_or_else` and `map_err` with a text of the bus.
unfoldable pub or_io {ℓ} : {A : Type ℓ} → Option A → String → Result A BusError
or_io none text = err (io text)
or_io (some a) text = ok a

unfoldable pub io_err {ℓ} : {A : Type ℓ} → String → Result A String → Result A BusError
io_err text (ok a) = ok a
io_err text (err e) = err (io (text ++ e))

module _ (crate : Crate) where
  abbrev pub AnyId : Type 0
  AnyId = FrameId crate.ExtendedId crate.StandardId

  abbrev pub AnyFrame : Type 0
  AnyFrame = CanFrame crate.DataFrame crate.RemoteFrame crate.ErrorFrame

  pub record SocketCanBus : Type 0 where
    pub sock : crate.Socket
    pub iface : String

  -- The mode of a fresh socket: a timeout of zero makes it non-blocking.
  unfoldable pub set_mode : crate.Socket → String → ℕ → crate.Socket × Result (Unit {0}) BusError
  set_mode sock iface read_timeout =
      let (s₁, r₁) = crate.set_nonblocking sock true in
      let (s₂, r₂) = crate.set_read_timeout sock read_timeout in
      if read_timeout == 0
      then (s₁, io_err ("cannot set " ++ iface ++ " non-blocking: ") r₁)
      else (s₂, io_err ("cannot set " ++ iface ++ " read timeout: ") r₂)

  unfoldable pub open_bus : String → ℕ → Result SocketCanBus BusError
  open_bus iface read_timeout = do
    sock ← io_err ("cannot open CAN interface " ++ iface ++ ": ") (crate.open_socket iface)
    let (s, set) = set_mode sock iface read_timeout
    done ← set
    ok (record { sock = s; iface = iface })

  unfoldable pub interface : SocketCanBus → String
  interface b = b.iface

  -- The frame of an identifier and a payload; a standard identifier has none.
  unfoldable pub from_id : AnyId → List ℕ → Option Frame
  from_id (extended e) payload = some (record {
    id = crate.as_raw e;
    dlc = u8 (length payload);
    bytes = copy_from (take (min (length payload) 8) payload);
  })
  from_id (standard s) payload = none

  unfoldable pub from_socketcan : AnyFrame → Option Frame
  from_socketcan (data_frame d) = from_id (crate.frame_id d) (crate.frame_data d)
  from_socketcan (remote r) = none
  from_socketcan (error e) = none

  unfoldable pub to_socketcan : Frame → Result crate.DataFrame BusError
  to_socketcan f = do
    id ←
        or_io (crate.extended_id f.id) ("identifier " ++ crate.lower_hex f.id ++ " exceeds 29 bits")
    or_io (crate.new_frame (extended id) (take (min f.dlc 8) (bytes_of f.bytes)))
        ("cannot build a CAN frame with dlc " ++ crate.decimal f.dlc)

  -- The write of a converted frame; a frame that has no conversion is not written.
  unfoldable pub write_out :
      SocketCanBus → Result crate.DataFrame BusError → SocketCanBus × Result (Unit {0}) BusError
  write_out b (ok out) =
      let (s, written) = crate.write_frame b.sock out in
      (record b { sock = s }, io_err ("write on " ++ b.iface ++ " failed: ") written)
  write_out b (err e) = (b, err e)

  unfoldable pub send : SocketCanBus → Frame → SocketCanBus × Result (Unit {0}) BusError
  send b f = write_out b (to_socketcan f)

  unfoldable pub push : Option Frame → List Frame → List Frame
  push none out = out
  push (some f) out = f ∷ out

  -- The loop of `recv_until`, which ends at the first read that fails, with `reads` rounds to go.
  unfoldable pub drain : ℕ → crate.Socket → crate.Socket × List Frame
  drain zero s = (s, [])
  drain (suc reads) s =
      let (s', read) = crate.read_frame s in
      let (rest, out) = drain reads s' in
      elim read [ ok f ↦ (rest, push (from_socketcan f) out) | err e ↦ (s', []) ]

  unfoldable pub recv_until : ℕ → SocketCanBus → ℕ → SocketCanBus × List Frame
  recv_until reads b deadline_us = let (s, out) = drain reads b.sock in (record b { sock = s }, out)

  abbrev pub socket_bus : ℕ → CanBus
  socket_bus reads = record { State = SocketCanBus; send = send; recv_until = recv_until reads }
