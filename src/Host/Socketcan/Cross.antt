-- ===== src/Host/Socketcan/Cross.antt =====
-- host/src/socketcan.rs and core/src/node.rs: the node's frames on a socket.
use fieldbus_control_node.Prelude.{
  ℕ, ◌^◌, ◌<◌, ◌≡◌, refl, arith, some, List, ok, sym, subst, ◌∙◌, ℤ, if◌then◌else◌,
}
use fieldbus_control_node.J1939.Ident.{from_pgn, pack}
use fieldbus_control_node.J1939.Payload.{Frame, Bytes8, sensor_frame, command_frame}
use mathlib.Core.Option.{some-injective}
use fieldbus_control_node.Control.Float.{Float32, FloatLaws}
use fieldbus_control_node.Node.{ControlNode, step, is_some}
use fieldbus_control_node.Node.Command.{IsCommand, step-IsCommand}
use fieldbus_control_node.Host.Socketcan.{
  Crate, CrateLaws, data_frame, bytes_of, from_socketcan, to_socketcan,
}
use fieldbus_control_node.Host.Socketcan.Convert.{IsCarried, IsPadded, from_socketcan-to_socketcan}

full-IsPadded : (d : Bytes8) → IsPadded 8 d
unfolding bytes_of
full-IsPadded d i h = ground arith

pub sensor_frame-IsCarried :
    (seq : ℕ) (value : ℤ) (status : ℕ) → IsCarried (sensor_frame seq value status)
unfolding sensor_frame pack from_pgn
sensor_frame-IsCarried seq value status = record {
  narrow = omega arith;
  short = omega arith;
  padded = full-IsPadded _;
}

pub command_frame-IsCarried :
    (seq : ℕ) (value : ℤ) (status : ℕ) → IsCarried (command_frame seq value status)
unfolding command_frame pack from_pgn
command_frame-IsCarried seq value status = record {
  narrow = omega arith;
  short = omega arith;
  padded = full-IsPadded _;
}

step-command :
    (fl : Float32) (n : ControlNode fl) (now : ℕ) (fs : List Frame)
    → (seq : ℕ) × (value : ℤ) × (status : ℕ) × ((step fl n now fs).1.command_frame
        ≡ some (command_frame seq value status))
unfolding step
step-command fl n now fs = (_, _, _, refl)

module _ (fl : Float32) (fl_laws : FloatLaws fl) (crate : Crate) (laws : CrateLaws crate) where
  open fl use {to_i16}

  -- The command of every period crosses the socket: it is converted, and the data frame reads back
  -- as a valid command frame with the node's number, the actuator's value and the safe status.
  pub step-crosses :
      (n : ControlNode fl) (now : ℕ) (fs : List Frame)
      → n.tx_seq < 2 ^ 8
      → let out = (step fl n now fs).1 in
        (d : crate.DataFrame) × (f : Frame) × (out.command_frame ≡ some f)
        × (to_socketcan crate f ≡ ok d)
        × (from_socketcan crate (data_frame d) ≡ some f)
        × IsCommand f (record {
          seq = n.tx_seq;
          value = to_i16 out.actuator;
          status = if is_some out.safe_state then 0x01 else 0x00;
        })
  step-crosses n now fs h =
      let (f, sent, valid, next) = step-IsCommand fl fl_laws n now fs h in
      let (seq, value, status, made) = step-command fl n now fs in
      let carried : IsCarried f =
        subst IsCarried (some-injective _ _ (sym made ∙ sent))
          (command_frame-IsCarried seq value status) in
      let (d, out, back) = from_socketcan-to_socketcan crate laws f carried in
      (d, f, sent, out, back, valid)
