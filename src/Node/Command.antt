-- ===== src/Node/Command.antt =====
-- core/src/node.rs: the command frame of a period, as a receiver of the command stream reads it.
use fieldbus_control_node.Prelude.{
  ℕ, ◌+◌, ◌^◌, ◌<◌, ◌≡◌, refl, arith, if◌then◌else◌, none, some, List, u8,
}
use fieldbus_control_node.J1939.Ident.{priority, pgn, unpack, pgn_command, sa_controller}
use fieldbus_control_node.J1939.Ident.Roundtrip.{unpack-pack-from_pgn}
use fieldbus_control_node.J1939.Crc.{crc8_j1850}
use fieldbus_control_node.J1939.Payload.{Frame, Payload, covered, decode, command_frame}
use fieldbus_control_node.J1939.Payload.Roundtrip.{IsPayload, decode-encode, encode-checked}
use fieldbus_control_node.Control.Float.{Float32, FloatLaws}
use fieldbus_control_node.Node.{ControlNode, step, is_some}
use fieldbus_control_node.Node.Ingest.{
  step_lem, actuated, checked, watched, actuate-keeps, last_accepted,
}
use fieldbus_control_node.J1939.Validator.Accounting.{outcomes}
use fieldbus_control_node.Watchdog.{check}

-- What the actuator checks and reads of a command frame.
pub record IsCommand (f : Frame) (p : Payload) : Type 0 where
  pub group : pgn (unpack f.id) ≡ 0xFF01
  pub source : (unpack f.id).source_address ≡ 0x28
  pub length : f.dlc ≡ 8
  pub checksum : f.bytes.b7 ≡ crc8_j1850 (covered f.bytes)
  pub contents : decode f.bytes ≡ p

command_frame-IsCommand :
    (p : Payload) → IsPayload p → IsCommand (command_frame p.seq p.value p.status) p
unfolding command_frame
command_frame-IsCommand p w =
    let id = unpack-pack-from_pgn priority pgn_command sa_controller (omega arith) in
    record {
      group = id.0;
      source = id.1;
      length = refl;
      checksum = (encode-checked p w).0;
      contents = decode-encode p w.value_fits;
    }

module _ (fl : Float32) (laws : FloatLaws fl) where
  open fl use {to_i16}

  -- Every period, whatever arrived, sends one valid command frame: its number is the node's, its
  -- value the commanded actuator cut to an `i16`, and its status tells a safe state from normal
  -- operation; the next period's number is one more, modulo 256.
  pub step-IsCommand :
      (n : ControlNode fl) (now : ℕ) (fs : List Frame)
      → n.tx_seq < 2 ^ 8
      → let r = step fl n now fs in
        (f : Frame) × (r.1.command_frame ≡ some f)
        × IsCommand f (record {
          seq = n.tx_seq;
          value = to_i16 r.1.actuator;
          status = if is_some r.1.safe_state then 0x01 else 0x00;
        })
        × (r.0.tx_seq ≡ u8 (n.tx_seq + 1))
  step-IsCommand n now fs h =
      let fresh = last_accepted fl none (outcomes n.validator fs) in
      let safe = (check (watched fl n now fs) now).1 in
      let number = (actuate-keeps fl (checked fl n now fs) fresh safe).2 in
      let sent : Payload = record {
        seq = n.tx_seq;
        value = to_i16 (actuated fl n now fs).1;
        status = if is_some safe then 0x01 else 0x00;
      } in
      let fits : IsPayload sent = record {
        seq_fits = h;
        value_fits = laws.to_i16-IsI16 (actuated fl n now fs).1;
        status_fits = ground arith;
      } in
      rw (step_lem fl n now fs, number)
        (
          command_frame sent.seq sent.value sent.status,
          refl,
          command_frame-IsCommand sent fits,
          refl,
        )
