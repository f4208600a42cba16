-- ===== src/Host/Run/Histogram.antt =====
-- host/src/runner.rs with host/src/bus.rs: the closed loop of the node and the simulated bus.
use fieldbus_control_node.Prelude.{
  ℕ, zero, suc, ◌+◌, ◌*◌, ◌<◌, ◌^◌, ◌≡◌, refl, sym, ap, ◌∙◌, subst, arith, false, ◌&&◌, Option,
  none, some, List, ◌==◌, u32, u64, Result, inl, get_or, get_or-replicate, if_lem,
}
use fieldbus_control_node.J1939.Payload.{Frame, payload_len, covered}
use fieldbus_control_node.J1939.Crc.{crc8_j1850}
use fieldbus_control_node.J1939.Validator.{
  Validator, Reject, index, validate_all, bad_crc, duplicate, out_of_order, out_of_range,
  bad_length,
}
use fieldbus_control_node.J1939.Validator
use fieldbus_control_node.J1939.Validator.Accounting.{
  outcomes, IsCounted, validate_all-IsCounted, validate_all-tallies, new-IsCounted,
}
use fieldbus_control_node.J1939.Validator.Sequence.{IsInRange, Expects}
use fieldbus_control_node.Watchdog.{check}
use fieldbus_control_node.Control.Float.{Float32}
use fieldbus_control_node.Node.{ControlNode, step, with_watchdog_timeout, rejected_by_reason}
use fieldbus_control_node.Node.Ingest.{watched, checked, step_lem, actuate-keeps, last_accepted}
use fieldbus_control_node.Host.Bus.{
  BusError, FaultSchedule, SimBus, contains, frozen, when, burst, noise, send, transmit, recv_until,
}
use fieldbus_control_node.Host.Contention.{HogWindow}
use fieldbus_control_node.Host.Schedule.{System}
use fieldbus_control_node.Host.Run.{
  Clock, RunConfig, Loop, start_us, send_command, exchange, run_cycle, run_cycles, started,
  outcome_of, run,
}
use fieldbus_control_node.Host.Command.{sim_bus}
use fieldbus_control_node.Host.Bus
use fieldbus_control_node.Host.Bus.Caused.{
  silent, caused, caused_through, next_reading, recv_until-IsCaused,
}

module _ (fl : Float32) where
  step-validator :
      (n : ControlNode fl) (now : ℕ) (fs : List Frame)
      → (step fl n now fs).0.validator ≡ validate_all n.validator fs
  step-validator n now fs =
      rw (step_lem fl n now fs)
        (actuate-keeps fl (checked fl n now fs) (last_accepted fl none (outcomes n.validator fs))
          (check (watched fl n now fs) now).1).0

  send-keeps :
      (b : SimBus fl) (f : Frame)
      → let b' = (send fl b f).0 in (b'.seq ≡ b.seq) × (b'.faults ≡ b.faults) × (b'.cycle ≡ b.cycle)
  unfolding send
  send-keeps b f =
      if_lem
        (λ (r : SimBus fl × Result (Unit {0}) BusError).
          (r.0.seq ≡ b.seq) × (r.0.faults ≡ b.faults) × (r.0.cycle ≡ b.cycle))
        (f.dlc == payload_len && f.bytes.b7 == crc8_j1850 (covered f.bytes)) (refl, refl, refl)
        (refl, refl, refl)

  send_command-keeps :
      (b : SimBus fl) (f : Option Frame)
      → let b' = send_command fl (sim_bus fl) b f in
        (b'.seq ≡ b.seq) × (b'.faults ≡ b.faults) × (b'.cycle ≡ b.cycle)
  unfolding send_command
  send_command-keeps b none = (refl, refl, refl)
  send_command-keeps b (some f) = send-keeps b f

  -- Before a cycle of the closed loop: what the schedule has caused so far is what was counted.
  record IsTracked (s : FaultSchedule) (i cycle count : ℕ) (l : Loop fl (sim_bus fl)) : Type 0 where
    counted : IsCounted l.node.validator
    reason : get_or l.node.validator.by_reason i 0 ≡ u32 count
    expects : Expects l.node.validator l.bus.seq
    seq_fits : l.bus.seq < 2 ^ 8
    faults : l.bus.faults ≡ s
    cycle_of_bus : l.bus.cycle ≡ cycle

  module _ (cfg : RunConfig) (clock : Clock) where
    run_cycle-IsTracked :
        (s : FaultSchedule) (i cycle count : ℕ) (l : Loop fl (sim_bus fl))
        → i < 8
        → cycle + 1 < 2 ^ 64
        → (silent s cycle ≡ false → IsInRange (next_reading fl l.bus))
        → IsTracked s i cycle count l
        → IsTracked s i
            (cycle + 1)
            (count + caused s i cycle)
            (run_cycle fl (sim_bus fl) cfg clock l cycle)
    unfolding run_cycle exchange
    run_cycle-IsTracked s i cycle count l small fits within t =
        let deadline = u64 (u64 (cycle * cfg.period_us) + cfg.period_us) in
        let start = start_us cfg.mode clock cycle (u64 (cycle * cfg.period_us)) in
        let got = recv_until fl l.bus deadline in
        let v = l.node.validator in
        let quiet : silent l.bus.faults l.bus.cycle ≡ silent s cycle =
          rw (t.faults, t.cycle_of_bus) refl in
        let c =
          recv_until-IsCaused fl i deadline v l.bus t.expects t.seq_fits
            (λ e. within (sym quiet ∙ e)) in
        let amount : caused l.bus.faults i l.bus.cycle ≡ caused s i cycle =
          rw (t.faults, t.cycle_of_bus) refl in
        let same = step-validator l.node start got.1 in
        let sent = send_command-keeps got.0 (step fl l.node start got.1).1.command_frame in
        let tallied = validate_all-tallies v got.1 i t.counted small (omega (arith, t.reason)) in
        record {
          counted = subst IsCounted (sym same) (validate_all-IsCounted v got.1 t.counted);
          reason =
              ap (λ (u : Validator). get_or u.by_reason i 0) same
              ∙ omega (arith, tallied.1, t.reason, c.refused, amount);
          expects =
              let b =
                send_command fl (sim_bus fl) got.0 (step fl l.node start got.1).1.command_frame in
              subst (λ (u : Validator). Expects u b.seq) (sym same)
                (subst (Expects (validate_all v got.1)) (sym sent.0) c.expects);
          seq_fits = omega (arith, sent.0, c.seq_fits);
          faults = sent.1 ∙ c.faults ∙ t.faults;
          cycle_of_bus = sent.2 ∙ c.cycle ∙ omega (arith, t.cycle_of_bus);
        }

    -- Every reading that the sensor takes in the cycles that are left is in the protocol's range.
    abbrev pub ReadsInRange : FaultSchedule → ℕ → ℕ → Loop fl (sim_bus fl) → Type 0
    ReadsInRange s zero cycle l = Unit {0}
    ReadsInRange s (suc left) cycle l =
        (silent s cycle ≡ false → IsInRange (next_reading fl l.bus))
        × ReadsInRange s left (cycle + 1) (run_cycle fl (sim_bus fl) cfg clock l cycle)

    run_cycles-IsTracked :
        (s : FaultSchedule) (i left cycle count : ℕ) (l : Loop fl (sim_bus fl))
        → i < 8
        → cycle + left < 2 ^ 64
        → ReadsInRange s left cycle l
        → IsTracked s i cycle count l
        → IsTracked s i
            (cycle + left)
            (count + caused_through s i cycle left)
            (run_cycles fl (sim_bus fl) cfg clock left cycle l)
    unfolding run_cycles
    run_cycles-IsTracked s i zero cycle count l small fits within t =
        subst (λ k. IsTracked s i k (count + 0) l) (omega arith)
          (subst (λ k. IsTracked s i cycle k l) (omega arith) t)
    run_cycles-IsTracked s i (suc left) cycle count l small fits within t =
        let l' = run_cycle fl (sim_bus fl) cfg clock l cycle in
        let after = run_cycles fl (sim_bus fl) cfg clock left (cycle + 1) l' in
        let rest =
          run_cycles-IsTracked s i left (cycle + 1) (count + caused s i cycle) l' small
            (omega arith) within.1
            (run_cycle-IsTracked s i cycle count l small (omega arith) within.0 t) in
        subst (λ k. IsTracked s i k (count + caused_through s i cycle (suc left)) after)
          (omega arith) (subst (λ k. IsTracked s i (cycle + 1 + left) k after) (omega arith) rest)

-- In the closed loop with the simulated bus, in either mode and whatever the clock reads, the count
-- of each reason at the end of a run is the number of the faults of its kind that the schedule
-- has in the cycles in which the sensor speaks, in 32 bits; when every reading that the sensor
-- takes is in the protocol's range, and the cycles fit 64 bits.
pub run-histogram :
    (fl : Float32) (sys : System) (clock : Clock) (seed : ℕ) (faults : FaultSchedule)
    (cfg : RunConfig) (w : Option HogWindow) (i : ℕ)
    → i < 8
    → cfg.cycles < 2 ^ 64
    → ReadsInRange fl cfg clock faults cfg.cycles 0
        (started fl (sim_bus fl) cfg w (Bus.new fl seed faults))
    → let out = (run fl (sim_bus fl) sys clock (Bus.new fl seed faults) cfg w).1 in
      get_or out.rejected_by_reason i 0 ≡ u32 (caused_through faults i 0 cfg.cycles)
unfolding run outcome_of started with_watchdog_timeout Validator.new rejected_by_reason Bus.new
run-histogram fl sys clock seed faults cfg w i small fits within =
    let t =
      run_cycles-IsTracked fl cfg clock faults i cfg.cycles 0 0
        (started fl (sim_bus fl) cfg w (Bus.new fl seed faults)) small (omega arith) within
        (record {
          counted = new-IsCounted;
          reason = get_or-replicate 8 i 0;
          expects = inl refl;
          seq_fits = omega arith;
          faults = refl;
          cycle_of_bus = refl;
        }) in
    t.reason ∙ omega arith
