-- ===== src/Host/Run/Virtual.antt =====
-- host/src/runner.rs: the loop in virtual time.
use fieldbus_control_node.Prelude.{
  ℕ, zero, suc, ◌+◌, ◌-◌, ◌*◌, ◌/◌, ◌^◌, ◌<◌, ◌≤◌, ◌≡◌, refl, sym, ap, ◌∙◌, subst, arith, Bool,
  true, false, Option, [], u64, if_false, ltb,
}
use native.Mathlib.Nat.{mul-div_cancel, mul-le-mul_right, mul-le-mul_left}
use fieldbus_control_node.Control.Float.{Float32}
use fieldbus_control_node.Telemetry.{record_sample}
use fieldbus_control_node.Telemetry
use fieldbus_control_node.Host.Ledger.{account_cycle_start}
use fieldbus_control_node.Host.Ledger
use fieldbus_control_node.Host.Schedule.{System, virtual}
use fieldbus_control_node.Host.Timing.{
  Timing, charge_skipped, record_wake, time_start, time_end, untimed,
}
use fieldbus_control_node.Host.Contention.{HogWindow}
use fieldbus_control_node.Host.Run.{
  CanBus, Clock, RunConfig, Loop, start_us, end_us, run_cycle, run_cycles, started, outcome_of, run,
}

-- Before a cycle: nothing was late.
record IsOnTime (period cycle : ℕ) (t : Timing) : Type 0 where
  misses : t.misses ≡ []
  missed : t.jitter.missed_deadlines ≡ 0
  latest : t.jitter.max_us ≡ 0
  period_us : t.ledger.period_us ≡ period
  accounted : t.ledger.next_unaccounted ≡ cycle

start_fits :
    (period cycle : ℕ) → cycle * period + period < 2 ^ 64 → u64 (cycle * period) ≡ cycle * period
start_fits period cycle h = omega arith

cycle_fits : (period cycle : ℕ) → 0 < period → cycle * period + period < 2 ^ 64 → cycle + 1 < 2 ^ 64
cycle_fits period cycle pos_period h =
    let le : cycle * 1 ≤ cycle * period = mul-le-mul_left _ (omega arith) in omega arith

wake-IsOnTime :
    (period cycle : ℕ) (t : Timing) (b : Bool)
    → IsOnTime period cycle t
    → IsOnTime period cycle (record_wake t b 0)
unfolding record_wake record_sample
wake-IsOnTime period cycle t true h = record {
  misses = h.misses;
  missed = h.missed;
  latest = ground (arith, h.latest);
  period_us = h.period_us;
  accounted = h.accounted;
}
wake-IsOnTime period cycle t false h = record {
  misses = h.misses;
  missed = h.missed;
  latest = ground (arith, h.latest);
  period_us = h.period_us;
  accounted = h.accounted;
}

time_start-IsOnTime :
    (period cycle : ℕ) (t : Timing) (b : Bool)
    → 0 < period
    → cycle * period + period < 2 ^ 64
    → IsOnTime period cycle t
    → IsOnTime period (cycle + 1) (time_start period t b cycle (u64 (cycle * period)))
unfolding time_start account_cycle_start charge_skipped
time_start-IsOnTime period cycle t b pos_period fits h =
    let start = u64 (cycle * period) in
    let none_late : start - start ≡ 0 = omega arith in
    let woken : IsOnTime period cycle (record_wake t b (start - start)) =
      subst (λ j. IsOnTime period cycle (record_wake t b j)) (sym none_late)
        (wake-IsOnTime period cycle t b h) in
    let w = record_wake t b (start - start) in
    let index : start / w.ledger.period_us ≡ cycle =
      rw woken.period_us
        (ap (λ x. x / period) (start_fits period cycle fits) ∙ mul-div_cancel cycle pos_period) in
    let skips : start / w.ledger.period_us - w.ledger.next_unaccounted ≡ 0 =
      omega (arith, index, woken.accounted) in
    let next : u64 (start / w.ledger.period_us + 1) ≡ cycle + 1 =
      omega (arith, index, cycle_fits period cycle pos_period fits) in
    subst
      (λ k. IsOnTime period (cycle + 1) (
        charge_skipped
          (record w {
            ledger = record w.ledger { next_unaccounted = u64 (start / w.ledger.period_us + 1) };
          })
          b period cycle (start - start) 0 k))
      (sym skips)
      (record {
        misses = woken.misses;
        missed = woken.missed;
        latest = woken.latest;
        period_us = woken.period_us;
        accounted = next;
      })

time_end-IsOnTime :
    (period cycle next : ℕ) (t : Timing) (b : Bool)
    → cycle * period + period < 2 ^ 64
    → IsOnTime period next t
    → IsOnTime period next (time_end period t b cycle (u64 (cycle * period)) (u64 (cycle * period)))
unfolding time_end
time_end-IsOnTime period cycle next t b fits h =
    let scheduled = u64 (cycle * period) in
    let kept : ltb (u64 (scheduled + period)) scheduled ≡ false = ground arith in
    subst (IsOnTime period next) (sym (if_false _ _ kept)) h

module _ (fl : Float32) (io : CanBus) (cfg : RunConfig) (clock : Clock) where
  module _ (timed : cfg.mode ≡ virtual) (pos_period : 0 < cfg.period_us) where
    run_cycle-IsOnTime :
        (l : Loop fl io) (cycle : ℕ)
        → cycle * cfg.period_us + cfg.period_us < 2 ^ 64
        → IsOnTime cfg.period_us cycle l.timing
        → IsOnTime cfg.period_us (cycle + 1) (run_cycle fl io cfg clock l cycle).timing
    unfolding run_cycle start_us end_us
    run_cycle-IsOnTime l cycle fits h = rw timed (
        time_end-IsOnTime cfg.period_us cycle (cycle + 1) _ _ fits
          (time_start-IsOnTime cfg.period_us cycle l.timing _ pos_period fits h))

    run_cycles-on_time :
        (left cycle : ℕ) (l : Loop fl io)
        → (cycle + left) * cfg.period_us < 2 ^ 64
        → IsOnTime cfg.period_us cycle l.timing
        → let t = (run_cycles fl io cfg clock left cycle l).timing in
          (t.misses ≡ []) × (t.jitter.missed_deadlines ≡ 0) × (t.jitter.max_us ≡ 0)
    unfolding run_cycles
    run_cycles-on_time zero cycle l fits h = (h.misses, h.missed, h.latest)
    run_cycles-on_time (suc left) cycle l fits h =
        let le : (cycle + 1) * cfg.period_us ≤ (cycle + suc left) * cfg.period_us =
          mul-le-mul_right cfg.period_us (omega arith) in
        let one : (cycle + 1) * cfg.period_us ≡ cycle * cfg.period_us + cfg.period_us =
          grind arith in
        let shift : cycle + suc left ≡ cycle + 1 + left = omega arith in
        run_cycles-on_time left (cycle + 1) _ (subst (λ k. k * cfg.period_us < 2 ^ 64) shift fits)
          (run_cycle-IsOnTime l cycle (omega arith) h)

-- In virtual time no run has a miss and none of its cycles wakes late, whatever the bus delivers:
-- for a positive period and a run that ends within 64 bits of microseconds.
pub run-virtual :
    (fl : Float32) (io : CanBus) (sys : System) (clock : Clock) (b : io.State) (cfg : RunConfig)
    (w : Option HogWindow)
    → cfg.mode ≡ virtual
    → 0 < cfg.period_us
    → cfg.cycles * cfg.period_us < 2 ^ 64
    → let out = (run fl io sys clock b cfg w).1 in
      (out.misses ≡ []) × (out.jitter.missed_deadlines ≡ 0) × (out.jitter.max_us ≡ 0)
unfolding run outcome_of started untimed Telemetry.new Ledger.new
run-virtual fl io sys clock b cfg w timed pos_period fits =
    let k =
      run_cycles-on_time fl io cfg clock timed pos_period cfg.cycles 0 (started fl io cfg w b)
        (omega arith)
        (record {
          misses = refl;
          missed = refl;
          latest = refl;
          period_us = omega arith;
          accounted = refl;
        }) in
    k
