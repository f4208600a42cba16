-- ===== src/Host/Timing.antt =====
-- host/src/runner.rs: what `run` measures of its deadlines, cycle by cycle. The record `Timing`
-- holds those of its local variables.
use fieldbus_control_node.Prelude.{
  ℕ, zero, suc, ◌+◌, ◌-◌, ◌*◌, Bool, List, [], ◌∷◌, ◌++◌, ltb, if◌then◌else◌, u64,
}
use fieldbus_control_node.Telemetry.{JitterStats, record_sample, record_miss}
use fieldbus_control_node.Telemetry
use fieldbus_control_node.Host.Ledger.{PeriodLedger, account_cycle_start}
use fieldbus_control_node.Host.Ledger
use fieldbus_control_node.Host.Schedule.{MissKind, work_overran, skipped_period}

pub record Miss : Type 0 where
  pub cycle : ℕ
  pub kind : MissKind
  pub jitter_us : ℕ
  pub work_us : ℕ
  pub overrun_us : ℕ

-- What the loop keeps about deadlines.
pub record Timing : Type 0 where
  pub jitter : JitterStats
  pub inside_jitter : JitterStats
  pub outside_jitter : JitterStats
  pub misses_inside : ℕ
  pub misses_outside : ℕ
  pub ledger : PeriodLedger
  pub misses : List Miss

unfoldable pub record_wake : Timing → Bool → ℕ → Timing
record_wake t in_window jitter_us =
    let t' = record t { jitter = record_sample t.jitter jitter_us } in
    if in_window
    then record t' { inside_jitter = record_sample t.inside_jitter jitter_us }
    else record t' { outside_jitter = record_sample t.outside_jitter jitter_us }

-- The three statements that charge one miss.
unfoldable pub charge : Timing → Bool → Miss → Timing
charge t in_window miss =
    let t' = record t { jitter = record_miss t.jitter; misses = t.misses ++ miss ∷ [] } in
    if in_window
    then record t' { misses_inside = u64 (t.misses_inside + 1) }
    else record t' { misses_outside = u64 (t.misses_outside + 1) }

-- `for k in 0..skipped`: the index of the next one, and how many are left.
unfoldable pub charge_skipped : Timing → Bool → ℕ → ℕ → ℕ → ℕ → ℕ → Timing
charge_skipped t in_window period_us cycle jitter_us k zero = t
charge_skipped t in_window period_us cycle jitter_us k (suc left) =
    let miss : Miss = record {
      cycle = cycle;
      kind = skipped_period;
      jitter_us = jitter_us;
      work_us = 0;
      overrun_us = jitter_us - u64 (k * period_us);
    } in
    charge_skipped (charge t in_window miss) in_window period_us cycle jitter_us (k + 1) left

-- What a cycle does to its measurements before its exchange; subtractions saturate at zero.
unfoldable pub time_start : ℕ → Timing → Bool → ℕ → ℕ → Timing
time_start period_us t in_window cycle start =
    let jitter_us = start - u64 (cycle * period_us) in
    let t' = record_wake t in_window jitter_us in
    let (ledger, skipped) = account_cycle_start t'.ledger start in
    charge_skipped (record t' { ledger = ledger }) in_window period_us cycle jitter_us 0 skipped

-- What it does to them after its exchange.
unfoldable pub time_end : ℕ → Timing → Bool → ℕ → ℕ → ℕ → Timing
time_end period_us t in_window cycle start end =
    let scheduled = u64 (cycle * period_us) in
    let deadline_us = u64 (scheduled + period_us) in
    if ltb deadline_us end
    then charge t in_window (record {
      cycle = cycle;
      kind = work_overran;
      jitter_us = start - scheduled;
      work_us = end - start;
      overrun_us = end - deadline_us;
    })
    else t

unfoldable pub untimed : ℕ → Timing
untimed period_us = record {
  jitter = Telemetry.new;
  inside_jitter = Telemetry.new;
  outside_jitter = Telemetry.new;
  misses_inside = 0;
  misses_outside = 0;
  ledger = Ledger.new period_us;
  misses = [];
}
