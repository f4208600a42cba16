-- ===== src/Host/Run/Listed.antt =====
-- host/src/runner.rs: which misses a run lists.
use fieldbus_control_node.Prelude.{
  ℕ, zero, suc, ◌+◌, ◌-◌, ◌*◌, ◌/◌, ◌≡◌, refl, sym, ap, ◌∙◌, Bool, true, false, List, [], ◌∷◌, ◌++◌,
  max, ltb, u64, if◌then◌else◌, Bool-cases, inl, inr, append_assoc, append_nil, replicate, Option,
}
use fieldbus_control_node.Control.Float.{Float32}
use fieldbus_control_node.Host.Schedule.{MissKind, work_overran, skipped_period, System}
use fieldbus_control_node.Host.Ledger.{PeriodLedger, account_cycle_start}
use fieldbus_control_node.Host.Ledger
use fieldbus_control_node.Host.Timing.{
  Miss, Timing, charge, charge_skipped, record_wake, time_start, time_end, untimed,
}
use fieldbus_control_node.Host.Contention.{HogWindow}
use fieldbus_control_node.Host.Run.{
  CanBus, Clock, RunConfig, Loop, start_us, end_us, run_cycle, run_cycles, started, outcome_of, run,
}

-- The cycle and the kind of each miss.
abbrev pub labels : List Miss → List (ℕ × MissKind)
labels [] = []
labels (m ∷ ms) = (m.cycle, m.kind) ∷ labels ms

-- The misses of a cycle and of those behind it, from the times alone: one for each period from
-- `next` on, the one after that in which the cycle before it started, up to its own, and one if the
-- cycle ends after its deadline.
abbrev pub due : RunConfig → Clock → ℕ → ℕ → ℕ → List (ℕ × MissKind)
due cfg clock zero cycle next = []
due cfg clock (suc left) cycle next =
    let scheduled = u64 (cycle * cfg.period_us) in
    let period = start_us cfg.mode clock cycle scheduled / max cfg.period_us 1 in
    let late = ltb (u64 (scheduled + cfg.period_us)) (end_us cfg.mode clock cycle scheduled) in
    replicate (period - next) (cycle, skipped_period)
    ++ (if late then (cycle, work_overran) ∷ [] else [])
    ++ due cfg clock left (cycle + 1) (u64 (period + 1))

labels-append : (ms ns : List Miss) → labels (ms ++ ns) ≡ labels ms ++ labels ns
labels-append [] ns = refl
labels-append (m ∷ ms) ns = ap (◌∷◌ (m.cycle, m.kind)) (labels-append ms ns)

-- A stretch of the run that leaves the ledger alone and lists some misses.
abbrev Lists : List (ℕ × MissKind) → Timing → Timing → Type 0
Lists ls t t' = (labels t'.misses ≡ labels t.misses ++ ls) × (t'.ledger ≡ t.ledger)

charge-Lists : (t : Timing) (b : Bool) (m : Miss) → Lists ((m.cycle, m.kind) ∷ []) t (charge t b m)
unfolding charge
charge-Lists t true m = (labels-append t.misses (m ∷ []), refl)
charge-Lists t false m = (labels-append t.misses (m ∷ []), refl)

charge_skipped-Lists :
    (left k : ℕ) (t : Timing) (b : Bool) (period cycle jitter : ℕ)
    → Lists
        (replicate left (cycle, skipped_period))
        t
        (charge_skipped t b period cycle jitter k left)
unfolding charge_skipped replicate
charge_skipped-Lists zero k t b period cycle jitter = (sym (append_nil (labels t.misses)), refl)
charge_skipped-Lists (suc left) k t b period cycle jitter =
    let one = charge-Lists t b _ in
    let rest = charge_skipped-Lists left (k + 1) (charge t b _) b period cycle jitter in
    (
      rest.0
          ∙ ap (λ ls. ls ++ replicate left (cycle, skipped_period)) one.0
          ∙ append_assoc (labels t.misses) ((cycle, skipped_period) ∷ []) _,
      rest.1 ∙ one.1,
    )

time_start-labels :
    (period : ℕ) (t : Timing) (b : Bool) (cycle start : ℕ)
    → let t' = time_start period t b cycle start in
      let (ledger, skipped) = account_cycle_start t.ledger start in
      (labels t'.misses ≡ labels t.misses ++ replicate skipped (cycle, skipped_period))
      × (t'.ledger ≡ ledger)
unfolding time_start record_wake
time_start-labels period t true cycle start =
    charge_skipped-Lists _ 0 _ true period cycle (start - u64 (cycle * period))
time_start-labels period t false cycle start =
    charge_skipped-Lists _ 0 _ false period cycle (start - u64 (cycle * period))

time_end-labels :
    (period : ℕ) (t : Timing) (b : Bool) (cycle start end : ℕ)
    → Lists
        (if ltb (u64 (u64 (cycle * period) + period)) end then (cycle, work_overran) ∷ [] else [])
        t
        (time_end period t b cycle start end)
unfolding time_end
time_end-labels period t b cycle start end =
    elim (Bool-cases (ltb (u64 (u64 (cycle * period) + period)) end)) [
      | inl p ↦ rw p (charge-Lists t b _)
      | inr p ↦ rw p (sym (append_nil (labels t.misses)), refl)
    ]

module _ (fl : Float32) (io : CanBus) (cfg : RunConfig) (clock : Clock) where
  run_cycle-labels :
      (l : Loop fl io) (cycle : ℕ)
      → let scheduled = u64 (cycle * cfg.period_us) in
        let start = start_us cfg.mode clock cycle scheduled in
        let end = end_us cfg.mode clock cycle scheduled in
        let (ledger, skipped) = account_cycle_start l.timing.ledger start in
        let late = ltb (u64 (scheduled + cfg.period_us)) end in
        let l' = run_cycle fl io cfg clock l cycle in
        (labels l'.timing.misses
          ≡ labels l.timing.misses
            ++ (replicate skipped (cycle, skipped_period)
                ++ (if late then (cycle, work_overran) ∷ [] else [])))
        × (l'.timing.ledger ≡ ledger)
  unfolding run_cycle
  run_cycle-labels l cycle =
      let scheduled = u64 (cycle * cfg.period_us) in
      let start = start_us cfg.mode clock cycle scheduled in
      let begun = time_start-labels cfg.period_us l.timing _ cycle start in
      let end = end_us cfg.mode clock cycle scheduled in
      let done = time_end-labels cfg.period_us _ _ cycle start end in
      let late = ltb (u64 (scheduled + cfg.period_us)) end in
      (
        done.0
            ∙ ap (λ ls. ls ++ (if late then (cycle, work_overran) ∷ [] else [])) begun.0
            ∙ append_assoc (labels l.timing.misses) _ _,
        done.1 ∙ begun.1,
      )

  run_cycles-labels :
      (left cycle : ℕ) (l : Loop fl io)
      → l.timing.ledger.period_us ≡ max cfg.period_us 1
      → labels (run_cycles fl io cfg clock left cycle l).timing.misses
        ≡ labels l.timing.misses ++ due cfg clock left cycle l.timing.ledger.next_unaccounted
  unfolding run_cycles account_cycle_start
  run_cycles-labels zero cycle l same = sym (append_nil (labels l.timing.misses))
  run_cycles-labels (suc left) cycle l same =
      let one = run_cycle-labels l cycle in
      let l' = run_cycle fl io cfg clock l cycle in
      let period_kept : l'.timing.ledger.period_us ≡ l.timing.ledger.period_us =
        ap (λ (g : PeriodLedger). g.period_us) one.1 in
      let next = ap (λ (g : PeriodLedger). g.next_unaccounted) one.1 in
      run_cycles-labels left (cycle + 1) l' (period_kept ∙ same)
      ∙ rw (one.0, next, same) (append_assoc (labels l.timing.misses) _ _)

-- The misses that a run lists are those that the clock's readings give.
pub run-labels :
    (fl : Float32) (io : CanBus) (sys : System) (clock : Clock) (b : io.State) (cfg : RunConfig)
    (w : Option HogWindow)
    → labels (run fl io sys clock b cfg w).1.misses ≡ due cfg clock cfg.cycles 0 0
unfolding run outcome_of started untimed Ledger.new
run-labels fl io sys clock b cfg w =
    run_cycles-labels fl io cfg clock cfg.cycles 0 (started fl io cfg w b) refl
