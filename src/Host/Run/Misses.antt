-- ===== src/Host/Run/Misses.antt =====
-- host/src/runner.rs: the misses that a run explains, counts and attributes.
use fieldbus_control_node.Prelude.{
  ℕ, zero, suc, ◌+◌, ◌*◌, ◌≡◌, refl, sym, ◌∙◌, subst, arith, Bool, true, false, Option, none, some,
  List, [], ◌∷◌, ◌++◌, length, length-append, u64, if◌then◌else◌, Bool-cases, inl, inr, if_lem, ltb,
  leb, ◌&&◌,
}
use fieldbus_control_node.Control.Float.{Float32}
use fieldbus_control_node.Telemetry.{record_miss, record_sample}
use fieldbus_control_node.Telemetry
use fieldbus_control_node.Host.Schedule.{System}
use fieldbus_control_node.Host.Hog.{CpuHog}
use fieldbus_control_node.Host.Timing.{
  Miss, Timing, charge, charge_skipped, record_wake, time_start, time_end, untimed,
}
use fieldbus_control_node.Host.Contention.{
  HogWindow, HogOutcome, prepare, signal_hog, in_window, hog_outcome,
}
use fieldbus_control_node.Host.Run.Listed.{labels, due, run-labels}
use fieldbus_control_node.Host.Run.{
  CanBus, Clock, RunConfig, Loop, run_cycle, run_cycles, started, outcome_of, run,
}

-- The window that a run was given.
abbrev pub window_of : Option (HogWindow × CpuHog) → Option HogWindow
window_of none = none
window_of (some (w, h)) = some w

-- Whether a cycle lies in a window: from its start on and before its end.
abbrev pub contended : Option HogWindow → ℕ → Bool
contended none cycle = false
contended (some w) cycle = leb w.start_cycle cycle && leb (cycle + 1) w.end_cycle

-- The misses of cycles that lie in the window, and of the others.
abbrev pub inside : Option HogWindow → List Miss → ℕ
inside w [] = 0
inside w (m ∷ ms) = (if contended w m.cycle then 1 else 0) + inside w ms

abbrev pub outside : Option HogWindow → List Miss → ℕ
outside w [] = 0
outside w (m ∷ ms) = (if contended w m.cycle then 0 else 1) + outside w ms

inside-append :
    (w : Option HogWindow) (ms ns : List Miss) → inside w (ms ++ ns) ≡ inside w ms + inside w ns
inside-append w [] ns = omega arith
inside-append w (m ∷ ms) ns = omega (arith, inside-append w ms ns)

outside-append :
    (w : Option HogWindow) (ms ns : List Miss) → outside w (ms ++ ns) ≡ outside w ms + outside w ns
outside-append w [] ns = omega arith
outside-append w (m ∷ ms) ns = omega (arith, outside-append w ms ns)

-- What the counters of a run's misses are, against the list of them.
pub record IsTallied (w : Option HogWindow) (t : Timing) : Type 0 where
  pub missed : t.jitter.missed_deadlines ≡ u64 (length t.misses)
  pub inside_count : t.misses_inside ≡ u64 (inside w t.misses)
  pub outside_count : t.misses_outside ≡ u64 (outside w t.misses)

charge-IsTallied :
    (w : Option HogWindow) (t : Timing) (m : Miss) (b : Bool)
    → contended w m.cycle ≡ b
    → IsTallied w t
    → IsTallied w (charge t b m)
unfolding charge record_miss
charge-IsTallied w t m b e h =
    let l = length-append t.misses (m ∷ []) in
    let i = inside-append w t.misses (m ∷ []) in
    let o = outside-append w t.misses (m ∷ []) in
    elim (Bool-cases b) [
      | inl p ↦ record {
        missed = ground (arith, h.missed, l);
        inside_count = ground (arith, h.inside_count, i);
        outside_count = ground (arith, h.outside_count, o);
      }
      | inr p ↦ record {
        missed = ground (arith, h.missed, l);
        inside_count = ground (arith, h.inside_count, i);
        outside_count = ground (arith, h.outside_count, o);
      }
    ]

charge_skipped-IsTallied :
    (w : Option HogWindow) (left k : ℕ) (t : Timing) (b : Bool) (period cycle jitter : ℕ)
    → contended w cycle ≡ b
    → IsTallied w t
    → IsTallied w (charge_skipped t b period cycle jitter k left)
unfolding charge_skipped
charge_skipped-IsTallied w zero k t b period cycle jitter e h = h
charge_skipped-IsTallied w (suc left) k t b period cycle jitter e h =
    charge_skipped-IsTallied w left (k + 1) _ b period cycle jitter e (charge-IsTallied w t _ b e h)

wake-IsTallied :
    (w : Option HogWindow) (t : Timing) (b : Bool) (jitter : ℕ)
    → IsTallied w t
    → IsTallied w (record_wake t b jitter)
unfolding record_wake record_sample
wake-IsTallied w t true jitter h = record {
  missed = h.missed;
  inside_count = h.inside_count;
  outside_count = h.outside_count;
}
wake-IsTallied w t false jitter h = record {
  missed = h.missed;
  inside_count = h.inside_count;
  outside_count = h.outside_count;
}

time_start-IsTallied :
    (w : Option HogWindow) (t : Timing) (b : Bool) (period cycle start : ℕ)
    → contended w cycle ≡ b
    → IsTallied w t
    → IsTallied w (time_start period t b cycle start)
unfolding time_start
time_start-IsTallied w t b period cycle start e h =
    let woken = wake-IsTallied w t b _ h in
    charge_skipped-IsTallied w _ 0 _ b period cycle _ e (record {
      missed = woken.missed;
      inside_count = woken.inside_count;
      outside_count = woken.outside_count;
    })

time_end-IsTallied :
    (w : Option HogWindow) (t : Timing) (b : Bool) (period cycle start end : ℕ)
    → contended w cycle ≡ b
    → IsTallied w t
    → IsTallied w (time_end period t b cycle start end)
unfolding time_end
time_end-IsTallied w t b period cycle start end e h =
    if_lem (IsTallied w) (ltb (u64 (u64 (cycle * period) + period)) end)
      (charge-IsTallied w t _ b e h) h

window_of-signal :
    (h : Option (HogWindow × CpuHog)) (cycle : ℕ) → window_of (signal_hog h cycle) ≡ window_of h
unfolding signal_hog
window_of-signal none cycle = refl
window_of-signal (some (w, h)) cycle = refl

contended-window_of :
    (h : Option (HogWindow × CpuHog)) (cycle : ℕ)
    → contended (window_of h) cycle ≡ in_window h cycle
unfolding in_window
contended-window_of none cycle = refl
contended-window_of (some (w, h)) cycle = ground arith

window_of-prepare : (w : Option HogWindow) → window_of (prepare w) ≡ w
unfolding prepare
window_of-prepare none = refl
window_of-prepare (some w) = refl

-- What a hog run reports of the misses agrees with the run's own list of them.
abbrev pub Attributed : Option HogWindow → List Miss → Option HogOutcome → Type 0
Attributed none ms none = Unit {0}
Attributed none ms (some o) = ⊥
Attributed (some w) ms none = ⊥
Attributed (some w) ms (some o) =
    (o.misses_inside_window ≡ u64 (inside (some w) ms))
    × (o.misses_outside_window ≡ u64 (outside (some w) ms))

outcome-Attributed :
    (sys : System) (t : Timing) (h : Option (HogWindow × CpuHog))
    → IsTallied (window_of h) t
    → Attributed (window_of h) t.misses (hog_outcome sys t h)
unfolding hog_outcome
outcome-Attributed sys t none tallied = tt
outcome-Attributed sys t (some (w, h)) tallied = (tallied.inside_count, tallied.outside_count)

module _ (fl : Float32) (io : CanBus) (cfg : RunConfig) (clock : Clock) where
  -- The window stays the one that was given, and the counters agree with the misses.
  record Kept (w : Option HogWindow) (l : Loop fl io) : Type 0 where
    window : window_of l.hog ≡ w
    tallied : IsTallied w l.timing

  run_cycle-Kept :
      (w : Option HogWindow) (l : Loop fl io) (cycle : ℕ)
      → Kept w l
      → Kept w (run_cycle fl io cfg clock l cycle)
  unfolding run_cycle
  run_cycle-Kept w l cycle k =
      let same : window_of (signal_hog l.hog cycle) ≡ w = window_of-signal l.hog cycle ∙ k.window in
      let e : contended w cycle ≡ in_window (signal_hog l.hog cycle) cycle =
        subst (λ v. contended v cycle ≡ in_window (signal_hog l.hog cycle) cycle) same
          (contended-window_of (signal_hog l.hog cycle) cycle) in
      record {
        window = same;
        tallied =
            time_end-IsTallied w _ _ cfg.period_us cycle _ _ e
              (time_start-IsTallied w l.timing _ cfg.period_us cycle _ e k.tallied);
      }

  run_cycles-Kept :
      (w : Option HogWindow) (left cycle : ℕ) (l : Loop fl io)
      → Kept w l
      → Kept w (run_cycles fl io cfg clock left cycle l)
  unfolding run_cycles
  run_cycles-Kept w zero cycle l k = k
  run_cycles-Kept w (suc left) cycle l k =
      run_cycles-Kept w left (cycle + 1) _ (run_cycle-Kept w l cycle k)

-- Whatever the bus delivers and whenever the cycles wake and finish: a run lists the misses that the
-- clock's readings give, or in virtual time the schedule, in the order of the cycles. For each cycle
-- these are a skipped period for each period before the one in which it started and after the one
-- in which the cycle before it did, from period 0 on for the first, and an overrun if it ended after
-- its deadline, the times of the schedule and the period numbers in 64 bits. The miss counter is the
-- number of those misses, in 64 bits. For a run with a hog the two counters of its outcome are the
-- numbers of those whose cycle lies in the window, from its start on and before its end, and outside
-- it; a run without a window has no such outcome.
pub run-Attributed :
    (fl : Float32) (io : CanBus) (sys : System) (clock : Clock) (b : io.State) (cfg : RunConfig)
    (w : Option HogWindow)
    → let out = (run fl io sys clock b cfg w).1 in
      (labels out.misses ≡ due cfg clock cfg.cycles 0 0)
      × (out.jitter.missed_deadlines ≡ u64 (length out.misses))
      × Attributed w out.misses out.hog
unfolding run outcome_of started untimed Telemetry.new
run-Attributed fl io sys clock b cfg w =
    let l = run_cycles fl io cfg clock cfg.cycles 0 (started fl io cfg w b) in
    let k : Kept fl io cfg clock w l = run_cycles-Kept fl io cfg clock w cfg.cycles 0 _ (record {
      window = window_of-prepare w;
      tallied = record { missed = refl; inside_count = refl; outside_count = refl };
    }) in
    (
      run-labels fl io sys clock b cfg w,
      k.tallied.missed,
      subst (λ v. Attributed v l.timing.misses (hog_outcome sys l.timing l.hog)) k.window
          (outcome-Attributed sys l.timing l.hog
            (subst (λ v. IsTallied v l.timing) (sym k.window) k.tallied)),
    )
