-- ===== src/Demo/Outcome.antt =====
-- wasm/src/lib.rs: what `run_demo` reports, in each of its modes.
use fieldbus_control_node.Prelude.{
  ℕ, ◌+◌, ◌*◌, ◌<◌, ◌≤◌, ◌≡◌, refl, ap, ◌∙◌, subst, arith, false, none, some, [], leb,
  if◌then◌else◌, inl, All, same_text,
}
use Prim.Native.String.{String}
use native.Mathlib.Decide.{dec_lt}
use fieldbus_control_node.J1939.Validator
use fieldbus_control_node.Control.Float.{Float32}
use fieldbus_control_node.Node.{with_watchdog_timeout}
use fieldbus_control_node.Node.Ingest.{step-parts}
use fieldbus_control_node.Watchdog
use fieldbus_control_node.Demo.{
  period_us, reaction_or, play, run_demo, cycles_of, fault_cycle_of, safe_cycle_of, Sample, clamp,
  trip_cycle,
}
use fieldbus_control_node.Demo.Fed.{IsLive}
use fieldbus_control_node.Demo.Silent.{
  reaction_or-latch, silent-IsLive, seen_after, trip_at, latch, stale, IsStale, silent-IsStale,
}
use fieldbus_control_node.Demo.Loop.{refused, FromTrip, play-IsStale, play-IsLive}

cycles_of-range : (n : ℕ) → (50 ≤ cycles_of n) × (cycles_of n ≤ 2000)
unfolding cycles_of clamp
cycles_of-range n = ground arith

fault_cycle_of-lt : (cycles n : ℕ) → 0 < cycles → fault_cycle_of cycles n < cycles
unfolding fault_cycle_of
fault_cycle_of-lt cycles n h = ground arith

trip_shown :
    (f cycles : ℕ)
    → f < 2001
    → safe_cycle_of (latch f (cycles + 1))
      ≡ (if leb (trip_at f) cycles then some (trip_at f) else none)
unfolding safe_cycle_of trip_cycle
trip_shown f cycles h = elim (dec_lt cycles (trip_at f)) [
  | yes p ↦ ground arith
  | no p ↦ ground arith
]

module _ (fl : Float32) where
  starts-IsLive :
      (mode : String) (f : ℕ)
      → IsLive fl 0 (refused mode f 0) (seen_after 0) (with_watchdog_timeout fl 0 80000)
  unfolding with_watchdog_timeout Validator.new Watchdog.new
  starts-IsLive mode f = record {
    counted = record { accepts = refl; rejects = ground arith; expects = inl refl };
    unlatched = refl;
    budget = refl;
    last_seen = refl;
  }

  starts-IsStale : (f : ℕ) → IsStale fl f 0 (with_watchdog_timeout fl 0 80000) 0
  unfolding with_watchdog_timeout Validator.new Watchdog.new
  starts-IsStale f = record {
    accepts = ground arith;
    rejects = refl;
    expects = λ h. inl refl;
    budget = refl;
    last_seen = ground arith;
    latched = ground arith;
    reacted = ground arith;
  }

  -- In every mode but `sensor_stale`, whatever numbers the page asks for: every cycle's frame is
  -- accepted, one frame is refused in the mode `bad_crc` and none in another, and no safe state is
  -- reported, in a sample or in the summary.
  pub run_demo-live :
      (mode : String) (requested_cycles requested_fault_cycle : ℕ)
      → same_text mode "sensor_stale" ≡ false
      → let d = run_demo fl mode requested_cycles requested_fault_cycle in
        (d.accepted ≡ d.cycles)
        × (d.rejected ≡ (if same_text mode "bad_crc" then 1 else 0))
        × (d.safe_latched ≡ false)
        × (d.safe_cycle ≡ none)
        × (d.reaction_us ≡ 0)
        × All (λ (s : Sample fl). s.safe ≡ false) d.samples
  unfolding run_demo safe_cycle_of reaction_or
  run_demo-live mode requested_cycles requested_fault_cycle m =
      let cycles = cycles_of requested_cycles in
      let f = fault_cycle_of cycles requested_fault_cycle in
      let (low, high) = cycles_of-range requested_cycles in
      let lt : f < cycles = fault_cycle_of-lt cycles requested_fault_cycle (omega arith) in
      let (live, kept, quiet) =
        play-IsLive fl mode f cycles 0 (with_watchdog_timeout fl 0 80000) 0 m (omega arith)
          (starts-IsLive mode f) in
      let p = play fl mode f cycles 0 (with_watchdog_timeout fl 0 80000) 0 in
      let whole : 0 + cycles ≡ cycles = omega arith in
      let ended : IsLive fl cycles (refused mode f cycles) (seen_after cycles) p.node =
        subst (λ k. IsLive fl k (refused mode f k) (seen_after k) p.node) whole live in
      let last = silent-IsLive fl cycles (refused mode f cycles) p.node (omega arith) ended in
      rw last.2 (last.0, last.1 ∙ ground arith, refl, refl, kept, quiet)

  -- In the mode `sensor_stale` with the sensor silent from cycle `f` on: the frames before it are
  -- accepted and none is refused; the safe state is latched exactly when the run reaches the eighth
  -- cycle after `f` (the ninth cycle when no frame came at all), at that cycle, with a reaction of
  -- 90 ms, and exactly the samples from that cycle on are safe.
  pub run_demo-stale :
      (requested_cycles requested_fault_cycle : ℕ)
      → let d = run_demo fl "sensor_stale" requested_cycles requested_fault_cycle in
        let f = d.fault_cycle in
        (d.accepted ≡ f)
        × (d.rejected ≡ 0)
        × (d.safe_latched ≡ leb (trip_at f) d.cycles)
        × (d.safe_cycle ≡ (if leb (trip_at f) d.cycles then some (trip_at f) else none))
        × (d.reaction_us ≡ (if leb (trip_at f) d.cycles then 90000 else 0))
        × All (FromTrip fl f) d.samples
  unfolding run_demo
  run_demo-stale requested_cycles requested_fault_cycle =
      let cycles = cycles_of requested_cycles in
      let f = fault_cycle_of cycles requested_fault_cycle in
      let (low, high) = cycles_of-range requested_cycles in
      let lt : f < cycles = fault_cycle_of-lt cycles requested_fault_cycle (omega arith) in
      let (stale, shown) =
        play-IsStale fl f cycles 0 (with_watchdog_timeout fl 0 80000) 0 (omega arith)
          (starts-IsStale f) in
      let p = play fl "sensor_stale" f cycles 0 (with_watchdog_timeout fl 0 80000) 0 in
      let whole : 0 + cycles ≡ cycles = omega arith in
      let ended = subst (λ k. IsStale fl f k p.node p.last_reaction_us) whole stale in
      let (after, state) =
        silent-IsStale fl f cycles p.node p.last_reaction_us (omega arith) (omega arith) ended in
      let q = step-parts fl p.node (cycles * period_us) [] in
      rw state (
        q.accepted ∙ after.accepts ∙ ground arith,
        q.rejected ∙ after.rejects,
        ground arith,
        trip_shown f cycles (omega arith),
        ap (λ d. reaction_or d (latch f (cycles + 1))) ended.reacted
            ∙ reaction_or-latch f cycles
            ∙ ground arith,
        shown,
      )
