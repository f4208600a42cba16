-- ===== src/Host/Contention.antt =====
-- host/src/runner.rs: the window of contention, its signals in the loop and its outcome.
use Prim.Native.String.{String}
use fieldbus_control_node.Prelude.{
  ℕ, Bool, false, not, ◌&&◌, Option, none, some, ltb, ◌==◌, if◌then◌else◌,
}
use fieldbus_control_node.Telemetry.{JitterStats}
use fieldbus_control_node.Host.Schedule.{ThreadPolicy, System}
use fieldbus_control_node.Host.Hog.{
  CpuHog, spawn, activate, deactivate, stop, policy_granted, policy_requested, qos_class,
}
use fieldbus_control_node.Host.Hog
use fieldbus_control_node.Host.Timing.{Timing}

pub record HogWindow : Type 0 where
  pub start_cycle : ℕ
  pub end_cycle : ℕ
  pub threads : ℕ
  pub policy : ThreadPolicy

pub record HogOutcome : Type 0 where
  pub threads : ℕ
  pub policy : ThreadPolicy
  pub policy_requested : String
  pub policy_granted : ℕ
  pub qos_class : String
  pub start_cycle : ℕ
  pub end_cycle : ℕ
  pub misses_inside_window : ℕ
  pub misses_outside_window : ℕ
  pub jitter_inside_window : JitterStats
  pub jitter_outside_window : JitterStats

-- The hog with its window, spawned.
unfoldable pub prepare : Option HogWindow → Option (HogWindow × CpuHog)
prepare none = none
prepare (some w) = some (w, spawn (Hog.new w.threads w.policy))

unfoldable pub flip : HogWindow → CpuHog → ℕ → CpuHog
flip w h cycle =
    let h' = if cycle == w.start_cycle then activate h else h in
    if cycle == w.end_cycle then deactivate h' else h'

-- The flips of the hog's signal at the start of a cycle.
unfoldable pub signal_hog : Option (HogWindow × CpuHog) → ℕ → Option (HogWindow × CpuHog)
signal_hog none cycle = none
signal_hog (some (w, h)) cycle = some (w, flip w h cycle)

unfoldable pub in_window : Option (HogWindow × CpuHog) → ℕ → Bool
in_window none cycle = false
in_window (some (w, h)) cycle = not (ltb cycle w.start_cycle) && ltb cycle w.end_cycle

unfoldable pub hog_outcome : System → Timing → Option (HogWindow × CpuHog) → Option HogOutcome
hog_outcome sys t none = none
hog_outcome sys t (some (w, h)) =
    let h' = stop sys h in
    some (record {
      threads = h'.threads;
      policy = w.policy;
      policy_requested = policy_requested h';
      policy_granted = policy_granted h';
      qos_class = qos_class h';
      start_cycle = w.start_cycle;
      end_cycle = w.end_cycle;
      misses_inside_window = t.misses_inside;
      misses_outside_window = t.misses_outside;
      jitter_inside_window = t.inside_jitter;
      jitter_outside_window = t.outside_jitter;
    })
