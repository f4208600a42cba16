-- ===== src/Watchdog.antt =====
-- core/src/watchdog.rs: `SafeReason`, `SafeState` and `Watchdog`. Times are 64-bit microseconds;
-- the sum of a time and a budget wraps, as in a release build.
pub mod Latch
pub mod Reaction
use fieldbus_control_node.Prelude.{
  ℕ, ◌+◌, ◌-◌, Bool, true, false, ◌&&◌, Option, none, some, List, [], ◌∷◌, ltb, if◌then◌else◌, u64,
}
use Prim.Native.String.{String}

-- last_seen_us, tripped_at_us, timeout_us
pub data SafeReason : Type 0 where
  sensor_stale : ℕ → ℕ → ℕ → SafeReason

pub record SafeState : Type 0 where
  pub reason : SafeReason

since_last : SafeReason → ℕ
since_last (sensor_stale last_seen_us tripped_at_us timeout_us) = tripped_at_us - last_seen_us

unfoldable pub time_since_last_accepted_us : SafeState → ℕ
unfolding since_last
time_since_last_accepted_us s = since_last s.reason

past_budget : SafeReason → ℕ
past_budget (sensor_stale last_seen_us tripped_at_us timeout_us) =
    tripped_at_us - u64 (last_seen_us + timeout_us)

unfoldable pub overshoot_past_budget_us : SafeState → ℕ
unfolding past_budget
overshoot_past_budget_us s = past_budget s.reason

name_of_reason : SafeReason → String
name_of_reason (sensor_stale last_seen_us tripped_at_us timeout_us) = "sensor_stale"

unfoldable pub reason_name : SafeState → String
unfolding name_of_reason
reason_name s = name_of_reason s.reason

pub record Watchdog : Type 0 where
  pub timeout_us : ℕ
  pub last_seen_us : ℕ
  pub latched : Option SafeState

unfoldable pub new : ℕ → ℕ → Watchdog
new timeout_us start_us = record {
  timeout_us = timeout_us;
  last_seen_us = start_us;
  latched = none;
}

unfoldable pub feed : Watchdog → ℕ → Watchdog
feed w now_us = if ltb w.last_seen_us now_us then record w { last_seen_us = now_us } else w

abbrev is_none {ℓ} : {A : Type ℓ} → Option A → Bool
is_none none = true
is_none (some a) = false

unfoldable pub check : Watchdog → ℕ → Watchdog × Option SafeState
check w now_us =
    let w' =
      if is_none w.latched && ltb (u64 (w.last_seen_us + w.timeout_us)) now_us
      then record w {
        latched = some (record { reason = sensor_stale w.last_seen_us now_us w.timeout_us });
      }
      else w in
    (w', w'.latched)

unfoldable pub reset : Watchdog → ℕ → Watchdog
reset w now_us = record w { latched = none; last_seen_us = now_us }
