-- ===== src/Host/Hog.antt =====
-- host/src/hog.rs: `CpuHog` as the control loop sees it. What the spinners write about themselves
-- (whether their policy was granted, and what it was) is read after they are joined only; so each
-- one's writes stand at its join, and all of them write the same text.
pub mod Spin
pub mod Turns
pub mod Wakes
pub mod Stops
use Prim.Native.String.{String}
use fieldbus_control_node.Prelude.{ℕ, zero, suc, ◌+◌, Bool, not, List, [], ◌∷◌, ◌++◌, if◌then◌else◌}
use fieldbus_control_node.Host.Bus.{is_empty}
use fieldbus_control_node.Host.Schedule.{ThreadPolicy, System, SchedulingReport, apply}

-- The values of `Signal::state`.
pub data SignalState : Type 0 where
  idle active terminate : SignalState

pub record PolicyObserved : Type 0 where
  pub requested : String
  pub qos_class : String

pub record Signal : Type 0 where
  pub state : SignalState
  pub granted : ℕ
  pub policy : PolicyObserved

pub record CpuHog : Type 0 where
  pub threads : ℕ
  pub policy : ThreadPolicy
  pub signal : Signal
  -- The spinners' threads, by number.
  pub handles : List ℕ

unfoldable pub new : ℕ → ThreadPolicy → CpuHog
new threads policy = record {
  threads = threads;
  policy = policy;
  signal = record { state = idle; granted = 0; policy = record { requested = ""; qos_class = "" } };
  handles = [];
}

unfoldable pub policy_granted : CpuHog → ℕ
policy_granted h = h.signal.granted

unfoldable pub policy_requested : CpuHog → String
policy_requested h = h.signal.policy.requested

unfoldable pub qos_class : CpuHog → String
qos_class h = h.signal.policy.qos_class

unfoldable pub set_state : CpuHog → SignalState → CpuHog
set_state h next = record h { signal = record h.signal { state = next } }

-- The threads numbered from 1 on.
unfoldable pub spawned : ℕ → List ℕ
spawned zero = []
spawned (suc n) = suc n ∷ spawned n

unfoldable pub spawn : CpuHog → CpuHog
spawn h = record h { handles = h.handles ++ spawned h.threads }

unfoldable pub activate : CpuHog → CpuHog
activate h = set_state h active

unfoldable pub deactivate : CpuHog → CpuHog
deactivate h = set_state h idle

unfoldable pub running : CpuHog → Bool
running h = not (is_empty h.handles)

-- What a spinner does before its loop.
unfoldable pub observe : Signal → SchedulingReport → Signal
observe s report = record s {
  granted = if report.granted then s.granted + 1 else s.granted;
  policy = record { requested = report.requested; qos_class = report.qos_class };
}

unfoldable pub join_all : System → ThreadPolicy → Signal → List ℕ → Signal
join_all sys policy s [] = s
join_all sys policy s (t ∷ ts) = join_all sys policy (observe s (apply sys t policy)) ts

unfoldable pub stop : System → CpuHog → CpuHog
stop sys h =
    if running h
    then record (set_state h terminate) {
      signal = join_all sys h.policy (set_state h terminate).signal h.handles;
      handles = [];
    }
    else h
