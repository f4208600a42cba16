-- ===== src/Host/Hog/Spin.antt =====
-- host/src/hog.rs: the spinners and the control loop's signal, as interleaved steps on the shared
-- state. A step of a thread is what it does between two accesses to what is shared. The steps
-- are sequentially consistent: a load of the state, `Relaxed` in the source, sees the last store; a
-- load that sees an older one, outside the lock, is not modelled.
use fieldbus_control_node.Prelude.{
  ℕ, zero, suc, Bool, true, false, Option, none, some, List, [], ◌∷◌, map,
}
use mathlib.Core.Option
use fieldbus_control_node.Host.Hog.{SignalState, idle, active, terminate}

-- Where a spinner is: before the load of the state; in the 4096 iterations; after a load of IDLE,
-- before the lock; with the lock, before the test of `wait_while`; with the lock, after a test that
-- said to wait; blocked; notified, before it has the lock again; after its loop.
pub data Spinner : Type 0 where
  testing burning idling holding parking waiting woken finished : Spinner

-- Where the control thread is: outside `Signal::set`; with the lock, before the store; after it,
-- before `notify_all`; after that, before the unlock.
pub data Setter : Type 0 where
  outside : Setter
  locking : SignalState → Setter
  stored notified : Setter

pub record Shared : Type 0 where
  pub state : SignalState
  pub locked : Bool
  pub setter : Setter
  pub spinners : List Spinner

-- Nothing is signalled yet, and the spinners start.
unfoldable pub launched : ℕ → List Spinner
launched zero = []
launched (suc n) = testing ∷ launched n

unfoldable pub initial : ℕ → Shared
initial threads = record {
  state = idle;
  locked = false;
  setter = outside;
  spinners = launched threads;
}

-- A spinner's step, with the lock that it leaves; none where it is blocked or has ended.
unfoldable pub turn : SignalState → Bool → Spinner → Option (Spinner × Bool)
turn active locked testing = some (burning, locked)
turn terminate locked testing = some (finished, locked)
turn idle locked testing = some (idling, locked)
turn state locked burning = some (testing, locked)
turn state true idling = none
turn state false idling = some (holding, true)
turn idle locked holding = some (parking, locked)
turn active locked holding = some (testing, false)
turn terminate locked holding = some (testing, false)
turn state locked parking = some (waiting, false)
turn state locked waiting = none
turn state true woken = none
turn state false woken = some (holding, true)
turn state locked finished = none

-- A wake-up that no one signalled, which the condition variable allows.
unfoldable pub stir : Spinner → Option Spinner
stir testing = none
stir burning = none
stir idling = none
stir holding = none
stir parking = none
stir waiting = some woken
stir woken = none
stir finished = none

unfoldable pub notify : Spinner → Spinner
notify testing = testing
notify burning = burning
notify idling = idling
notify holding = holding
notify parking = parking
notify waiting = woken
notify woken = woken
notify finished = finished

-- The step of the spinner at an index.
unfoldable pub turn_at : SignalState → Bool → ℕ → List Spinner → Option (List Spinner × Bool)
turn_at state locked i [] = none
turn_at state locked zero (p ∷ ps) = Option.map (λ r. (r.0 ∷ ps, r.1)) (turn state locked p)
turn_at state locked (suc i) (p ∷ ps) = Option.map (λ r. (p ∷ r.0, r.1)) (turn_at state locked i ps)

unfoldable pub stir_at : ℕ → List Spinner → Option (List Spinner)
stir_at i [] = none
stir_at zero (p ∷ ps) = Option.map (λ q. q ∷ ps) (stir p)
stir_at (suc i) (p ∷ ps) = Option.map (λ qs. p ∷ qs) (stir_at i ps)

-- `Signal::set`, one step at a time.
unfoldable pub proceed : Shared → Setter → Option Shared
proceed s outside = none
proceed s (locking next) = some (record s { state = next; setter = stored })
proceed s stored = some (record s { setter = notified; spinners = map notify s.spinners })
proceed s notified = some (record s { setter = outside; locked = false })

unfoldable pub call : Shared → SignalState → Bool → Setter → Option Shared
call s next true setter = none
call s next false outside = some (record s { setter = locking next; locked = true })
call s next false (locking n) = none
call s next false stored = none
call s next false notified = none

-- Which thread steps next.
pub data ThreadEvent : Type 0 where
  sets : SignalState → ThreadEvent
  proceeds : ThreadEvent
  turns stirs : ℕ → ThreadEvent

unfoldable pub happen : Shared → ThreadEvent → Option Shared
happen s (sets next) = call s next s.locked s.setter
happen s proceeds = proceed s s.setter
happen s (turns i) =
    Option.map (λ r. record s { spinners = r.0; locked = r.1 })
      (turn_at s.state s.locked i s.spinners)
happen s (stirs i) = Option.map (λ ps. record s { spinners = ps }) (stir_at i s.spinners)

-- A schedule, each event of which is possible when its turn comes.
unfoldable pub play : Shared → List ThreadEvent → Option Shared
play s [] = some s
play s (e ∷ es) = elim (happen s e) [ none ↦ none | some s' ↦ play s' es ]
