-- ===== src/Node/Bounds.antt =====
-- core/src/node.rs: the commanded actuator value and the actuator's limits.
use fieldbus_control_node.Prelude.{
  ℕ, ◌≡◌, refl, sym, ap, ◌∙◌, true, Option, none, some, List, [], ◌∷◌, subst, pos, negsuc, arith,
}
use fieldbus_control_node.J1939.Payload.{Frame}
use fieldbus_control_node.J1939.Validator.Accounting.{outcomes}
use fieldbus_control_node.Watchdog.{SafeState, check}
use fieldbus_control_node.Control.Float.{Float32, FloatLaws}
use fieldbus_control_node.Control.Pi.{Pi}
use fieldbus_control_node.Control.Pi
use fieldbus_control_node.Control.Pi.Bounds.{IsOrdered, update-bounded, update-limits}
use fieldbus_control_node.Control.LowPass
use fieldbus_control_node.Node.{
  ControlNode, actuate, filter_fresh, step, with_watchdog_timeout, out_min, out_max,
}
use fieldbus_control_node.Node.Ingest.{watched, checked, step_lem, last_accepted}
use fieldbus_control_node.Node.Safe.{run}

module _ (fl : Float32) (laws : FloatLaws fl) where
  open fl use {F, le, literal}

  -- The controller's limits are the actuator's.
  pub record IsLimited (n : ControlNode fl) : Type 0 where
    pub lower : n.pi.out_min ≡ out_min fl
    pub upper : n.pi.out_max ≡ out_max fl

  limits_ordered : le (out_min fl) (out_max fl) ≡ true
  limits_ordered = laws.literal_mono (negsuc 999) (pos 1000) 0 (omega arith)

  new-IsLimited : (start timeout : ℕ) → IsLimited (with_watchdog_timeout fl start timeout)
  unfolding with_watchdog_timeout Pi.new
  new-IsLimited start timeout = rw limits_ordered (record { lower = refl; upper = refl })

  actuate-IsLimited :
      (n : ControlNode fl) (fresh : Option F) (s : Option SafeState)
      → IsLimited n
      → IsLimited (actuate fl n fresh s).0
  unfolding actuate
  actuate-IsLimited n fresh (some s) v = v
  actuate-IsLimited n fresh none v =
      let k =
        update-limits fl n.pi n.setpoint (LowPass.value fl (filter_fresh fl n.filter fresh)) in
      record { lower = k.0 ∙ v.lower; upper = k.1 ∙ v.upper }

  pub step-IsLimited :
      (n : ControlNode fl) (now : ℕ) (fs : List Frame)
      → IsLimited n
      → IsLimited (step fl n now fs).0
  step-IsLimited n now fs v = rw (step_lem fl n now fs) (
      let w =
        actuate-IsLimited (checked fl n now fs) (last_accepted fl none (outcomes n.validator fs))
          (check (watched fl n now fs) now).1 (record { lower = v.lower; upper = v.upper }) in
      record { lower = w.lower; upper = w.upper })

  run-IsLimited :
      (n : ControlNode fl) (periods : List (ℕ × List Frame))
      → IsLimited n
      → IsLimited (run fl n periods)
  unfolding run
  run-IsLimited n [] v = v
  run-IsLimited n ((now, fs) ∷ periods) v =
      run-IsLimited (step fl n now fs).0 periods (step-IsLimited n now fs v)

  actuate-bounded :
      (n : ControlNode fl) (fresh : Option F) (s : Option SafeState)
      → IsLimited n
      → le (actuate fl n fresh s).1 (actuate fl n fresh s).1 ≡ true
      → (le (out_min fl) (actuate fl n fresh s).1 ≡ true)
        × (le (actuate fl n fresh s).1 (out_max fl) ≡ true)
  unfolding actuate
  actuate-bounded n fresh (some s) v h = (
    laws.literal_mono (negsuc 999) (pos 0) 0 (omega arith),
    laws.literal_mono (pos 0) (pos 1000) 0 (omega arith),
  )
  actuate-bounded n fresh none v h =
      let m = LowPass.value fl (filter_fresh fl n.filter fresh) in
      let o = Pi.update fl n.pi n.setpoint m in
      let ordered : IsOrdered fl laws n.pi = rw (v.lower, v.upper) limits_ordered in
      let b = update-bounded fl laws n.pi n.setpoint m ordered h in
      (subst (λ l. le l o.1 ≡ true) v.lower b.0, subst (λ u. le o.1 u ≡ true) v.upper b.1)

  -- A node that starts from `with_watchdog_timeout`, after any periods with any frames: the next
  -- commanded actuator value lies within the actuator's limits, whenever it is a number.
  pub run-bounded :
      (start timeout : ℕ) (periods : List (ℕ × List Frame)) (now : ℕ) (fs : List Frame)
      → le
          (step fl (run fl (with_watchdog_timeout fl start timeout) periods) now fs).1.actuator
          (step fl (run fl (with_watchdog_timeout fl start timeout) periods) now fs).1.actuator
        ≡ true
      → let u =
          (step fl (run fl (with_watchdog_timeout fl start timeout) periods) now fs).1.actuator in
        (le (out_min fl) u ≡ true) × (le u (out_max fl) ≡ true)
  run-bounded start timeout periods now fs h =
      let n = run fl (with_watchdog_timeout fl start timeout) periods in
      let v =
        run-IsLimited (with_watchdog_timeout fl start timeout) periods
          (new-IsLimited start timeout) in
      let e = ap (λ r. r.1.actuator) (step_lem fl n now fs) in
      let b =
        actuate-bounded (checked fl n now fs) (last_accepted fl none (outcomes n.validator fs))
          (check (watched fl n now fs) now).1 (record { lower = v.lower; upper = v.upper })
          (subst (λ x. le x x ≡ true) e h) in
      subst (λ x. (le (out_min fl) x ≡ true) × (le x (out_max fl) ≡ true)) (sym e) b
