-- ===== src/Control/Pi/Bounds.antt =====
-- core/src/control.rs: saturation and anti-windup of `Pi`.
use fieldbus_control_node.Prelude.{◌≡◌, ◌⊎◌, true, arith}
use fieldbus_control_node.Control.Float.{Float32, FloatLaws, clamp}
use fieldbus_control_node.Control.Pi.{Pi, new, candidate_integral, unsaturated, update}

-- A step keeps the limits and the gains.
pub update-limits :
    (fl : Float32) (c : Pi fl) (setpoint measurement : fl.F)
    → let c' = (update fl c setpoint measurement).0 in
      (c'.out_min ≡ c.out_min) × (c'.out_max ≡ c.out_max) × (c'.kp ≡ c.kp) × (c'.ki ≡ c.ki)
unfolding update
update-limits fl c setpoint measurement = ground arith

module _ (fl : Float32) (laws : FloatLaws fl) where
  open fl use {F, add, sub, mul, lt, le}

  -- The limits are numbers, in order.
  abbrev pub IsOrdered : Pi fl → Type 0
  IsOrdered c = le c.out_min c.out_max ≡ true

  -- Limits that are numbers are in order after `new`, whichever way round they were given.
  pub new-IsOrdered : (kp ki a b : F) → le a a ≡ true → le b b ≡ true → IsOrdered (new fl kp ki a b)
  unfolding new
  new-IsOrdered kp ki a b ha hb = ground (arith, laws.le_total a b)

  clamp-bounds :
      (x lo hi : F)
      → le lo hi ≡ true
      → le (clamp fl x lo hi) (clamp fl x lo hi) ≡ true
      → (le lo (clamp fl x lo hi) ≡ true) × (le (clamp fl x lo hi) hi ≡ true)
  clamp-bounds x lo hi h n = ground (
    arith,
    laws.le_left lo hi h,
    laws.le_right lo hi h,
    laws.le_of_not_lt x lo,
    laws.le_of_not_lt hi x,
  )

  -- With ordered limits, an output that is a number lies within them.
  pub update-bounded :
      (c : Pi fl) (setpoint measurement : F)
      → IsOrdered c
      → le (update fl c setpoint measurement).1 (update fl c setpoint measurement).1 ≡ true
      → (le c.out_min (update fl c setpoint measurement).1 ≡ true)
        × (le (update fl c setpoint measurement).1 c.out_max ≡ true)
  unfolding update
  update-bounded c setpoint measurement h n = clamp-bounds _ c.out_min c.out_max h n

  -- Anti-windup: a step either leaves the integral as it was, or integrates, and then its output
  -- is the unsaturated one, which lies within the limits.
  pub update-anti_windup :
      (c : Pi fl) (setpoint measurement : F)
      → let r = update fl c setpoint measurement in
        let error = sub setpoint measurement in
        let u = unsaturated fl c error (candidate_integral fl c error) in
        (r.0.integral ≡ c.integral)
        ⊎ ((r.0.integral ≡ candidate_integral fl c error)
            × (r.1 ≡ u)
            × (le c.out_min u ≡ true)
            × (le u c.out_max ≡ true))
  unfolding update
  update-anti_windup c setpoint measurement =
      let error = sub setpoint measurement in
      let u = unsaturated fl c error (candidate_integral fl c error) in
      ground (arith, laws.not_lt_of_le c.out_min u, laws.not_lt_of_le u c.out_max)
