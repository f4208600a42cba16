-- ===== src/Control/Pi.antt =====
-- core/src/control.rs: `Pi`.
pub mod Bounds
use fieldbus_control_node.Prelude.{Bool, ◌&&◌, if◌then◌else◌, pos}
use fieldbus_control_node.Control.Float.{Float32, clamp}

abbrev pub period_s : (fl : Float32) → fl.F
period_s fl = fl.literal (pos 10) 3

module _ (fl : Float32) where
  open fl use {F, add, sub, mul, le, literal}

  pub record Pi : Type 0 where
    pub kp : F
    pub ki : F
    pub out_min : F
    pub out_max : F
    pub integral : F

  -- The limits are put in order.
  unfoldable pub new : F → F → F → F → Pi
  new kp ki out_min out_max =
      let (lo, hi) = if le out_min out_max then (out_min, out_max) else (out_max, out_min) in
      record { kp = kp; ki = ki; out_min = lo; out_max = hi; integral = literal (pos 0) 0 }

  -- The integral that `update` would move to, and the output before saturation.
  unfoldable pub candidate_integral : Pi → F → F
  candidate_integral c error = add c.integral (mul error (period_s fl))

  unfoldable pub unsaturated : Pi → F → F → F
  unsaturated c error integral = add (mul c.kp error) (mul c.ki integral)

  unfoldable pub update : Pi → F → F → Pi × F
  unfolding candidate_integral unsaturated
  update c setpoint measurement =
      let error = sub setpoint measurement in
      let candidate = candidate_integral c error in
      let u = unsaturated c error candidate in
      let c' = if le c.out_min u && le u c.out_max then record c { integral = candidate } else c in
      (c', clamp fl (unsaturated c error c'.integral) c.out_min c.out_max)

  unfoldable pub reset : Pi → Pi
  reset c = record c { integral = literal (pos 0) 0 }
