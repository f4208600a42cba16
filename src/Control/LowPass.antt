-- ===== src/Control/LowPass.antt =====
-- core/src/control.rs: `LowPass`.
use fieldbus_control_node.Prelude.{Bool, true, false, not, if◌then◌else◌, pos}
use fieldbus_control_node.Control.Float.{Float32, clamp}

module _ (fl : Float32) where
  open fl use {F, add, sub, mul, literal, min_positive}

  pub record LowPass : Type 0 where
    pub alpha : F
    pub y : F
    pub primed : Bool

  unfoldable pub new : F → LowPass
  new alpha = record {
    alpha = clamp fl alpha min_positive (literal (pos 1) 0);
    y = literal (pos 0) 0;
    primed = false;
  }

  -- The new state and the filtered output.
  unfoldable pub update : LowPass → F → LowPass × F
  update f x =
      let f' =
        if not f.primed
        then record f { y = x; primed = true }
        else record f { y = add f.y (mul f.alpha (sub x f.y)) } in
      (f', f'.y)

  unfoldable pub value : LowPass → F
  value f = f.y

  unfoldable pub reset : LowPass → LowPass
  reset f = record f { y = literal (pos 0) 0; primed = false }
