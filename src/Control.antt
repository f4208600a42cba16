-- ===== src/Control.antt =====
-- core/src/control.rs: the low-pass filter and the PI controller, over an interface to `f32`.
pub mod Float
pub mod LowPass
pub mod Pi
