-- ===== src/Host/Bus/Caused.antt =====
-- host/src/bus.rs: what a validator counts of a cycle of the bus, against the schedule of faults.
use fieldbus_control_node.Prelude.{
  ℕ, zero, suc, ◌+◌, ◌<◌, ◌^◌, ◌≡◌, refl, ap, ◌∙◌, arith, Bool, true, false, ◌&&◌, ◌||◌, List, [],
  ◌∷◌, ◌++◌, ◌==◌, if◌then◌else◌, u8, u64, ℤ, Bool-cases, inl, inr,
}
use fieldbus_control_node.J1939.Payload.{Frame}
use fieldbus_control_node.J1939.Validator.{
  Validator, Reject, index, validate_all, bad_crc, duplicate, out_of_order, out_of_range,
  bad_length,
}
use fieldbus_control_node.J1939.Validator.Accounting.{outcomes, accepted_in, refused_in}
use fieldbus_control_node.J1939.Validator.Sequence.{IsInRange, Expects}
use fieldbus_control_node.Control.Float.{Float32}
use fieldbus_control_node.Host.Bus.{
  FaultSchedule, SimBus, contains, frozen, when, burst, noise, transmit, recv_until,
}
use fieldbus_control_node.Host.Bus.Faults.{injected, refusals, burst_attributed}

-- Whether the sensor says nothing in a cycle.
abbrev pub silent : FaultSchedule → ℕ → Bool
silent s cycle = frozen s.freeze_at cycle || contains s.dropped cycle

abbrev pub one_if : Bool → ℕ
one_if true = 1
one_if false = 0

-- The refusals for the reason of an index that a schedule is there to cause in a cycle.
abbrev pub scheduled : FaultSchedule → ℕ → ℕ → ℕ
scheduled s i cycle =
    one_if (i == 3 && contains s.bad_crc cycle)
    + one_if (i == 5 && contains s.duplicate cycle)
    + one_if (i == 6 && contains s.out_of_order cycle)
    + one_if (i == 7 && contains s.out_of_range cycle)
    + one_if (i == 0 && contains s.bad_length cycle)

refused_in-append :
    (i : ℕ) (rs qs : List Reject)
    → refused_in i (refusals (rs ++ qs)) ≡ refused_in i (refusals rs) + refused_in i (refusals qs)
refused_in-append i [] qs = omega arith
refused_in-append i (r ∷ rs) qs = ground (arith, refused_in-append i rs qs)

refused_in-when :
    (i : ℕ) (b : Bool) (r : Reject)
    → refused_in i (refusals (when b r)) ≡ one_if (i == index r && b)
unfolding when
refused_in-when i true r = ground arith
refused_in-when i false r = ground arith

accepted_in-refusals : (rs : List Reject) → accepted_in (refusals rs) ≡ 0
accepted_in-refusals [] = refl
accepted_in-refusals (r ∷ rs) = accepted_in-refusals rs

refused_in-injected :
    (i : ℕ) (s : FaultSchedule) (cycle seq : ℕ)
    → refused_in i (refusals (injected s cycle seq)) ≡ scheduled s i cycle
unfolding index
refused_in-injected i s cycle seq =
    let crc = when (contains s.bad_crc cycle) bad_crc in
    let twice = when (contains s.duplicate cycle) duplicate in
    let ahead = when (contains s.out_of_order cycle) (out_of_order (u8 (seq + 1)) (u8 (seq + 5))) in
    let range = when (contains s.out_of_range cycle) out_of_range in
    let short = when (contains s.bad_length cycle) bad_length in
    omega (
      arith,
      refused_in-append i crc (twice ++ (ahead ++ (range ++ short))),
      refused_in-append i twice (ahead ++ (range ++ short)),
      refused_in-append i ahead (range ++ short),
      refused_in-append i range short,
      refused_in-when i (contains s.bad_crc cycle) bad_crc,
      refused_in-when i (contains s.duplicate cycle) duplicate,
      refused_in-when i (contains s.out_of_order cycle)
          (out_of_order (u8 (seq + 1)) (u8 (seq + 5))),
      refused_in-when i (contains s.out_of_range cycle) out_of_range,
      refused_in-when i (contains s.bad_length cycle) bad_length,
    )

-- What the schedule causes in a cycle in which the sensor may be silent.
abbrev pub caused : FaultSchedule → ℕ → ℕ → ℕ
caused s i cycle = if silent s cycle then 0 else scheduled s i cycle

-- Over the cycles that are left, from one on.
abbrev pub caused_through : FaultSchedule → ℕ → ℕ → ℕ → ℕ
caused_through s i cycle zero = 0
caused_through s i cycle (suc left) = caused s i cycle + caused_through s i (cycle + 1) left

Expects-u8 : (v : Validator) (s : ℕ) → Expects v s → Expects v (u8 s)
Expects-u8 v s (inl e) = inl e
Expects-u8 v s (inr (last, e, fits, next)) = inr (last, e, fits, omega arith)

module _ (fl : Float32) where
  -- What the sensor of a bus reads in its next cycle.
  abbrev pub next_reading : SimBus fl → ℤ
  unfolding noise
  next_reading b =
      let (b', error) = noise fl (record b { cycle = u64 (b.cycle + 1) }) in
      fl.to_i16 (fl.add b'.plant error)

  -- What one exchange of a bus and a validator does.
  pub record IsCaused (i : ℕ) (v : Validator) (b b' : SimBus fl) (fs : List Frame) : Type 0 where
    pub accepted : accepted_in (outcomes v fs) ≡ (if silent b.faults b.cycle then 0 else 1)
    pub refused : refused_in i (outcomes v fs) ≡ caused b.faults i b.cycle
    pub expects : Expects (validate_all v fs) b'.seq
    pub seq_fits : b'.seq < 2 ^ 8
    pub faults : b'.faults ≡ b.faults
    pub cycle : b'.cycle ≡ u64 (b.cycle + 1)

  pub recv_until-IsCaused :
      (i deadline : ℕ) (v : Validator) (b : SimBus fl)
      → Expects v b.seq
      → b.seq < 2 ^ 8
      → (silent b.faults b.cycle ≡ false → IsInRange (next_reading b))
      → IsCaused i v b (recv_until fl b deadline).0 (recv_until fl b deadline).1
  unfolding recv_until transmit noise validate_all
  recv_until-IsCaused i deadline v b w fits within = elim (Bool-cases (silent b.faults b.cycle)) [
    | inl quiet ↦ rw quiet (record {
      accepted = rw quiet refl;
      refused = rw quiet refl;
      expects = w;
      seq_fits = fits;
      faults = refl;
      cycle = refl;
    })
    | inr speaks ↦
        let a = burst_attributed b.faults b.cycle b.seq (next_reading b) v fits w (within speaks) in
        rw speaks (record {
          accepted = rw speaks (
              ap accepted_in a.0 ∙ ap suc (accepted_in-refusals (injected b.faults b.cycle b.seq)));
          refused =
              rw speaks (ap (refused_in i) a.0 ∙ refused_in-injected i b.faults b.cycle b.seq);
          expects =
              Expects-u8 (validate_all v (burst b.faults b.cycle b.seq (next_reading b)))
                (b.seq + 1) a.1;
          seq_fits = omega arith;
          faults = refl;
          cycle = refl;
        })
  ]
